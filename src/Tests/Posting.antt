-- ===== src/Tests/Posting.antt =====
-- The author posts into the third slot; a denied reader does not.
use txtcel_program.Base.{[], ◌∷◌, List}
use txtcel_program.Runtime.{AccountInfo, Bank, Pubkey}
use txtcel_program.State.Constants
use txtcel_program.State.Accounts.{CandidateSlot}
use txtcel_program.State.Pda.{derive_content_pda, derive_treasury_shard_pda, derive_author_fee_pda}
use txtcel_program.Processor.FillSlot.{Post, process_fill_slot}
use txtcel_program.Processor.FillSlot.Posted.{Posted}
use txtcel_program.Tests.World.{world}
use txtcel_program.Tests.Scene.{
  program, author, thread_key, settings_key, gate_key, entry_key, signer, writable, scene, bank_of,
}

abbrev content_key : Pubkey
content_key = (derive_content_pda world program thread_key 0 2).0

abbrev treasury_key : Pubkey
treasury_key = (derive_treasury_shard_pda world program 5).0

abbrev fees_key : Pubkey
fees_key = (derive_author_fee_pda world program thread_key 1).0

abbrev post : Post
post = record {
  kind = 0;
  body = 104 ∷ 101 ∷ [];
  reply_alloc_seq = 0;
  reply_slot = 0;
  max_fee = 1000000;
}

abbrev slots : List CandidateSlot
slots = record { alloc_seq = 0; slot = 2 } ∷ []

abbrev remaining : List AccountInfo
remaining = writable content_key ∷ writable gate_key ∷ writable (entry_key author) ∷ []

abbrev for_post : List AccountInfo
for_post =
    signer author
    ∷ writable thread_key
    ∷ writable settings_key
    ∷ writable treasury_key
    ∷ writable fees_key
    ∷ writable 0
    ∷ remaining

abbrev after_post : Bank
after_post = bank_of (process_fill_slot world program for_post post slots 5 1 scene)
