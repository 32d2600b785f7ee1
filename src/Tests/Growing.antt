-- ===== src/Tests/Growing.antt =====
-- A message grows within its window.
use txtcel_program.Base.{refl, [], ◌∷◌, ◌==◌, if◌then◌else◌, to_le_bytes, arith}
use txtcel_program.Base.Int.{pos}
use txtcel_program.Runtime.{AccountInfo, Bank, Pubkey}
use txtcel_program.Runtime.Tx.{◌>>=◌, serialize}
use txtcel_program.State.Constants.{tag_content}
use txtcel_program.State.Pda.{
  derive_settings_pda, derive_treasury_shard_pda, derive_author_fee_pda, derive_alloc_pda,
  derive_access_pda, derive_access_entry_pda, derive_content_pda,
}
use txtcel_program.State.Codecs.{program_settings_codec, thread_node_codec}
use txtcel_program.State.Asserts.{is_uninitialized}
use txtcel_program.State.Loaders.{load_settings, load_thread}
use txtcel_program.Content.{load_content}
use txtcel_program.Content.Node.{
  ContentNode, content_node_size, content_node_codec, content_header_codec,
}
use txtcel_program.Processor.AppendContent.{process_append_content}
use txtcel_program.Processor.AppendContent.Appended.{Appended, process_append_content-Appended}
use txtcel_program.Tests.LittleEndian.{put_le, get_le, put_all, get_all}
use txtcel_program.Tests.World.{world, world_laws}
use txtcel_program.Tests.Scene.{
  program, author, thread_key, settings_key, signer, writable, stored, scene, bank_of,
}

abbrev content_key : Pubkey
content_key = (derive_content_pda world program thread_key 0 2).0

abbrev treasury_shard : AccountInfo
treasury_shard = writable (derive_treasury_shard_pda world program 5).0

abbrev author_shard : AccountInfo
author_shard = writable (derive_author_fee_pda world program thread_key 1).0

abbrev message : ContentNode
message = record {
  header = record {
    tag = tag_content;
    alloc_seq = 0;
    slot = 2;
    thread = thread_key;
    author = author;
    created_at = pos 950;
    reply_alloc_seq = 0;
    reply_slot = 0;
  };
  kind = 0;
  body = 104 ∷ 101 ∷ [];
}

-- The scene with a message of two bytes and one shard of each kind.
abbrev posted : Bank
posted key =
    if key == content_key
    then stored ((content_node_codec world.borsh).put message [])
    else if key == treasury_shard.key
    then stored []
    else if key == author_shard.key
    then stored []
    else scene key

abbrev after_append : Bank
after_append = bank_of (
    process_append_content world program
      (signer author
        ∷ writable content_key
        ∷ writable thread_key
        ∷ writable settings_key
        ∷ treasury_shard
        ∷ author_shard
        ∷ writable 0
        ∷ [])
      (108 ∷ []) 5 1 posted)

process_append_content-Appended_example :
    Appended world program
      (signer author)
      (writable content_key)
      (pos 1000)
      (108 ∷ [])
      posted
      after_append
unfolding ◌>>=◌ process_append_content serialize load_settings load_thread load_content
    program_settings_codec thread_node_codec content_node_codec content_header_codec put_le get_le
    put_all get_all derive_settings_pda derive_treasury_shard_pda derive_author_fee_pda
    derive_alloc_pda derive_access_pda derive_access_entry_pda derive_content_pda to_le_bytes
    is_uninitialized content_node_size
process_append_content-Appended_example =
    process_append_content-Appended world_laws program (signer author) (writable content_key)
      (writable thread_key) (writable settings_key) treasury_shard author_shard (writable 0) []
      (108 ∷ []) 5 1 (pos 1000) posted (omega arith, tt) refl refl (λ q. omega (arith, q))
      after_append refl
