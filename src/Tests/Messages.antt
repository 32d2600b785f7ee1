-- ===== src/Tests/Messages.antt =====
-- A message is liked, and its author deletes it with the reset of its counter.
use txtcel_program.Base.{
  refl, [], ◌∷◌, List, replicate, set, to_le_bytes, ◌==◌, if◌then◌else◌, arith,
}
use txtcel_program.Base.Int.{pos}
use txtcel_program.Runtime.{AccountInfo, Bank, Pubkey}
use txtcel_program.Runtime.Tx.{◌>>=◌, serialize}
use txtcel_program.State.Constants.{tag_content, tag_likes}
use txtcel_program.State.Accounts.{AllocLikes}
use txtcel_program.State.Pda.{
  derive_settings_pda, derive_alloc_pda, derive_access_pda, derive_access_entry_pda,
  derive_content_pda, derive_likes_pda, derive_treasury_shard_pda, derive_author_fee_pda,
}
use txtcel_program.State.Codecs.{alloc_likes_codec}
use txtcel_program.State.Asserts.{is_uninitialized, read_tag}
use txtcel_program.State.AccountUtils.{credit, close_program_account}
use txtcel_program.State.Loaders.{load_alloc_likes}
use txtcel_program.Content.{load_content}
use txtcel_program.Content.Node.{ContentNode, content_node_codec, content_header_codec}
use txtcel_program.Processor.LikeContent.{process_like_content}
use txtcel_program.Processor.LikeContent.Liked.{Liked}
use txtcel_program.Processor.CloseAccount.{write_reset, reset_likes, process_close_account}
use txtcel_program.Processor.CloseAccount.Deleted.{Deleted, process_close_account-Deleted}
use txtcel_program.Tests.LittleEndian.{put_le, get_le, put_all, get_all}
use txtcel_program.Tests.World.{world, world_laws}
use txtcel_program.Tests.Scene.{
  program, author, reader, thread_key, settings_key, signer, writable, stored, scene, bank_of,
}

abbrev content_key : Pubkey
content_key = (derive_content_pda world program thread_key 0 2).0

abbrev likes_key : Pubkey
likes_key = (derive_likes_pda world program thread_key 0).0

abbrev message : ContentNode
message = record {
  header = record {
    tag = tag_content;
    alloc_seq = 0;
    slot = 2;
    thread = thread_key;
    author = author;
    created_at = pos 950;
    reply_alloc_seq = 0;
    reply_slot = 0;
  };
  kind = 0;
  body = 104 ∷ 101 ∷ [];
}

abbrev likes : AllocLikes
likes = record { tag = tag_likes; alloc_seq = 0; counts = set (replicate 32 0) 2 7 }

-- The scene with a message that has seven likes.
abbrev posted : Bank
posted key =
    if key == content_key
    then stored ((content_node_codec world.borsh).put message [])
    else if key == likes_key
    then stored ((alloc_likes_codec world.borsh).put likes [])
    else scene key

abbrev treasury_shard : AccountInfo
treasury_shard = writable (derive_treasury_shard_pda world program 5).0

abbrev fee_shard : AccountInfo
fee_shard = writable (derive_author_fee_pda world program thread_key 1).0

abbrev after_like : Bank
after_like = bank_of (
    process_like_content world program
      (signer reader
        ∷ writable likes_key
        ∷ writable content_key
        ∷ writable thread_key
        ∷ writable settings_key
        ∷ treasury_shard
        ∷ fee_shard
        ∷ writable 0
        ∷ [])
      0 2 5 1 1000 posted)

abbrev after_reset : Bank
after_reset = bank_of (write_reset world program (writable likes_key) message posted)

abbrev for_delete : List AccountInfo
for_delete = signer author ∷ writable content_key ∷ writable likes_key ∷ []

abbrev after_delete : Bank
after_delete = bank_of (process_close_account world program for_delete posted)

process_close_account-Deleted_example :
    Deleted world program (signer author) (writable content_key) posted after_delete
unfolding ◌>>=◌ serialize process_close_account load_content reset_likes write_reset
    load_alloc_likes alloc_likes_codec content_node_codec content_header_codec put_le get_le put_all
    get_all derive_content_pda derive_likes_pda to_le_bytes is_uninitialized read_tag
    close_program_account credit derive_settings_pda derive_alloc_pda derive_access_pda
    derive_access_entry_pda
process_close_account-Deleted_example =
    process_close_account-Deleted world_laws program (signer author) (writable content_key)
      (writable likes_key ∷ []) posted after_delete (omega arith) refl
