-- ===== src/Processor/LikeContent.antt =====
-- Liking a message (src/processor/like_content.rs).
pub mod Counts
pub mod Views
pub mod Liked
use txtcel_program.Base.{
  ℕ, ◌==◌, ltb, leb, not, ◌&&◌, Option, none, some, List, [], ◌∷◌, get_elem?, set, replicate,
  to_le_bytes, saturating_add, u32_mod,
}
use txtcel_program.Error.{invalid_slot, fee_exceeds_max, panicked}
use txtcel_program.Runtime.{Pubkey, AccountInfo, Runtime}
use txtcel_program.Runtime.Check.{Check, pure, gets, raise}
use txtcel_program.Runtime.Tx.{Tx, check, fail_if, when, next_account_info, serialize, ◌>>=◌, ◌>>◌}
use txtcel_program.State.Constants.{tag_likes, content_slots, likes_seed}
use txtcel_program.State.Accounts.{alloc_likes_size}
use txtcel_program.State.Codecs.{alloc_likes_codec}
use txtcel_program.State.Pda.{key_bytes, derive_content_pda, derive_likes_pda}
use txtcel_program.State.Asserts.{
  assert_signer, assert_writable, assert_owned_by, assert_pda, is_uninitialized,
}
use txtcel_program.State.AccountUtils.{create_pda_account}
use txtcel_program.State.Fees.{assert_fee_shard_accounts, prepare_fee_shards, transfer_fee_split}
use txtcel_program.State.Loaders.{load_thread, load_settings, load_alloc_likes}
use txtcel_program.Content.{load_content}

-- `counts[i] = counts[i].saturating_add(1)`, which aborts out of range.
abbrev pub bump_count : List ℕ → ℕ → Check (List ℕ)
bump_count counts i = bumped (get_elem? counts i)
  where
    bumped : Option ℕ → Check (List ℕ)
    bumped none = raise panicked
    bumped (some n) = pure (set counts i (saturating_add u32_mod n 1))

module _ (R : Runtime) (program_id : Pubkey) where
  unfoldable pub create_likes :
      AccountInfo → AccountInfo → AccountInfo → Pubkey → ℕ → ℕ → Tx (Unit {0})
  unfolding create_pda_account serialize
  create_likes payer likes_account system_program_account thread_key alloc_seq likes_bump = do
    create_pda_account R program_id payer likes_account system_program_account alloc_likes_size
        (likes_seed ∷ key_bytes thread_key ∷ to_le_bytes 4 alloc_seq ∷ (likes_bump ∷ []) ∷ [])
    serialize (alloc_likes_codec R.borsh)
        (record { tag = tag_likes; alloc_seq = alloc_seq; counts = replicate content_slots 0 })
        likes_account

  unfoldable pub record_like : AccountInfo → ℕ → Tx (Unit {0})
  unfolding assert_owned_by load_alloc_likes serialize
  record_like likes_account slot = do
    check (assert_owned_by likes_account program_id)
    likes ← check (load_alloc_likes R likes_account)
    counts ← check (bump_count likes.counts slot)
    serialize (alloc_likes_codec R.borsh) (record likes { counts = counts }) likes_account

  unfoldable pub process_like_content : List AccountInfo → ℕ → ℕ → ℕ → ℕ → ℕ → Tx (Unit {0})
  unfolding assert_signer assert_writable assert_fee_shard_accounts load_content assert_pda
      load_thread load_settings prepare_fee_shards is_uninitialized create_likes record_like
      transfer_fee_split
  process_like_content accounts alloc_seq slot treasury_shard_idx author_fee_shard_idx max_fee = do
    fail_if (leb content_slots slot) invalid_slot
    (payer, r1) ← next_account_info accounts
    (likes_account, r2) ← next_account_info r1
    (content_account, r3) ← next_account_info r2
    (thread_account, r4) ← next_account_info r3
    (settings_account, r5) ← next_account_info r4
    (treasury_shard, r6) ← next_account_info r5
    (author_fee_shard, r7) ← next_account_info r6
    (system_program_account, r8) ← next_account_info r7
    check (assert_signer payer)
    check (assert_writable likes_account)
    check (assert_fee_shard_accounts R treasury_shard author_fee_shard system_program_account)
    let thread_key = thread_account.key
    content ← check (load_content R program_id content_account)
    check (assert_pda content_account (derive_content_pda R program_id thread_key alloc_seq slot).0)
    thread ← check (load_thread R program_id thread_account)
    settings ← check (load_settings R program_id settings_account)
    prepare_fee_shards R program_id payer treasury_shard author_fee_shard system_program_account
        thread_key treasury_shard_idx author_fee_shard_idx
    let (expected_likes, likes_bump) = derive_likes_pda R program_id thread_key alloc_seq
    check (assert_pda likes_account expected_likes)
    fresh ← check (gets (is_uninitialized R likes_account))
    when fresh
        (create_likes payer likes_account system_program_account thread_key alloc_seq likes_bump)
    record_like likes_account slot
    when (ltb 0 thread.like_fee && not (payer.key == content.header.author)) (do
      fail_if (ltb max_fee thread.like_fee) fee_exceeds_max
      transfer_fee_split R thread.like_fee settings.like_cut_bps payer author_fee_shard
          treasury_shard)
