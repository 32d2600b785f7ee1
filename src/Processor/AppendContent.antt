-- ===== src/Processor/AppendContent.antt =====
-- Growing a message within its window (src/processor/append_content.rs).
pub mod Appended
use txtcel_program.Base.{
  ℕ, ◌+◌, ◌-◌, ◌==◌, ltb, not, List, [], ◌∷◌, ◌++◌, length, to_le_bytes, Option, none, some,
  checked_sub_i64,
}
use txtcel_program.Base.Int.{ℤ, pos, ltb_ℤ}
use txtcel_program.Error.{
  thread_mismatch, unauthorized, append_window_expired, text_too_long, panicked,
}
use txtcel_program.Borsh.{Bytes}
use txtcel_program.Runtime.{Pubkey, AccountInfo, Runtime}
use txtcel_program.Runtime.Check.{Check, pure, gets, lift, raise}
use txtcel_program.Runtime.Tx.{
  Tx, check, run, fail_if, when, next_account_info, serialize, ◌>>=◌, ◌>>◌,
}
use txtcel_program.State.Constants.{max_body_len, treasury_shard_seed}
use txtcel_program.State.Asserts.{assert_signer, assert_writable, assert_owned_by}
use txtcel_program.State.Fees.{
  assert_fee_shard_accounts, validate_fee_shards, ensure_shard_initialized, collect_base_fee,
}
use txtcel_program.State.Loaders.{load_thread, load_settings}
use txtcel_program.Content.{load_content}
use txtcel_program.Content.Node.{content_node_size, content_node_codec}

abbrev pub append_window_secs : ℤ
append_window_secs = pos 120

-- Overflow is trapped in the release profile.
abbrev pub or_panic : {A : Type 0} → Option A → Check A
or_panic none = raise panicked
or_panic (some a) = pure a

module _ (R : Runtime) (program_id : Pubkey) (accounts : List AccountInfo) where
  unfoldable pub process_append_content : Bytes → ℕ → ℕ → Tx (Unit {0})
  unfolding assert_signer assert_writable assert_owned_by assert_fee_shard_accounts load_thread
      load_settings validate_fee_shards load_content ensure_shard_initialized collect_base_fee
      serialize
  process_append_content chunk treasury_shard_idx author_fee_shard_idx = do
    (payer, r1) ← next_account_info accounts
    (content_account, r2) ← next_account_info r1
    (thread_account, r3) ← next_account_info r2
    (settings_account, r4) ← next_account_info r3
    (treasury_shard, r5) ← next_account_info r4
    (author_fee_shard, r6) ← next_account_info r5
    (system_program_account, r7) ← next_account_info r6
    check (assert_signer payer)
    check (assert_writable content_account)
    check (assert_owned_by content_account program_id)
    check (assert_fee_shard_accounts R treasury_shard author_fee_shard system_program_account)
    thread ← check (load_thread R program_id thread_account)
    settings ← check (load_settings R program_id settings_account)
    let thread_key = thread_account.key
    (treasury_shard_bump, author_fee_shard_bump) ← check (
        validate_fee_shards R program_id treasury_shard author_fee_shard thread_key
          treasury_shard_idx author_fee_shard_idx)
    content ← check (load_content R program_id content_account)
    fail_if (not (content.header.thread == thread_key)) thread_mismatch
    fail_if (not (content.header.author == payer.key)) unauthorized
    now ← check (lift R.unix_timestamp)
    age ← check (or_panic (checked_sub_i64 now content.header.created_at))
    fail_if (ltb_ℤ append_window_secs age) append_window_expired
    let new_body_len = length content.body + length chunk
    fail_if (ltb max_body_len new_body_len) text_too_long
    let old_size = content_node_size (length content.body)
    let body = content.body ++ chunk
    let new_size = content_node_size (length body)
    run (R.resize content_account new_size)
    rent ← check (lift R.rent)
    let required = rent new_size
    current ← check (gets (λ b. (b content_account.key).lamports))
    when (ltb current required) (run (R.transfer payer content_account (required - current)))
    let rent_delta = rent new_size - rent old_size
    when (ltb 0 rent_delta) (do
      ensure_shard_initialized R program_id payer treasury_shard system_program_account
          (treasury_shard_seed ∷ to_le_bytes 2 treasury_shard_idx ∷ []) treasury_shard_bump
      collect_base_fee R rent_delta settings.base_fee_bps payer treasury_shard)
    serialize (content_node_codec R.borsh) (record content { body = body }) content_account
