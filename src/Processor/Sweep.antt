-- ===== src/Processor/Sweep.antt =====
-- Moving the excess of fee shards to the treasury or the author (src/processor/sweep_treasury.rs,
-- sweep_author_fees.rs).
pub mod Floor
use txtcel_program.Base.{ℕ, ◌==◌, if◌then◌else◌, not, List, [], ◌∷◌, length}
use txtcel_program.Error.{invalid_author, invalid_treasury, nothing_to_sweep, invalid_shard}
use txtcel_program.Runtime.{Pubkey, AccountInfo, Runtime}
use txtcel_program.Runtime.Check.{Check, gets, lift}
use txtcel_program.Runtime.Tx.{Tx, check, fail_if, done, next_account_info, ◌>>=◌, ◌>>◌}
use txtcel_program.State.Asserts.{assert_signer, assert_writable, assert_owned_by, is_uninitialized}
use txtcel_program.State.Fees.{
  validate_treasury_shard, validate_author_fee_shard, sweep_shard_excess,
}
use txtcel_program.State.Loaders.{load_thread, load_settings}

module _ (R : Runtime) (program_id : Pubkey) where
  -- The loop of both sweeps, over the accounts paired with their indices; `validate` is the check
  -- of the shard's address, and `none` of what is uninitialised is touched.
  unfoldable pub sweep_shards :
      (AccountInfo → ℕ → Check ℕ) → AccountInfo → ℕ → List AccountInfo → List ℕ → Tx (Unit {0})
  unfolding is_uninitialized assert_writable assert_owned_by sweep_shard_excess
  sweep_shards validate recipient shard_rent_min [] indices = done
  sweep_shards validate recipient shard_rent_min (shard_account ∷ accounts) [] = done
  sweep_shards validate recipient shard_rent_min (shard_account ∷ accounts) (idx ∷ indices) = do
    fresh ← check (gets (is_uninitialized R shard_account))
    (if fresh then done else do
      check (assert_writable shard_account)
      check (assert_owned_by shard_account program_id)
      bump ← check (validate shard_account idx)
      sweep_shard_excess shard_account recipient shard_rent_min)
    sweep_shards validate recipient shard_rent_min accounts indices

  unfoldable pub process_sweep_treasury : List AccountInfo → List ℕ → Tx (Unit {0})
  unfolding load_settings assert_writable validate_treasury_shard sweep_shards
  process_sweep_treasury accounts shard_indices = do
    (settings_account, r1) ← next_account_info accounts
    (treasury_wallet, remaining) ← next_account_info r1
    settings ← check (load_settings R program_id settings_account)
    fail_if (not (treasury_wallet.key == settings.treasury)) invalid_treasury
    check (assert_writable treasury_wallet)
    rent ← check (lift R.rent)
    fail_if (length remaining == 0) nothing_to_sweep
    fail_if (not (length remaining == length shard_indices)) invalid_shard
    sweep_shards (validate_treasury_shard R program_id) treasury_wallet (rent 0) remaining
        shard_indices

  unfoldable pub process_sweep_author_fees : List AccountInfo → List ℕ → Tx (Unit {0})
  unfolding load_thread assert_signer assert_writable validate_author_fee_shard sweep_shards
  process_sweep_author_fees accounts shard_indices = do
    (thread_account, r1) ← next_account_info accounts
    (author_wallet, remaining) ← next_account_info r1
    thread ← check (load_thread R program_id thread_account)
    fail_if (not (author_wallet.key == thread.author)) invalid_author
    check (assert_signer author_wallet)
    check (assert_writable author_wallet)
    rent ← check (lift R.rent)
    let thread_key = thread_account.key
    fail_if (length remaining == 0) nothing_to_sweep
    fail_if (not (length remaining == length shard_indices)) invalid_shard
    sweep_shards (validate_author_fee_shard R program_id thread_key) author_wallet (rent 0)
        remaining shard_indices
