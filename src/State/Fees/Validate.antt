-- ===== src/State/Fees/Validate.antt =====
-- The checks of the fee shards (src/state/fees.rs).
use txtcel_program.Base.{ℕ, leb}
use txtcel_program.Error.{invalid_shard}
use txtcel_program.Runtime.{Pubkey, AccountInfo, Runtime}
use txtcel_program.Runtime.Check.{Check, pure, fail_if, ◌>>=◌, ◌>>◌}
use txtcel_program.State.Constants.{n_treasury_shards, n_author_fee_shards}
use txtcel_program.State.Pda.{derive_treasury_shard_pda, derive_author_fee_pda}
use txtcel_program.State.Asserts.{assert_writable, assert_system_program, assert_pda}

module _ (R : Runtime) where
  unfoldable pub validate_treasury_shard : Pubkey → AccountInfo → ℕ → Check ℕ
  unfolding assert_pda
  validate_treasury_shard program_id shard_account shard_idx = do
    fail_if (leb n_treasury_shards shard_idx) invalid_shard
    let (expected, bump) = derive_treasury_shard_pda R program_id shard_idx
    assert_pda shard_account expected
    pure bump

  unfoldable pub validate_author_fee_shard : Pubkey → Pubkey → AccountInfo → ℕ → Check ℕ
  unfolding assert_pda
  validate_author_fee_shard program_id thread shard_account shard_idx = do
    fail_if (leb n_author_fee_shards shard_idx) invalid_shard
    let (expected, bump) = derive_author_fee_pda R program_id thread shard_idx
    assert_pda shard_account expected
    pure bump

  unfoldable pub assert_fee_shard_accounts :
      AccountInfo → AccountInfo → AccountInfo → Check (Unit {0})
  unfolding assert_writable assert_system_program
  assert_fee_shard_accounts treasury_shard author_fee_shard system_program_account = do
    assert_writable treasury_shard
    assert_writable author_fee_shard
    assert_system_program R system_program_account

  unfoldable pub validate_fee_shards :
      Pubkey → AccountInfo → AccountInfo → Pubkey → ℕ → ℕ → Check (ℕ × ℕ)
  unfolding validate_treasury_shard validate_author_fee_shard
  validate_fee_shards program_id treasury_shard author_fee_shard thread_key treasury_shard_idx
        author_fee_shard_idx =
      do
        treasury_shard_bump ← validate_treasury_shard program_id treasury_shard treasury_shard_idx
        author_fee_shard_bump ←
            validate_author_fee_shard program_id thread_key author_fee_shard author_fee_shard_idx
        pure (treasury_shard_bump, author_fee_shard_bump)
