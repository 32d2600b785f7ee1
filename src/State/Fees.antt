-- ===== src/State/Fees.antt =====
-- Fee arithmetic and fee shards (src/state/fees.rs; the checks are in `Validate`).
mod Validate
pub mod Split
pub mod Payment
pub mod Divided
pub mod Undisturbed
pub mod Ready
pub mod Prepared
unfoldable pub use Validate.{
  validate_treasury_shard, validate_author_fee_shard, assert_fee_shard_accounts,
  validate_fee_shards,
}
use txtcel_program.Base.{
  ℕ, ◌-◌, ◌/◌, ◌%◌, ◌==◌, if◌then◌else◌, ltb, max, [], ◌∷◌, ◌++◌, to_le_bytes, saturating_mul,
  u64_mod, u128_mod,
}
use txtcel_program.Runtime.{Pubkey, AccountInfo, set_lamports, Seeds, Runtime}
use txtcel_program.Runtime.Check.{gets, lift}
use txtcel_program.Runtime.Tx.{Tx, check, run, modify, when, done, ◌>>=◌, ◌>>◌}
use txtcel_program.State.Constants.{treasury_shard_seed, author_fee_seed}
use txtcel_program.State.Pda.{key_bytes}
use txtcel_program.State.Asserts.{is_uninitialized}
use txtcel_program.State.AccountUtils.{credit, create_pda_account}

-- `((amount as u128).saturating_mul(bps as u128) / 10_000) as u64`
abbrev pub bps_part : ℕ → ℕ → ℕ
bps_part amount bps = (saturating_mul u128_mod amount bps / 10000) % u64_mod

unfoldable pub compute_fee_split : ℕ → ℕ → ℕ × ℕ
compute_fee_split amount cut_bps =
    let platform = bps_part amount cut_bps in (amount - platform, platform)

module _ (R : Runtime) where
  unfoldable pub collect_fee_to_shard : ℕ → AccountInfo → AccountInfo → Tx (Unit {0})
  collect_fee_to_shard amount payer shard = if amount == 0 then done else do
    rent ← check (lift R.rent)
    let shard_rent_min = rent 0
    balance ← check (gets (λ b. (b shard.key).lamports))
    let fee = max amount (shard_rent_min - balance)
    when (ltb 0 fee) (run (R.transfer payer shard fee))

  unfoldable pub collect_base_fee : ℕ → ℕ → AccountInfo → AccountInfo → Tx (Unit {0})
  unfolding collect_fee_to_shard
  collect_base_fee rent_lamports base_fee_bps payer treasury_shard =
      collect_fee_to_shard (bps_part rent_lamports base_fee_bps) payer treasury_shard

  unfoldable pub transfer_fee_split :
      ℕ → ℕ → AccountInfo → AccountInfo → AccountInfo → Tx (Unit {0})
  unfolding compute_fee_split collect_fee_to_shard
  transfer_fee_split amount cut_bps payer author_fee_shard treasury_shard = do
    let (author_receives, platform_cut) = compute_fee_split amount cut_bps
    when (ltb 0 platform_cut) (collect_fee_to_shard platform_cut payer treasury_shard)
    when (ltb 0 author_receives) (collect_fee_to_shard author_receives payer author_fee_shard)

  unfoldable pub ensure_shard_initialized :
      Pubkey → AccountInfo → AccountInfo → AccountInfo → Seeds → ℕ → Tx (Unit {0})
  unfolding is_uninitialized create_pda_account
  ensure_shard_initialized program_id payer shard_account system_program_account signer_seeds bump =
      do
        fresh ← check (gets (is_uninitialized R shard_account))
        when fresh (
            create_pda_account R program_id payer shard_account system_program_account 0
              (signer_seeds ++ (bump ∷ []) ∷ []))

  unfoldable pub ensure_fee_shards_initialized :
      Pubkey
      → AccountInfo
      → AccountInfo
      → AccountInfo
      → AccountInfo
      → Pubkey
      → ℕ
      → ℕ
      → ℕ
      → ℕ
      → Tx (Unit {0})
  unfolding ensure_shard_initialized
  ensure_fee_shards_initialized program_id payer treasury_shard author_fee_shard
        system_program_account thread_key treasury_shard_idx author_fee_shard_idx
        treasury_shard_bump author_fee_shard_bump =
      do
        ensure_shard_initialized program_id payer treasury_shard system_program_account
            (treasury_shard_seed ∷ to_le_bytes 2 treasury_shard_idx ∷ []) treasury_shard_bump
        ensure_shard_initialized program_id payer author_fee_shard system_program_account
            (author_fee_seed ∷ key_bytes thread_key ∷ (author_fee_shard_idx ∷ []) ∷ [])
            author_fee_shard_bump

  unfoldable pub prepare_fee_shards :
      Pubkey
      → AccountInfo
      → AccountInfo
      → AccountInfo
      → AccountInfo
      → Pubkey
      → ℕ
      → ℕ
      → Tx (Unit {0})
  unfolding validate_fee_shards ensure_fee_shards_initialized
  prepare_fee_shards program_id payer treasury_shard author_fee_shard system_program_account
        thread_key treasury_shard_idx author_fee_shard_idx =
      do
        (treasury_shard_bump, author_fee_shard_bump) ← check (
            validate_fee_shards R program_id treasury_shard author_fee_shard thread_key
              treasury_shard_idx author_fee_shard_idx)
        ensure_fee_shards_initialized program_id payer treasury_shard author_fee_shard
            system_program_account thread_key treasury_shard_idx author_fee_shard_idx
            treasury_shard_bump author_fee_shard_bump

-- The shard is set before the recipient is credited.
unfoldable pub sweep_shard_excess : AccountInfo → AccountInfo → ℕ → Tx (Unit {0})
unfolding credit
sweep_shard_excess shard_account recipient shard_rent_min = do
  balance ← check (gets (λ b. (b shard_account.key).lamports))
  let excess = balance - shard_rent_min
  when (ltb 0 excess)
      (do modify (λ b. set_lamports b shard_account.key shard_rent_min); credit recipient excess)
