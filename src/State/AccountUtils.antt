-- ===== src/State/AccountUtils.antt =====
-- The account lifecycle: rent top-ups, creation and closing (src/state/account_utils.rs).
pub mod Effects
pub mod Closing
use txtcel_program.Base.{
  ℕ, ◌-◌, ◌==◌, if◌then◌else◌, ltb, [], ◌∷◌, length, replicate, checked_add, u64_mod,
}
use txtcel_program.Error.{invalid_account_data}
use txtcel_program.Runtime.{Pubkey, AccountInfo, set_lamports, set_bytes, set_owner, Seeds, Runtime}
use txtcel_program.Runtime.Check
use txtcel_program.Runtime.Check.{gets, lift}
use txtcel_program.Runtime.Tx.{Tx, check, run, modify, when, ◌>>=◌, ◌>>◌}
use txtcel_program.State.Asserts.{assert_system_program}

-- `**account.lamports.borrow_mut() = account.lamports().checked_add(n).ok_or(..)?`
unfoldable pub credit : AccountInfo → ℕ → Tx (Unit {0})
credit account n = do
  total ←
      check
        (λ b. Check.or_fail (checked_add u64_mod (b account.key).lamports n) invalid_account_data b)
  modify (λ b. set_lamports b account.key total)

module _ (R : Runtime) where
  unfoldable pub ensure_rent_exempt : AccountInfo → AccountInfo → ℕ → Tx (Unit {0})
  ensure_rent_exempt payer target data_len = do
    rent ← check (lift R.rent)
    let minimum = rent data_len
    current ← check (gets (λ b. (b target.key).lamports))
    when (ltb current minimum) (run (R.transfer payer target (minimum - current)))

  unfoldable pub close_program_account : AccountInfo → AccountInfo → Tx (Unit {0})
  unfolding credit
  close_program_account account recipient = do
    lamports ← check (gets (λ b. (b account.key).lamports))
    credit recipient lamports
    modify (λ b. set_lamports b account.key 0)
    modify (λ b. set_bytes b account.key (replicate (length (b account.key).bytes) 0))
    run (R.resize account 0)
    modify (λ b. set_owner b account.key R.system_id)

  unfoldable pub create_pda_account :
      Pubkey → AccountInfo → AccountInfo → AccountInfo → ℕ → Seeds → Tx (Unit {0})
  unfolding assert_system_program
  create_pda_account program_id payer target system_program_account space signer_seeds = do
    check (assert_system_program R system_program_account)
    rent ← check (lift R.rent)
    let required = rent space
    current ← check (gets (λ b. (b target.key).lamports))
    if current == 0
        then run (R.create_account payer target required space program_id (signer_seeds ∷ []))
        else do
          when (ltb current required) (run (R.transfer payer target (required - current)))
          run (R.allocate target space (signer_seeds ∷ []))
          run (R.assign target program_id (signer_seeds ∷ []))
