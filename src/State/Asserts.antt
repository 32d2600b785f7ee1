-- ===== src/State/Asserts.antt =====
-- The account-validation guards (src/state/asserts.rs).
pub mod Facts
use txtcel_program.Base.{
  ℕ, ◌==◌, if◌then◌else◌, ltb, Bool, false, not, ◌&&◌, ◌||◌, [], ◌∷◌, length, take, drop, get_elem?,
  some, none, from_le_bytes, Option,
}
use txtcel_program.Error.{
  missing_signer, not_writable, account_already_initialized, account_owner_mismatch, invalid_pda,
  invalid_account_data, unauthorized, incorrect_program_id,
}
use txtcel_program.Borsh.{Bytes}
use txtcel_program.Runtime.{Pubkey, Bank, AccountInfo, Runtime}
use txtcel_program.Runtime.Check.{Check, pure, fail, fail_if, raise, gets, or_fail, ◌>>=◌, ◌>>◌}
use txtcel_program.State.Pda.{key_bytes}

unfoldable pub assert_signer : AccountInfo → Check (Unit {0})
assert_signer account = if account.is_signer then pure tt else fail missing_signer

unfoldable pub assert_writable : AccountInfo → Check (Unit {0})
assert_writable account = if account.is_writable then pure tt else fail not_writable

unfoldable pub assert_owned_by : AccountInfo → Pubkey → Check (Unit {0})
assert_owned_by account owner b =
    (if (b account.key).owner == owner then pure tt else fail account_owner_mismatch) b

unfoldable pub assert_pda : AccountInfo → Pubkey → Check (Unit {0})
assert_pda account expected = fail_if (not (account.key == expected)) invalid_pda

unfoldable pub read_tag : AccountInfo → Check ℕ
read_tag account b = or_fail (get_elem? (b account.key).bytes 0) invalid_account_data b

abbrev is_byte : ℕ → Option ℕ → Bool
is_byte n none = false
is_byte n (some d) = d == n

-- `data.len() < 45 || data[12] != 1`
unfoldable pub lacks_authority : Bytes → Bool
lacks_authority bytes = ltb (length bytes) 45 || not (is_byte 1 (get_elem? bytes 12))

module _ (R : Runtime) where
  unfoldable pub is_uninitialized : AccountInfo → Bank → Bool
  is_uninitialized account b =
      ((b account.key).owner == R.system_id) && (length (b account.key).bytes == 0)

  unfoldable pub assert_uninitialized : AccountInfo → Check (Unit {0})
  unfolding is_uninitialized
  assert_uninitialized account b =
      (if ((b account.key).owner == R.system_id) && (length (b account.key).bytes == 0)
          then pure tt
          else fail account_already_initialized)
        b

  unfoldable pub assert_system_program : AccountInfo → Check (Unit {0})
  assert_system_program account =
      if account.key == R.system_id then pure tt else raise incorrect_program_id

  -- The upgrade authority stands in bytes 13 to 44 of the program's data account.
  unfoldable pub assert_upgrade_authority : Pubkey → AccountInfo → AccountInfo → Check (Unit {0})
  unfolding lacks_authority assert_pda assert_owned_by from_le_bytes
  assert_upgrade_authority program_id programdata_account authority = do
    let expected = (R.find_program_address (key_bytes program_id ∷ []) R.loader_id).0
    assert_pda programdata_account expected
    assert_owned_by programdata_account R.loader_id
    bytes ← gets (λ b. (b programdata_account.key).bytes)
    fail_if (lacks_authority bytes) unauthorized
    let upgrade_authority = from_le_bytes (take 32 (drop 13 bytes))
    fail_if (not (authority.key == upgrade_authority)) unauthorized
