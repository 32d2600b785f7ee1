-- ===== src/State/Asserts/Facts.antt =====
-- What a guard of src/state/asserts.rs that passes has checked.
use txtcel_program.Base.{◌≡◌, true, [], arith}
use txtcel_program.Error.{ok}
use txtcel_program.Runtime.{Pubkey, Bank, AccountInfo, Runtime}
use txtcel_program.State.Asserts.{
  assert_signer, assert_owned_by, assert_pda, is_uninitialized, assert_uninitialized,
}

module _ (account : AccountInfo) (b : Bank) {x : Unit {0}} where
  pub assert_signer_ok : assert_signer account b ≡ ok x → account.is_signer ≡ true
  unfolding assert_signer
  assert_signer_ok e = ground arith

  pub assert_owned_by_ok :
      (owner : Pubkey) → assert_owned_by account owner b ≡ ok x → (b account.key).owner ≡ owner
  unfolding assert_owned_by
  assert_owned_by_ok owner e = ground arith

  pub assert_pda_ok :
      (expected : Pubkey) → assert_pda account expected b ≡ ok x → account.key ≡ expected
  unfolding assert_pda
  assert_pda_ok expected e = ground arith

pub assert_uninitialized_ok :
    (R : Runtime) (account : AccountInfo) (b : Bank) {x : Unit {0}}
    → assert_uninitialized R account b ≡ ok x
    → is_uninitialized R account b ≡ true
unfolding assert_uninitialized
assert_uninitialized_ok R account b e = ground arith

pub is_uninitialized-owner :
    (R : Runtime) (account : AccountInfo) (b : Bank)
    → is_uninitialized R account b ≡ true
    → (b account.key).owner ≡ R.system_id
unfolding is_uninitialized
is_uninitialized-owner R account b e = ground arith

pub is_uninitialized-bytes :
    (R : Runtime) (account : AccountInfo) (b : Bank)
    → is_uninitialized R account b ≡ true
    → (b account.key).bytes ≡ []
unfolding is_uninitialized
is_uninitialized-bytes R account b e = ground arith
