-- ===== src/State/Access.antt =====
-- The access-control mutations (src/state/loaders.rs): entries and the whitelist counter.
pub mod Counter
pub mod Entry
pub mod Gate
pub mod Applied
pub mod Removed
use txtcel_program.Base.{
  ℕ, ◌%◌, ◌==◌, if◌then◌else◌, not, Bool, true, false, Option, none, some, [], ◌∷◌, u32_mod,
}
use txtcel_program.Base.Int.{ℤ, pos, ◌-ℤ◌, pos_part, saturating_add_i64}
use txtcel_program.Error.{access_list_missing}
use txtcel_program.Runtime.{Pubkey, AccountInfo, Runtime}
use txtcel_program.Runtime.Check.{gets}
use txtcel_program.Runtime.Tx.{Tx, check, pure, fail_if, serialize, when, ◌>>=◌, ◌>>◌}
use txtcel_program.State.Constants.{tag_access_entry, access_allowed, acl_seed}
use txtcel_program.State.Accounts.{access_entry_size}
use txtcel_program.State.Codecs.{thread_access_codec, access_entry_codec}
use txtcel_program.State.Pda.{key_bytes, derive_access_entry_pda}
use txtcel_program.State.Asserts.{
  assert_writable, assert_pda, assert_system_program, is_uninitialized,
}
use txtcel_program.State.AccountUtils.{create_pda_account, close_program_account}
use txtcel_program.State.Loaders.{load_thread_access, load_bound_access_entry, load_admin_access}

-- `(count as i64).saturating_add(delta).max(0) as u32`
abbrev pub adjusted_count : ℕ → ℤ → ℕ
adjusted_count count delta = pos_part (saturating_add_i64 (pos count) delta) % u32_mod

-- `i64::from(now_allowed) - i64::from(was_allowed)`
abbrev pub count_of_bool : Bool → ℕ
count_of_bool true = 1
count_of_bool false = 0

-- `prev == Some(ACCESS_ALLOWED)`
abbrev pub was_allowed : Option ℕ → Bool
was_allowed none = false
was_allowed (some status) = status == access_allowed

-- `delta != 0`
abbrev pub is_zero : ℤ → Bool
is_zero (pos n) = n == 0
is_zero _ = false

module _ (R : Runtime) where
  unfoldable pub create_access_entry :
      Pubkey → AccountInfo → AccountInfo → AccountInfo → Pubkey → Pubkey → ℕ → ℕ → Tx (Option ℕ)
  unfolding create_pda_account serialize
  create_access_entry program_id payer entry_account system_program_account thread wallet status
        entry_bump =
      do
        create_pda_account R program_id payer entry_account system_program_account access_entry_size
            (acl_seed ∷ key_bytes thread ∷ key_bytes wallet ∷ (entry_bump ∷ []) ∷ [])
        serialize (access_entry_codec R.borsh)
            (record { tag = tag_access_entry; thread = thread; wallet = wallet; status = status })
            entry_account
        pure none

  unfoldable pub flip_access_entry : Pubkey → AccountInfo → Pubkey → Pubkey → ℕ → Tx (Option ℕ)
  unfolding load_bound_access_entry serialize
  flip_access_entry program_id entry_account thread wallet status = do
    entry ← check (load_bound_access_entry R program_id entry_account thread wallet)
    serialize (access_entry_codec R.borsh) (record entry { status = status }) entry_account
    pure (some entry.status)

  unfoldable pub set_access_entry_status :
      Pubkey → AccountInfo → AccountInfo → AccountInfo → Pubkey → Pubkey → ℕ → Tx (Option ℕ)
  unfolding create_access_entry flip_access_entry assert_pda is_uninitialized
  set_access_entry_status program_id payer entry_account system_program_account thread wallet
        status =
      do
        let (expected_entry, entry_bump) = derive_access_entry_pda R program_id thread wallet
        check (assert_pda entry_account expected_entry)
        fresh ← check (gets (is_uninitialized R entry_account))
        if fresh
            then create_access_entry program_id payer entry_account system_program_account thread
                wallet status entry_bump
            else flip_access_entry program_id entry_account thread wallet status

  unfoldable pub adjust_whitelist_count : AccountInfo → ℤ → Tx (Unit {0})
  unfolding load_thread_access serialize
  adjust_whitelist_count access_account delta = do
    access ← check (load_thread_access R access_account)
    serialize (thread_access_codec R.borsh)
        (record access { whitelist_count = adjusted_count access.whitelist_count delta })
        access_account

  unfoldable pub close_access_entry :
      Pubkey → AccountInfo → AccountInfo → Pubkey → Pubkey → ℕ → Tx (Unit {0})
  unfolding assert_pda is_uninitialized load_bound_access_entry close_program_account
  close_access_entry program_id recipient entry_account thread wallet expected_status = do
    let expected_entry = (derive_access_entry_pda R program_id thread wallet).0
    check (assert_pda entry_account expected_entry)
    fresh ← check (gets (is_uninitialized R entry_account))
    fail_if fresh access_list_missing
    entry ← check (load_bound_access_entry R program_id entry_account thread wallet)
    fail_if (not (entry.status == expected_status)) access_list_missing
    close_program_account R entry_account recipient

  unfoldable pub apply_access_entry_status :
      Pubkey → AccountInfo → AccountInfo → AccountInfo → AccountInfo → Pubkey → ℕ → Tx (Unit {0})
  unfolding assert_system_program assert_writable load_admin_access set_access_entry_status
      adjust_whitelist_count
  apply_access_entry_status program_id authority access_account entry_account system_program_account
        wallet status =
      do
        check (assert_system_program R system_program_account)
        check (assert_writable authority)
        check (assert_writable entry_account)
        access ← check (load_admin_access R program_id authority access_account)
        prev ←
            set_access_entry_status program_id authority entry_account system_program_account
              access.thread wallet status
        let now_allowed = status == access_allowed
        let delta = pos (count_of_bool now_allowed) -ℤ pos (count_of_bool (was_allowed prev))
        when (not (is_zero delta)) (adjust_whitelist_count access_account delta)

  unfoldable pub remove_access_entry :
      Pubkey → AccountInfo → AccountInfo → AccountInfo → Pubkey → ℕ → Tx (Unit {0})
  unfolding assert_writable load_admin_access close_access_entry adjust_whitelist_count
  remove_access_entry program_id authority access_account entry_account wallet expected_status = do
    check (assert_writable authority)
    check (assert_writable entry_account)
    access ← check (load_admin_access R program_id authority access_account)
    close_access_entry program_id authority entry_account access.thread wallet expected_status
    when (expected_status == access_allowed)
        (adjust_whitelist_count access_account (pos 0 -ℤ pos 1))
