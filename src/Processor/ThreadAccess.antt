-- ===== src/Processor/ThreadAccess.antt =====
-- A thread's gate: creation, the admin's setters, and paid entry (src/processor/init_thread_access.rs,
-- set_thread_access.rs, set_entry_fee.rs, request_access.rs).
pub mod Admin
pub mod Paid
pub mod Gated
use txtcel_program.Base.{ℕ, ◌==◌, not, Bool, true, List, [], ◌∷◌, to_le_bytes}
use txtcel_program.Base.Int.{pos}
use txtcel_program.Error.{
  unauthorized, thread_mismatch, zero_entry_fee, access_denied, access_list_duplicate,
}
use txtcel_program.Runtime.{Pubkey, AccountInfo, Runtime}
use txtcel_program.Runtime.Check.{gets, lift}
use txtcel_program.Runtime.Tx.{Tx, check, fail_if, when, next_account_info, serialize, ◌>>=◌, ◌>>◌}
use txtcel_program.State.Constants
use txtcel_program.State.Constants.{tag_access, access_seed, treasury_shard_seed, access_allowed}
use txtcel_program.State.Accounts.{thread_access_size}
use txtcel_program.State.Codecs.{thread_access_codec}
use txtcel_program.State.Pda.{key_bytes, derive_access_pda, derive_access_entry_pda}
use txtcel_program.State.Asserts.{
  assert_signer, assert_writable, assert_owned_by, assert_system_program, assert_pda,
  assert_uninitialized, is_uninitialized,
}
use txtcel_program.State.AccountUtils.{create_pda_account}
use txtcel_program.State.Fees.{
  validate_treasury_shard, assert_fee_shard_accounts, ensure_shard_initialized,
  collect_fee_to_shard, prepare_fee_shards, transfer_fee_split,
}
use txtcel_program.State.Loaders.{
  load_thread, load_thread_access, load_bound_access_entry, load_admin_access, load_settings,
}
use txtcel_program.State.Access.{set_access_entry_status, adjust_whitelist_count}

module _ (R : Runtime) (program_id : Pubkey) (accounts : List AccountInfo) where
  unfoldable pub process_init_thread_access : Bool → ℕ → Tx (Unit {0})
  unfolding assert_signer assert_writable assert_system_program load_thread assert_pda
      assert_uninitialized validate_treasury_shard ensure_shard_initialized collect_fee_to_shard
      create_pda_account serialize
  process_init_thread_access enabled treasury_shard_idx = do
    (authority, r1) ← next_account_info accounts
    (thread_account, r2) ← next_account_info r1
    (access_account, r3) ← next_account_info r2
    (treasury_shard, r4) ← next_account_info r3
    (system_program_account, r5) ← next_account_info r4
    check (assert_signer authority)
    check (assert_writable access_account)
    check (assert_writable treasury_shard)
    check (assert_system_program R system_program_account)
    thread ← check (load_thread R program_id thread_account)
    let thread_key = thread_account.key
    fail_if (not (thread.author == authority.key)) unauthorized
    let (expected_access, access_bump) = derive_access_pda R program_id thread_key
    check (assert_pda access_account expected_access)
    check (assert_uninitialized R access_account)
    treasury_shard_bump ←
        check (validate_treasury_shard R program_id treasury_shard treasury_shard_idx)
    ensure_shard_initialized R program_id authority treasury_shard system_program_account
        (treasury_shard_seed ∷ to_le_bytes 2 treasury_shard_idx ∷ []) treasury_shard_bump
    rent ← check (lift R.rent)
    let lamports = rent thread_access_size
    collect_fee_to_shard R lamports authority treasury_shard
    create_pda_account R program_id authority access_account system_program_account
        thread_access_size (access_seed ∷ key_bytes thread_key ∷ (access_bump ∷ []) ∷ [])
    serialize (thread_access_codec R.borsh)
        (record {
          tag = tag_access;
          thread = thread_key;
          enabled = enabled;
          admin = authority.key;
          entry_fee = 0;
          whitelist_count = 0;
        })
        access_account

  unfoldable pub process_set_thread_access : Bool → Tx (Unit {0})
  unfolding load_admin_access serialize
  process_set_thread_access enabled = do
    (authority, r1) ← next_account_info accounts
    (access_account, r2) ← next_account_info r1
    access ← check (load_admin_access R program_id authority access_account)
    serialize (thread_access_codec R.borsh) (record access { enabled = enabled }) access_account

  unfoldable pub process_set_entry_fee : ℕ → Tx (Unit {0})
  unfolding load_admin_access serialize
  process_set_entry_fee fee = do
    (authority, r1) ← next_account_info accounts
    (access_account, r2) ← next_account_info r1
    access ← check (load_admin_access R program_id authority access_account)
    serialize (thread_access_codec R.borsh) (record access { entry_fee = fee }) access_account

  -- An entry that exists ends the request: a denied wallet, or a member already.
  unfoldable pub reject_existing_entry : AccountInfo → Pubkey → Pubkey → Tx (Unit {0})
  unfolding load_bound_access_entry
  reject_existing_entry entry_account thread_key payer_key = do
    entry ← check (load_bound_access_entry R program_id entry_account thread_key payer_key)
    fail_if (entry.status == Constants.access_denied) access_denied
    fail_if true access_list_duplicate

  unfoldable pub process_request_access : ℕ → ℕ → Tx (Unit {0})
  unfolding assert_signer assert_writable assert_fee_shard_accounts assert_owned_by assert_pda
      load_thread_access load_thread is_uninitialized reject_existing_entry load_settings
      prepare_fee_shards transfer_fee_split set_access_entry_status adjust_whitelist_count
  process_request_access treasury_shard_idx author_fee_shard_idx = do
    (payer, r1) ← next_account_info accounts
    (access_account, r2) ← next_account_info r1
    (entry_account, r3) ← next_account_info r2
    (thread_account, r4) ← next_account_info r3
    (settings_account, r5) ← next_account_info r4
    (treasury_shard, r6) ← next_account_info r5
    (author_fee_shard, r7) ← next_account_info r6
    (system_program_account, r8) ← next_account_info r7
    check (assert_signer payer)
    check (assert_writable payer)
    check (assert_writable access_account)
    check (assert_writable entry_account)
    check (assert_fee_shard_accounts R treasury_shard author_fee_shard system_program_account)
    check (assert_owned_by access_account program_id)
    let thread_key = thread_account.key
    let expected_access = (derive_access_pda R program_id thread_key).0
    check (assert_pda access_account expected_access)
    access ← check (load_thread_access R access_account)
    fail_if (not (access.thread == thread_key)) thread_mismatch
    fail_if (access.entry_fee == 0) zero_entry_fee
    thread ← check (load_thread R program_id thread_account)
    let expected_entry = (derive_access_entry_pda R program_id thread_key payer.key).0
    check (assert_pda entry_account expected_entry)
    fresh ← check (gets (is_uninitialized R entry_account))
    when (not fresh) (reject_existing_entry entry_account thread_key payer.key)
    settings ← check (load_settings R program_id settings_account)
    prepare_fee_shards R program_id payer treasury_shard author_fee_shard system_program_account
        thread_key treasury_shard_idx author_fee_shard_idx
    transfer_fee_split R access.entry_fee settings.entry_cut_bps payer author_fee_shard
        treasury_shard
    prev ←
        set_access_entry_status R program_id payer entry_account system_program_account thread_key
          payer.key access_allowed
    adjust_whitelist_count R access_account (pos 1)
