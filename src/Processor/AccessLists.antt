-- ===== src/Processor/AccessLists.antt =====
-- The access-list setters (src/processor/add_to_*.rs, remove_from_*.rs).
pub mod Setters
use txtcel_program.Base.{List}
use txtcel_program.Runtime.{Pubkey, AccountInfo, Runtime}
use txtcel_program.Runtime.Tx.{Tx, next_account_info, ◌>>=◌}
use txtcel_program.State.Constants.{access_allowed, access_denied, access_fee_exempt}
use txtcel_program.State.Access.{apply_access_entry_status, remove_access_entry}

module _ (R : Runtime) (program_id : Pubkey) (accounts : List AccountInfo) where
  unfoldable pub process_add_to_blacklist : Pubkey → Tx (Unit {0})
  unfolding apply_access_entry_status
  process_add_to_blacklist wallet = do
    (authority, r1) ← next_account_info accounts
    (access_account, r2) ← next_account_info r1
    (entry_account, r3) ← next_account_info r2
    (system_program_account, r4) ← next_account_info r3
    apply_access_entry_status R program_id authority access_account entry_account
        system_program_account wallet access_denied

  unfoldable pub process_remove_from_blacklist : Pubkey → Tx (Unit {0})
  unfolding remove_access_entry
  process_remove_from_blacklist wallet = do
    (authority, r1) ← next_account_info accounts
    (access_account, r2) ← next_account_info r1
    (entry_account, r3) ← next_account_info r2
    (system_program_account, r4) ← next_account_info r3
    remove_access_entry R program_id authority access_account entry_account wallet access_denied

  unfoldable pub process_add_to_whitelist : Pubkey → Tx (Unit {0})
  unfolding apply_access_entry_status
  process_add_to_whitelist wallet = do
    (authority, r1) ← next_account_info accounts
    (access_account, r2) ← next_account_info r1
    (entry_account, r3) ← next_account_info r2
    (system_program_account, r4) ← next_account_info r3
    apply_access_entry_status R program_id authority access_account entry_account
        system_program_account wallet access_allowed

  unfoldable pub process_remove_from_whitelist : Pubkey → Tx (Unit {0})
  unfolding remove_access_entry
  process_remove_from_whitelist wallet = do
    (authority, r1) ← next_account_info accounts
    (access_account, r2) ← next_account_info r1
    (entry_account, r3) ← next_account_info r2
    (system_program_account, r4) ← next_account_info r3
    remove_access_entry R program_id authority access_account entry_account wallet access_allowed

  unfoldable pub process_add_to_fee_whitelist : Pubkey → Tx (Unit {0})
  unfolding apply_access_entry_status
  process_add_to_fee_whitelist wallet = do
    (authority, r1) ← next_account_info accounts
    (access_account, r2) ← next_account_info r1
    (entry_account, r3) ← next_account_info r2
    (system_program_account, r4) ← next_account_info r3
    apply_access_entry_status R program_id authority access_account entry_account
        system_program_account wallet access_fee_exempt

  unfoldable pub process_remove_from_fee_whitelist : Pubkey → Tx (Unit {0})
  unfolding remove_access_entry
  process_remove_from_fee_whitelist wallet = do
    (authority, r1) ← next_account_info accounts
    (access_account, r2) ← next_account_info r1
    (entry_account, r3) ← next_account_info r2
    (system_program_account, r4) ← next_account_info r3
    remove_access_entry R program_id authority access_account entry_account wallet access_fee_exempt
