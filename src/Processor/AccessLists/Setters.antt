-- ===== src/Processor/AccessLists/Setters.antt =====
-- The six list instructions (src/processor/add_to_*.rs, remove_from_*.rs): each moves a wallet on or
-- off its list, and the gate's counter moves with it.
use txtcel_program.Base.{refl, sym, ◌∙◌, ℕ, ◌≡◌, ◌≢◌, List, ◌∷◌, arith}
use txtcel_program.Error.{ok}
use txtcel_program.Borsh.Laws.{Fits}
use txtcel_program.Runtime.{Pubkey, Bank, AccountInfo, Runtime}
use txtcel_program.Runtime.Laws.{IsRuntime}
use txtcel_program.Runtime.Hoare.{at_ok}
use txtcel_program.Runtime.Tx.{Tx, ◌>>=◌}
use txtcel_program.State.Access.{apply_access_entry_status, remove_access_entry}
use txtcel_program.State.Constants.{access_allowed, access_denied, access_fee_exempt}
use txtcel_program.State.Access.Applied.{Applied, apply_access_entry_status-Applied}
use txtcel_program.State.Access.Removed.{Removed, remove_access_entry-Removed}
use txtcel_program.Processor.AccessLists.{
  process_add_to_blacklist, process_add_to_whitelist, process_add_to_fee_whitelist,
  process_remove_from_blacklist, process_remove_from_whitelist, process_remove_from_fee_whitelist,
}

-- The three lists, the status that each stands for, and the two instructions of each.
pub data AccessList : Type 0 where
  blacklist : AccessList
  whitelist : AccessList
  fee_whitelist : AccessList

abbrev pub status_of : AccessList → ℕ
status_of blacklist = access_denied
status_of whitelist = access_allowed
status_of fee_whitelist = access_fee_exempt

abbrev pub adding : AccessList → Runtime → Pubkey → List AccountInfo → Pubkey → Tx (Unit {0})
adding blacklist = process_add_to_blacklist
adding whitelist = process_add_to_whitelist
adding fee_whitelist = process_add_to_fee_whitelist

abbrev pub removing : AccessList → Runtime → Pubkey → List AccountInfo → Pubkey → Tx (Unit {0})
removing blacklist = process_remove_from_blacklist
removing whitelist = process_remove_from_whitelist
removing fee_whitelist = process_remove_from_fee_whitelist

status_of-Fits : (list : AccessList) → Fits 1 (status_of list)
status_of-Fits blacklist = omega arith
status_of-Fits whitelist = omega arith
status_of-Fits fee_whitelist = omega arith

module _ {R : Runtime} (L : IsRuntime R) (program_id : Pubkey) (ours : program_id ≢ R.system_id)
    (authority access_account entry_account system_program_account : AccountInfo)
    (rest : List AccountInfo) (list : AccessList) (wallet : Pubkey) (b b' : Bank) where
  abbrev accounts : List AccountInfo
  accounts = authority ∷ access_account ∷ entry_account ∷ system_program_account ∷ rest

  adding_same :
      (list : AccessList)
      → adding list R program_id accounts wallet b
        ≡ apply_access_entry_status R program_id authority access_account entry_account
            system_program_account wallet
            (status_of list)
            b
  unfolding ◌>>=◌ process_add_to_blacklist process_add_to_whitelist process_add_to_fee_whitelist
  adding_same blacklist = refl
  adding_same whitelist = refl
  adding_same fee_whitelist = refl

  removing_same :
      (list : AccessList)
      → removing list R program_id accounts wallet b
        ≡ remove_access_entry R program_id authority access_account entry_account wallet
            (status_of list)
            b
  unfolding ◌>>=◌ process_remove_from_blacklist process_remove_from_whitelist
      process_remove_from_fee_whitelist
  removing_same blacklist = refl
  removing_same whitelist = refl
  removing_same fee_whitelist = refl

  -- The program is not the System Program, rent is known and the wallet is a key. Then each of the
  -- three instructions that list a wallet succeeds only for the gate's admin; the wallet's entry has
  -- the list's status afterwards, whatever it was, and the counter of allowed wallets has changed by
  -- the step between the two statuses.
  pub add_to_list-Applied :
      {rent : ℕ → ℕ}
      → R.rent ≡ ok rent
      → Fits 32 wallet
      → adding list R program_id accounts wallet b ≡ ok (tt, b')
      → Applied R program_id authority access_account entry_account wallet (status_of list) b b'
  add_to_list-Applied rent_ok fits e =
      at_ok
        (apply_access_entry_status-Applied L program_id ours authority access_account entry_account
          system_program_account wallet (status_of list) fits (status_of-Fits list) b rent_ok)
        (sym (adding_same list) ∙ e)

  -- The program is not the System Program, and the authority's address is not the entry's. Then each
  -- of the three instructions that take a wallet off a list succeeds only for the gate's admin and
  -- only if the wallet was on that list; the entry is closed afterwards, and the counter of allowed
  -- wallets is one less for the whitelist and unchanged for the other two.
  pub remove_from_list-Removed :
      authority.key ≢ entry_account.key
      → removing list R program_id accounts wallet b ≡ ok (tt, b')
      → Removed R program_id authority access_account entry_account wallet (status_of list) b b'
  remove_from_list-Removed apart e =
      at_ok
        (remove_access_entry-Removed L program_id ours authority access_account entry_account apart
          wallet (status_of list) b)
        (sym (removing_same list) ∙ e)
