-- ===== src/System/Handlers/Lists.antt =====
-- The access-list instructions (src/processor/add_to_*.rs, remove_from_*.rs).
use txtcel_program.Base.{ℕ, ◌≡◌, ◌≢◌, List, All, arith}
use txtcel_program.Error.{ok}
use txtcel_program.Borsh.Laws.{Fits}
use txtcel_program.Runtime.{Pubkey, Bank, AccountInfo, Runtime}
use txtcel_program.Runtime.Laws.{IsRuntime}
use txtcel_program.Runtime.Hoare.{Holds, Holds-take}
use txtcel_program.State.Constants.{access_allowed, access_denied, access_fee_exempt}
use txtcel_program.Processor.AccessLists.{
  process_add_to_blacklist, process_add_to_whitelist, process_add_to_fee_whitelist,
  process_remove_from_blacklist, process_remove_from_whitelist, process_remove_from_fee_whitelist,
}
use txtcel_program.System.Sound.{SoundBank}
use txtcel_program.System.Handlers.Entries.{
  apply_access_entry_status-keeps, remove_access_entry-keeps,
}

module _ {R : Runtime} (L : IsRuntime R) (program_id : Pubkey) {rent : ℕ → ℕ}
    (rent_ok : R.rent ≡ ok rent) (ours : program_id ≢ R.system_id) (accounts : List AccountInfo)
    (keyed : All (λ a. Fits 32 a.key) accounts) (b : Bank) (h : SoundBank R program_id b)
    (wallet : Pubkey) where
  pub process_add_to_blacklist-keeps :
      Fits 32 wallet
      → Holds
          (λ _ b'. SoundBank R program_id b')
          (process_add_to_blacklist R program_id accounts wallet b)
  unfolding process_add_to_blacklist
  process_add_to_blacklist-keeps fits = Holds-take accounts _ b keyed λ authority r1 _ k1.
      Holds-take r1 _ b k1 λ access_account r2 _ k2. Holds-take r2 _ b k2 λ entry_account r3 _ k3.
        Holds-take r3 _ b k3 λ system_program_account _ _ _.
          apply_access_entry_status-keeps L program_id rent_ok ours authority access_account
            entry_account system_program_account wallet access_denied b fits (omega arith) h

  pub process_add_to_whitelist-keeps :
      Fits 32 wallet
      → Holds
          (λ _ b'. SoundBank R program_id b')
          (process_add_to_whitelist R program_id accounts wallet b)
  unfolding process_add_to_whitelist
  process_add_to_whitelist-keeps fits = Holds-take accounts _ b keyed λ authority r1 _ k1.
      Holds-take r1 _ b k1 λ access_account r2 _ k2. Holds-take r2 _ b k2 λ entry_account r3 _ k3.
        Holds-take r3 _ b k3 λ system_program_account _ _ _.
          apply_access_entry_status-keeps L program_id rent_ok ours authority access_account
            entry_account system_program_account wallet access_allowed b fits (omega arith) h

  pub process_add_to_fee_whitelist-keeps :
      Fits 32 wallet
      → Holds
          (λ _ b'. SoundBank R program_id b')
          (process_add_to_fee_whitelist R program_id accounts wallet b)
  unfolding process_add_to_fee_whitelist
  process_add_to_fee_whitelist-keeps fits = Holds-take accounts _ b keyed λ authority r1 _ k1.
      Holds-take r1 _ b k1 λ access_account r2 _ k2. Holds-take r2 _ b k2 λ entry_account r3 _ k3.
        Holds-take r3 _ b k3 λ system_program_account _ _ _.
          apply_access_entry_status-keeps L program_id rent_ok ours authority access_account
            entry_account system_program_account wallet access_fee_exempt b fits (omega arith) h

  pub process_remove_from_blacklist-keeps :
      Holds
        (λ _ b'. SoundBank R program_id b')
        (process_remove_from_blacklist R program_id accounts wallet b)
  unfolding process_remove_from_blacklist
  process_remove_from_blacklist-keeps = Holds-take accounts _ b keyed λ authority r1 _ k1.
      Holds-take r1 _ b k1 λ access_account r2 _ k2. Holds-take r2 _ b k2 λ entry_account r3 _ k3.
        Holds-take r3 _ b k3 λ system_program_account _ _ _.
          remove_access_entry-keeps L program_id rent_ok ours authority access_account entry_account
            wallet access_denied b h

  pub process_remove_from_whitelist-keeps :
      Holds
        (λ _ b'. SoundBank R program_id b')
        (process_remove_from_whitelist R program_id accounts wallet b)
  unfolding process_remove_from_whitelist
  process_remove_from_whitelist-keeps = Holds-take accounts _ b keyed λ authority r1 _ k1.
      Holds-take r1 _ b k1 λ access_account r2 _ k2. Holds-take r2 _ b k2 λ entry_account r3 _ k3.
        Holds-take r3 _ b k3 λ system_program_account _ _ _.
          remove_access_entry-keeps L program_id rent_ok ours authority access_account entry_account
            wallet access_allowed b h

  pub process_remove_from_fee_whitelist-keeps :
      Holds
        (λ _ b'. SoundBank R program_id b')
        (process_remove_from_fee_whitelist R program_id accounts wallet b)
  unfolding process_remove_from_fee_whitelist
  process_remove_from_fee_whitelist-keeps = Holds-take accounts _ b keyed λ authority r1 _ k1.
      Holds-take r1 _ b k1 λ access_account r2 _ k2. Holds-take r2 _ b k2 λ entry_account r3 _ k3.
        Holds-take r3 _ b k3 λ system_program_account _ _ _.
          remove_access_entry-keeps L program_id rent_ok ours authority access_account entry_account
            wallet access_fee_exempt b h
