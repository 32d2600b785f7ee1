-- ===== src/State/Access/Applied.antt =====
-- The access-list setters (`apply_access_entry_status` and `remove_access_entry` of
-- src/state/loaders.rs): the entry and the counter move together.
use txtcel_program.Base.{ℕ, ◌≡◌, ◌≢◌, sym, true, Option, ◌==◌}
use txtcel_program.Error.{ok}
use txtcel_program.Borsh.Laws.{Fits}
use txtcel_program.Runtime.{Pubkey, Bank, AccountInfo, Runtime}
use txtcel_program.Runtime.Laws.{IsRuntime}
use txtcel_program.Runtime.Hoare.{Holds, held, Holds-bind, Holds-check, Holds-mono}
use txtcel_program.State.Constants.{access_allowed}
use txtcel_program.State.Accounts.{ThreadAccess}
use txtcel_program.State.Loaders.{load_thread_access, load_bound_access_entry}
use txtcel_program.State.Loaders.Facts.{load_admin_access_iff}
use txtcel_program.State.Access.{apply_access_entry_status, was_allowed}
use txtcel_program.State.Access.Counter.{recounted, recount-Recounted}
use txtcel_program.State.Access.Entry.{HasStatus, entry_of, set_access_entry_status-EntrySet}
use txtcel_program.State.Access.Gate.{gate_in_range, gate-not-entry, entry-kept, gate-Frame}

module _ (R : Runtime) (program_id : Pubkey) (authority access_account entry_account : AccountInfo)
    (wallet : Pubkey) where
  -- The wallet's entry is set to `status`, and the gate's counter follows.
  pub record Applied (status : ℕ) (b b' : Bank) : Type 0 where
    pub access : ThreadAccess
    pub prev : Option ℕ
    pub signed : authority.is_signer ≡ true
    pub by_admin : access.admin ≡ authority.key
    pub loaded : load_thread_access R access_account b ≡ ok access
    pub previous : HasStatus R program_id entry_account access.thread wallet b prev
    pub stored :
        load_bound_access_entry R program_id entry_account access.thread wallet b'
        ≡ ok (entry_of access.thread wallet status)
    pub counted :
        load_thread_access R access_account b'
        ≡ ok (recounted (was_allowed prev) (status == access_allowed) access)

module _ {R : Runtime} (L : IsRuntime R) (program_id : Pubkey)
    (ours : program_id ≢ R.system_id) where
  module _ (authority access_account entry_account system_program_account : AccountInfo)
      (wallet : Pubkey) (status : ℕ) (fits_wallet : Fits 32 wallet)
      (fits_status : Fits 1 status) where
    pub apply_access_entry_status-Applied :
        {rent : ℕ → ℕ} (b : Bank)
        → R.rent ≡ ok rent
        → Holds
            (λ _ b'. Applied R program_id authority access_account entry_account wallet status b b')
            (apply_access_entry_status R program_id authority access_account entry_account
              system_program_account wallet status b)
    unfolding apply_access_entry_status
    apply_access_entry_status-Applied b rent_ok = Holds-check _ _ b λ _ _. Holds-check _ _ b λ _ _.
        Holds-check _ _ b λ _ _. Holds-check _ _ b λ access e.
          let (signed, _, owned, loaded, by_admin, _) =
            (load_admin_access_iff R program_id access_account b authority access).0 e in
          let fits_thread =
            (gate_in_range L program_id ours access_account access b loaded).thread in
          Holds-bind _ _ b
            (set_access_entry_status-EntrySet L program_id authority entry_account
              system_program_account access.thread wallet status fits_thread fits_wallet fits_status
              b rent_ok)
            λ prev b1 set.
              let ne =
                gate-not-entry L program_id ours access_account entry_account access.thread wallet
                  access prev b owned loaded set.previous in
              let still =
                gate-Frame L program_id ours access_account entry_account.key access b b1 ne
                  set.frame loaded in
              Holds-mono
                (recount-Recounted L program_id access_account access b1 still (was_allowed prev)
                  (status == access_allowed))
                λ _ b' r. held (record {
                  access = access;
                  prev = prev;
                  signed = signed;
                  by_admin = by_admin;
                  loaded = loaded;
                  previous = set.previous;
                  stored =
                      entry-kept L program_id ours entry_account access.thread wallet _ b1 b'
                        (r.others entry_account.key (λ q. ne (sym q))) set.stored;
                  counted = r.stored;
                })
