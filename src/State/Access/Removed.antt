-- ===== src/State/Access/Removed.antt =====
-- Taking a wallet off a list (`remove_access_entry` of src/state/loaders.rs): its entry is closed and
-- the gate's counter follows.
use txtcel_program.Base.{ℕ, ◌≡◌, ◌≢◌, sym, Bool, true, false, ◌==◌, arith}
use txtcel_program.Base.Int.{pos, ◌-ℤ◌}
use txtcel_program.Error.{ok}
use txtcel_program.Runtime.{Pubkey, Bank, AccountInfo, Runtime}
use txtcel_program.Runtime.Laws.{IsRuntime}
use txtcel_program.Runtime.Hoare.{
  Holds, held, Holds-bind, Holds-check, Holds-mono, Holds-gets, Holds-fail_if,
}
use txtcel_program.Runtime.Tx.{when}
use txtcel_program.State.Constants.{access_allowed}
use txtcel_program.State.Accounts.{ThreadAccess, AccessEntry}
use txtcel_program.State.Asserts.{is_uninitialized}
use txtcel_program.State.AccountUtils.Closing.{Closed, Closed-Frame, close_program_account-Closed}
use txtcel_program.State.Loaders.{load_thread_access, load_bound_access_entry}
use txtcel_program.State.Loaders.Facts.{load_admin_access_iff}
use txtcel_program.State.Access.{close_access_entry, remove_access_entry, adjust_whitelist_count}
use txtcel_program.State.Access.Counter.{Recounted, recounted, recount-Recounted}
use txtcel_program.State.Access.Entry.{present}
use txtcel_program.State.Access.Gate.{gate-not-entry, gate-Frame}

module _ (R : Runtime) (program_id : Pubkey) (authority access_account entry_account : AccountInfo)
    (wallet : Pubkey) (expected_status : ℕ) where
  -- The wallet's entry, which had the status, is closed into the authority's account.
  pub record EntryClosed (thread : Pubkey) (b b' : Bank) : Type 0 where
    pub entry : AccessEntry
    pub used : is_uninitialized R entry_account b ≡ false
    pub loaded : load_bound_access_entry R program_id entry_account thread wallet b ≡ ok entry
    pub had : entry.status ≡ expected_status
    pub closed : Closed R.system_id authority.key entry_account.key b b'

  -- The entry of the gate's thread is closed, and the gate counts one wallet less if it was allowed.
  pub record Removed (b b' : Bank) : Type 0 where
    pub access : ThreadAccess
    pub signed : authority.is_signer ≡ true
    pub by_admin : access.admin ≡ authority.key
    pub loaded : load_thread_access R access_account b ≡ ok access
    pub entry : AccessEntry
    pub was : load_bound_access_entry R program_id entry_account access.thread wallet b ≡ ok entry
    pub had : entry.status ≡ expected_status
    pub gone : is_uninitialized R entry_account b' ≡ true
    pub counted :
        load_thread_access R access_account b'
        ≡ ok (recounted (expected_status == access_allowed) false access)

module _ {R : Runtime} (L : IsRuntime R) (program_id : Pubkey) (ours : program_id ≢ R.system_id)
    (authority access_account entry_account : AccountInfo)
    (apart : authority.key ≢ entry_account.key) (wallet : Pubkey) (expected_status : ℕ) where
  close_access_entry-EntryClosed :
      (thread : Pubkey) (b : Bank)
      → Holds
          (λ _ b'.
            EntryClosed R program_id authority access_account entry_account wallet expected_status
              thread b b')
          (close_access_entry R program_id authority entry_account thread wallet expected_status b)
  unfolding close_access_entry
  close_access_entry-EntryClosed thread b = Holds-check _ _ b λ _ _. Holds-gets _ _ b (
      Holds-fail_if _ _ _ b λ used. Holds-check _ _ b λ e loaded. Holds-fail_if _ _ _ b λ had.
        Holds-mono (close_program_account-Closed L entry_account authority b apart) λ _ b' c.
          held (record { entry = e; used = used; loaded = loaded; had = ground arith; closed = c }))

  recount_removed :
      (a : ThreadAccess) (b : Bank) (was : Bool)
      → load_thread_access R access_account b ≡ ok a
      → Holds
          (λ _ b'. Recounted R access_account was false a b b')
          (when was (adjust_whitelist_count R access_account (pos 0 -ℤ pos 1)) b)
  recount_removed a b true loaded =
      recount-Recounted L program_id access_account a b loaded true false
  recount_removed a b false loaded =
      recount-Recounted L program_id access_account a b loaded false false

  Closed-gone :
      (b b' b2 : Bank)
      → Closed R.system_id authority.key entry_account.key b b'
      → b2 entry_account.key ≡ b' entry_account.key
      → is_uninitialized R entry_account b2 ≡ true
  unfolding is_uninitialized
  Closed-gone b b' b2 c same = rw (same, c.owner, c.bytes) (ground arith)

  pub remove_access_entry-Removed :
      (b : Bank)
      → Holds
          (λ _ b'.
            Removed R program_id authority access_account entry_account wallet expected_status b b')
          (remove_access_entry R program_id authority access_account entry_account wallet
            expected_status b)
  unfolding remove_access_entry
  remove_access_entry-Removed b = Holds-check _ _ b λ _ _. Holds-check _ _ b λ _ _.
      Holds-check _ _ b λ access e.
        let (signed, _, owned, loaded, by_admin, _) =
          (load_admin_access_iff R program_id access_account b authority access).0 e in
        Holds-bind _ _ b (close_access_entry-EntryClosed access.thread b) λ _ b1 c.
          let ne =
            gate-not-entry L program_id ours access_account entry_account access.thread wallet
              access _ b owned loaded (present c.entry c.used c.loaded) in
          let frame = Closed-Frame R.system_id authority.key entry_account.key b b1 c.closed in
          let still =
            gate-Frame L program_id ours access_account entry_account.key access b b1 ne frame
              loaded in
          Holds-mono (recount_removed access b1 (expected_status == access_allowed) still) λ _ b' r.
            held (record {
              access = access;
              signed = signed;
              by_admin = by_admin;
              loaded = loaded;
              entry = c.entry;
              was = c.loaded;
              had = c.had;
              gone = Closed-gone b b1 b' c.closed (r.others entry_account.key (λ q. ne (sym q)));
              counted = r.stored;
            })
