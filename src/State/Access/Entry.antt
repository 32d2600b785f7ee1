-- ===== src/State/Access/Entry.antt =====
-- What `set_access_entry_status` and `close_access_entry` of src/state/loaders.rs do to the entry.
use mathlib.Core.Path.{subst}
use txtcel_program.Borsh.{deserialize}
use txtcel_program.Runtime.Tx.{serialize}
use txtcel_program.Base.{ℕ, ◌≡◌, refl, sym, ◌∙◌, true, false, Option, none, some, arith}
use txtcel_program.Error.{ok}
use txtcel_program.Borsh.Laws.{Fits, RoundTrips}
use txtcel_program.Runtime.{Pubkey, Bank, AccountInfo, Runtime}
use txtcel_program.Runtime.Laws.{IsRuntime}
use txtcel_program.Runtime.Hoare.{
  Holds, held, Holds-bind, Holds-check, Holds-gets, Holds-mono, Holds-if, Holds-pure,
}
use txtcel_program.Runtime.Storage.{
  rewrite-Rewritten_prefix, write_new-Rewritten, deserialize_of_try_from_slice, Rewritten,
}
use txtcel_program.State.Constants.{tag_access_entry}
use txtcel_program.State.Accounts.{AccessEntry, access_entry_size}
use txtcel_program.State.Codecs.{access_entry_codec}
use txtcel_program.State.Codecs.Sizes.{access_entry_codec-HasSize}
use txtcel_program.State.Codecs.RoundTrip.{access_entry_codec-RoundTrips}
use txtcel_program.State.Codecs.Canonical.{access_entry_codec-Canonical}
use txtcel_program.State.Codecs.Fronts.{access_entry_codec-IsFront}
use txtcel_program.State.Pda.{derive_access_entry_pda}
use txtcel_program.State.Asserts.{is_uninitialized}
use txtcel_program.State.AccountUtils.Effects.{
  Frame, Frame-others, Frame-of_others, create_pda_account-Created,
}
use txtcel_program.State.Loaders.{load_bound_access_entry}
use txtcel_program.State.Loaders.Facts.{load_bound_access_entry_iff}
use txtcel_program.State.Access.{set_access_entry_status, create_access_entry, flip_access_entry}

abbrev pub entry_of : Pubkey → Pubkey → ℕ → AccessEntry
entry_of thread wallet status = record {
  tag = tag_access_entry;
  thread = thread;
  wallet = wallet;
  status = status;
}

module _ (R : Runtime) (program_id : Pubkey) (account : AccountInfo) (thread wallet : Pubkey) where
  -- The wallet's status, `none` without an entry.
  pub data HasStatus (b : Bank) : Option ℕ → Type 0 where
    absent : is_uninitialized R account b ≡ true → HasStatus b none
    present :
        (e : AccessEntry)
        → is_uninitialized R account b ≡ false
        → load_bound_access_entry R program_id account thread wallet b ≡ ok e
        → HasStatus b (some e.status)

  pub record EntrySet (status : ℕ) (prev : Option ℕ) (b b' : Bank) : Type 0 where
    pub address : account.key ≡ (derive_access_entry_pda R program_id thread wallet).0
    pub previous : HasStatus b prev
    pub stored :
        load_bound_access_entry R program_id account thread wallet b'
        ≡ ok (entry_of thread wallet status)
    pub frame : Frame account.key b b'

  -- The entry in `account` has the status afterwards, and no other account's data or owner changes.
  pub record Stored (status : ℕ) (b b' : Bank) : Type 0 where
    pub stored :
        load_bound_access_entry R program_id account thread wallet b'
        ≡ ok (entry_of thread wallet status)
    pub frame : Frame account.key b b'

module _ {R : Runtime} (L : IsRuntime R) (program_id : Pubkey)
    (payer account system_program_account : AccountInfo) (thread wallet : Pubkey) (status : ℕ)
    (fits_thread : Fits 32 thread) (fits_wallet : Fits 32 wallet) (fits_status : Fits 1 status)
    (b : Bank) where
  abbrev entry : AccessEntry
  entry = entry_of thread wallet status

  entry-RoundTrips : RoundTrips (access_entry_codec R.borsh) entry
  entry-RoundTrips = access_entry_codec-RoundTrips L.is_borsh entry (record {
    tag = omega arith;
    thread = fits_thread;
    wallet = fits_wallet;
    status = fits_status;
  })

  create-Stored :
      (bump : ℕ) {rent : ℕ → ℕ}
      → R.rent ≡ ok rent
      → Holds
          (λ prev b'. (prev ≡ none) × Stored R program_id account thread wallet status b b')
          (create_access_entry R program_id payer account system_program_account thread wallet
            status bump b)
  unfolding create_access_entry
  create-Stored bump rent_ok =
      let c = access_entry_codec R.borsh in
      Holds-bind _ _ b
        (create_pda_account-Created L program_id payer account system_program_account
          access_entry_size _ b rent_ok)
        λ _ b1 made.
          Holds-bind _ _ b1
            (write_new-Rewritten c (access_entry_codec-Canonical L.is_borsh) entry access_entry_size
              account b1 (access_entry_codec-HasSize L.is_borsh entry) entry-RoundTrips made.bytes)
            λ _ b2 w. Holds-pure none b2 (
              refl,
              record {
                stored =
                    (load_bound_access_entry_iff R program_id account b2 thread wallet entry).1 (
                      w.owner ∙ made.owner,
                      deserialize_of_try_from_slice c (b2 account.key).bytes entry w.decoded,
                      refl,
                      refl,
                      refl,
                    );
                frame = Frame-others account.key b b1 b2 made.frame w.others;
              },
            )

  flip-Stored :
      Holds
        (λ prev b'.
          ((e : AccessEntry) × (load_bound_access_entry R program_id account thread wallet b ≡ ok e)
            × (prev ≡ some e.status))
          × Stored R program_id account thread wallet status b b')
        (flip_access_entry R program_id account thread wallet status b)
  unfolding flip_access_entry
  flip-Stored = Holds-check _ _ b λ e loaded.
      let (owned, decoded, tagged, of_thread, of_wallet) =
        (load_bound_access_entry_iff R program_id account b thread wallet e).0 loaded in
      let c = access_entry_codec R.borsh in
      let l = L.is_borsh in
      let same : record e { status = status } ≡ entry = cc in
      Holds-bind _ _ b
        (subst
          (λ x.
            Holds (λ _ b'. Rewritten (deserialize c) account.key entry b b')
              (serialize c x account b))
          (sym same)
          (rewrite-Rewritten_prefix c (access_entry_codec-Canonical l) e entry access_entry_size
            account b (access_entry_codec-HasSize l e) (access_entry_codec-HasSize l entry)
            (access_entry_codec-IsFront l entry) entry-RoundTrips decoded))
        λ _ b1 w. Holds-pure (some e.status) b1 (
          (e, loaded, refl),
          record {
            stored =
                (load_bound_access_entry_iff R program_id account b1 thread wallet entry).1
                  (w.owner ∙ owned, w.decoded, refl, refl, refl);
            frame = Frame-of_others account.key b b1 w.others;
          },
        )

  pub set_access_entry_status-EntrySet :
      {rent : ℕ → ℕ}
      → R.rent ≡ ok rent
      → Holds
          (λ prev b'. EntrySet R program_id account thread wallet status prev b b')
          (set_access_entry_status R program_id payer account system_program_account thread wallet
            status b)
  unfolding set_access_entry_status
  set_access_entry_status-EntrySet rent_ok = Holds-check _ _ b λ _ at. Holds-gets _ _ b (
      Holds-if (is_uninitialized R account b) _ _ b
        (λ fresh. Holds-mono (create-Stored _ rent_ok) λ prev b' (absent_before, s). held (record {
          address = ground arith;
          previous =
              subst (HasStatus R program_id account thread wallet b) (sym absent_before)
                (absent fresh);
          stored = s.stored;
          frame = s.frame;
        }))
        (λ used. Holds-mono flip-Stored λ prev b' ((e, loaded, before), s). held (record {
          address = ground arith;
          previous =
              subst (HasStatus R program_id account thread wallet b) (sym before)
                (present e used loaded);
          stored = s.stored;
          frame = s.frame;
        })))
