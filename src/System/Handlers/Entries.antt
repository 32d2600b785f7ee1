-- ===== src/System/Handlers/Entries.antt =====
-- Entries of an access list and the gate that counts them (the access-list half of
-- src/state/loaders.rs).
use txtcel_program.Base.{ℕ, ◌≤◌, ◌≡◌, ◌≢◌, refl, not, ◌==◌, Option, arith}
use txtcel_program.Base.Int.{ℤ, pos, ◌-ℤ◌}
use txtcel_program.Error.{ok}
use txtcel_program.Borsh.Laws.{Fits}
use txtcel_program.Runtime.{Pubkey, Bank, AccountInfo, Runtime}
use txtcel_program.Runtime.Laws.{IsRuntime}
use txtcel_program.Runtime.Tx.{serialize, done}
use txtcel_program.Runtime.Hoare.{
  Holds, Holds-bind, Holds-check, Holds-fail_if, Holds-gets, Holds-if, Holds-pure,
}
use txtcel_program.Runtime.Storage.{deserialize-some}
use txtcel_program.State.Constants.{tag_access, tag_access_entry, access_allowed, access_fee_exempt}
use txtcel_program.State.Accounts.{ThreadAccess, AccessEntry}
use txtcel_program.State.Codecs.{thread_access_codec, access_entry_codec}
use txtcel_program.State.Codecs.RoundTrip.{AccessEntryInRange}
use txtcel_program.State.Codecs.Canonical.{access_entry_codec-Canonical}
use txtcel_program.State.Asserts.{is_uninitialized}
use txtcel_program.State.Loaders.{load_thread_access, load_admin_access}
use txtcel_program.State.Loaders.Facts.{
  load_thread_access_iff, load_admin_access_iff, load_bound_access_entry_iff,
}
use txtcel_program.State.Access.{
  create_access_entry, flip_access_entry, set_access_entry_status, adjust_whitelist_count,
  close_access_entry, apply_access_entry_status, remove_access_entry, was_allowed, is_zero,
}
use txtcel_program.State.Access.Counter.{change}
use txtcel_program.State.Access.Entry.{entry_of}
use txtcel_program.State.Access.Gate.{gate_in_range}
use txtcel_program.System.Sound.{SoundBank, Nowhere}
use txtcel_program.System.Writes.{thread_access_codec-Sound, access_entry_codec-Sound}
use txtcel_program.System.Keeps.{
  create_pda_account-keeps, close_program_account-keeps, serialize-keeps,
}

module _ {R : Runtime} (L : IsRuntime R) (program_id : Pubkey) where
  pub write_gate :
      (a : ThreadAccess) (account : AccountInfo) (b : Bank)
      → a.tag ≡ tag_access
      → SoundBank R program_id b
      → Holds
          (λ _ b'. SoundBank R program_id b')
          (serialize (thread_access_codec R.borsh) a account b)
  write_gate a account b tagged h =
      serialize-keeps R program_id (thread_access_codec R.borsh) a account
        (λ rest. thread_access_codec-Sound L.is_borsh a rest tagged) b h

  write_entry :
      (e : AccessEntry) (account : AccountInfo) (b : Bank)
      → AccessEntryInRange e
      → e.tag ≡ tag_access_entry
      → e.status ≤ access_fee_exempt
      → SoundBank R program_id b
      → Holds
          (λ _ b'. SoundBank R program_id b')
          (serialize (access_entry_codec R.borsh) e account b)
  write_entry e account b range tagged status h =
      serialize-keeps R program_id (access_entry_codec R.borsh) e account
        (λ rest. access_entry_codec-Sound L.is_borsh e rest range tagged status) b h

  pub admin_tag :
      (authority account : AccountInfo) (a : ThreadAccess) (b : Bank)
      → load_admin_access R program_id authority account b ≡ ok a
      → (load_thread_access R account b ≡ ok a) × (a.tag ≡ tag_access)
  admin_tag authority account a b e =
      let (_, _, _, loaded, _, _) =
        (load_admin_access_iff R program_id account b authority a).0 e in
      let (_, tagged) = (load_thread_access_iff R program_id account b a).0 loaded in
      (loaded, tagged)

  pub adjust_whitelist_count-keeps :
      (account : AccountInfo) (delta : ℤ) (b : Bank)
      → SoundBank R program_id b
      → Holds (λ _ b'. SoundBank R program_id b') (adjust_whitelist_count R account delta b)
  unfolding adjust_whitelist_count
  adjust_whitelist_count-keeps account delta b h =
      Holds-check _ _ b
        λ a e. write_gate _ account b ((load_thread_access_iff R program_id account b a).0 e).1 h

  module _ {rent : ℕ → ℕ} (rent_ok : R.rent ≡ ok rent) where
    pub set_access_entry_status-keeps :
        (payer account system_program_account : AccountInfo) (thread wallet : Pubkey) (status : ℕ)
        (b : Bank)
        → Fits 32 thread
        → Fits 32 wallet
        → status ≤ access_fee_exempt
        → SoundBank R program_id b
        → Holds
            (λ (_ : Option ℕ) b'. SoundBank R program_id b')
            (set_access_entry_status R program_id payer account system_program_account thread wallet
              status b)
    unfolding set_access_entry_status create_access_entry flip_access_entry
    set_access_entry_status-keeps payer account system_program_account thread wallet status b
          fits_thread fits_wallet small h =
        Holds-check _ _ b λ _ _. Holds-gets _ _ b (
          Holds-if (is_uninitialized R account b) _ _ b
            (λ fresh.
              Holds-bind _ _ b
                (create_pda_account-keeps L program_id Nowhere rent_ok payer account
                  system_program_account _ _ b h)
                λ _ b1 h1.
                  Holds-bind _ _ b1
                    (write_entry (entry_of thread wallet status) account b1
                      (record {
                        tag = omega arith;
                        thread = fits_thread;
                        wallet = fits_wallet;
                        status = omega arith;
                      })
                      refl small h1)
                    λ _ b2 h2. Holds-pure _ b2 h2)
            (λ used. Holds-check _ _ b λ e loaded.
              let (_, decoded, tagged, _, _) =
                (load_bound_access_entry_iff R program_id account b thread wallet e).0 loaded in
              let (_, _, range) =
                deserialize-some (access_entry_codec R.borsh)
                  (access_entry_codec-Canonical L.is_borsh) _ e decoded in
              Holds-bind _ _ b
                (write_entry (record e { status = status }) account b
                  (record {
                    tag = range.tag;
                    thread = range.thread;
                    wallet = range.wallet;
                    status = omega arith;
                  })
                  tagged small h)
                λ _ b1 h1. Holds-pure _ b1 h1))

    module _ (ours : program_id ≢ R.system_id) where
      pub apply_access_entry_status-keeps :
          (authority access_account entry_account system_program_account : AccountInfo)
          (wallet : Pubkey) (status : ℕ) (b : Bank)
          → Fits 32 wallet
          → status ≤ access_fee_exempt
          → SoundBank R program_id b
          → Holds
              (λ _ b'. SoundBank R program_id b')
              (apply_access_entry_status R program_id authority access_account entry_account
                system_program_account wallet status b)
      unfolding apply_access_entry_status
      apply_access_entry_status-keeps authority access_account entry_account system_program_account
            wallet status b fits small h =
          Holds-check _ _ b λ _ _. Holds-check _ _ b λ _ _. Holds-check _ _ b λ _ _.
            Holds-check _ _ b λ a e.
              let (loaded, _) = admin_tag authority access_account a b e in
              Holds-bind _ _ b
                (set_access_entry_status-keeps authority entry_account system_program_account
                  a.thread wallet status b
                  (gate_in_range L program_id ours access_account a b loaded).thread fits small h)
                λ prev b1 h1.
                  let delta = change (was_allowed prev) (status == access_allowed) in
                  Holds-if (not (is_zero delta)) (adjust_whitelist_count R access_account delta)
                    done b1 (λ _. adjust_whitelist_count-keeps access_account delta b1 h1)
                    (λ _. Holds-pure tt b1 h1)

      pub remove_access_entry-keeps :
          (authority access_account entry_account : AccountInfo) (wallet : Pubkey) (status : ℕ)
          (b : Bank)
          → SoundBank R program_id b
          → Holds
              (λ _ b'. SoundBank R program_id b')
              (remove_access_entry R program_id authority access_account entry_account wallet status
                b)
      unfolding remove_access_entry close_access_entry
      remove_access_entry-keeps authority access_account entry_account wallet status b h =
          Holds-check _ _ b λ _ _. Holds-check _ _ b λ _ _. Holds-check _ _ b λ a e.
            Holds-bind _ _ b
              (Holds-check _ _ b λ _ _. Holds-gets _ _ b (
                Holds-fail_if _ _ _ b λ _. Holds-check _ _ b λ _ _.
                  Holds-fail_if _ _ _ b
                    λ _. close_program_account-keeps L program_id entry_account authority b ours h))
              λ _ b1 h1.
                Holds-if (status == access_allowed) _ _ b1
                  (λ _. adjust_whitelist_count-keeps access_account (pos 0 -ℤ pos 1) b1 h1)
                  (λ _. Holds-pure tt b1 h1)
