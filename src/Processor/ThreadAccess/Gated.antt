-- ===== src/Processor/ThreadAccess/Gated.antt =====
-- Setting up a thread's gate (src/processor/init_thread_access.rs).
use txtcel_program.Base.{ℕ, ◌≡◌, ◌∙◌, refl, Bool, true, List, [], ◌∷◌, arith}
use txtcel_program.Error.{ok}
use txtcel_program.Borsh.Laws.{Fits}
use txtcel_program.Runtime.{Pubkey, Bank, AccountInfo, Runtime}
use txtcel_program.Runtime.Laws.{IsRuntime}
use txtcel_program.Runtime.Hoare.{
  Holds, held, at_ok, Holds-bind, Holds-check, Holds-next, Holds-fail_if, Holds-mono, Holds-lift,
  Holds-self,
}
use txtcel_program.Runtime.Storage.{write_new-Rewritten, deserialize_of_try_from_slice}
use txtcel_program.State.Constants.{tag_access, access_seed}
use txtcel_program.State.Accounts.{ThreadNode, ThreadAccess, thread_access_size}
use txtcel_program.State.Codecs.{thread_access_codec}
use txtcel_program.State.Codecs.Sizes.{thread_access_codec-HasSize}
use txtcel_program.State.Codecs.RoundTrip.{thread_access_codec-RoundTrips}
use txtcel_program.State.Codecs.Canonical.{thread_access_codec-Canonical}
use txtcel_program.State.Pda.{derive_access_pda, key_bytes}
use txtcel_program.State.Asserts.{is_uninitialized}
use txtcel_program.State.Asserts.Facts.{assert_signer_ok, assert_pda_ok, assert_uninitialized_ok}
use txtcel_program.State.AccountUtils.Effects.{create_pda_account-Created}
use txtcel_program.State.Loaders.{load_thread, load_thread_access}
use txtcel_program.State.Loaders.Facts.{load_thread_access_iff}
use txtcel_program.Processor.ThreadAccess.{process_init_thread_access}

abbrev pub gate_of : Pubkey → Pubkey → Bool → ThreadAccess
gate_of thread admin enabled = record {
  tag = tag_access;
  thread = thread;
  enabled = enabled;
  admin = admin;
  entry_fee = 0;
  whitelist_count = 0;
}

-- The thread's author has a new gate, free and empty, at the gate's address.
pub record Gated (R : Runtime) (program_id : Pubkey)
    (authority thread_account access_account : AccountInfo) (enabled : Bool) (b b' : Bank)
    : Type 0 where
  pub thread : ThreadNode
  pub signed : authority.is_signer ≡ true
  pub loaded : load_thread R program_id thread_account b ≡ ok thread
  pub by_author : thread.author ≡ authority.key
  pub address : access_account.key ≡ (derive_access_pda R program_id thread_account.key).0
  pub fresh : is_uninitialized R access_account b ≡ true
  pub owned : (b' access_account.key).owner ≡ program_id
  pub stored :
      load_thread_access R access_account b' ≡ ok (gate_of thread_account.key authority.key enabled)

module _ {R : Runtime} (L : IsRuntime R) (program_id : Pubkey)
    (authority thread_account access_account treasury_shard : AccountInfo)
    (system_program_account : AccountInfo) (rest : List AccountInfo) (enabled : Bool)
    (treasury_shard_idx : ℕ) {rent : ℕ → ℕ} (b : Bank) (rent_ok : R.rent ≡ ok rent)
    (fits_authority : Fits 32 authority.key) (fits_thread : Fits 32 thread_account.key) where
  gates :
      Holds
        (λ _ b'. Gated R program_id authority thread_account access_account enabled b b')
        (process_init_thread_access R program_id
          (authority ∷ thread_account ∷ access_account ∷ treasury_shard ∷ system_program_account
            ∷ rest)
          enabled
          treasury_shard_idx
          b)
  unfolding process_init_thread_access
  gates =
      let l = L.is_borsh in
      let c = thread_access_codec R.borsh in
      let thread_key = thread_account.key in
      let new = gate_of thread_key authority.key enabled in
      Holds-next _ _ _ b (
        Holds-next _ _ _ b (
          Holds-next _ _ _ b (
            Holds-next _ _ _ b (
              Holds-next _ _ _ b (
                Holds-check _ _ b λ _ signed. Holds-check _ _ b λ _ _. Holds-check _ _ b λ _ _.
                  Holds-check _ _ b λ _ _. Holds-check _ _ b λ thread loaded.
                    Holds-fail_if _ _ _ b λ by_author. Holds-check _ _ b λ _ at.
                      Holds-check _ _ b λ _ fresh. Holds-check _ _ b λ bump _.
                        Holds-bind {P = λ _ _. Unit {0}} _ _ b (Holds-self _ λ _ _ _. tt) λ _ b1 _.
                          Holds-lift _ _ b1 rent_ok (
                            Holds-bind {P = λ _ _. Unit {0}} _ _ b1 (Holds-self _ λ _ _ _. tt)
                              λ _ b2 _.
                                Holds-bind _ _ b2
                                  (create_pda_account-Created L program_id authority access_account
                                    system_program_account thread_access_size
                                    (access_seed
                                      ∷ key_bytes thread_key
                                      ∷ ((derive_access_pda R program_id thread_key).1 ∷ [])
                                      ∷ [])
                                    b2 rent_ok)
                                  λ _ b3 made.
                                    Holds-mono
                                      (write_new-Rewritten c (thread_access_codec-Canonical l) new
                                        thread_access_size access_account b3
                                        (thread_access_codec-HasSize l new)
                                        (thread_access_codec-RoundTrips l new (record {
                                          tag = omega arith;
                                          thread = fits_thread;
                                          admin = fits_authority;
                                          entry_fee = omega arith;
                                          whitelist_count = omega arith;
                                        }))
                                        made.bytes)
                                      λ _ b' w. held (record {
                                        thread = thread;
                                        signed = assert_signer_ok authority b signed;
                                        loaded = loaded;
                                        by_author = ground arith;
                                        address = assert_pda_ok access_account b _ at;
                                        fresh = assert_uninitialized_ok R access_account b fresh;
                                        owned = w.owner ∙ made.owner;
                                        stored =
                                            (load_thread_access_iff R program_id access_account b'
                                                new).1
                                              (
                                                deserialize_of_try_from_slice c
                                                    (b' access_account.key).bytes new w.decoded,
                                                refl,
                                              );
                                      })))))))

  -- Rent is known and the keys are addresses. A set-up that succeeds was signed by the thread's author,
  -- found no account at the gate's address, and leaves there a gate of the thread with the author as
  -- admin, switched on or off as asked, with no entry fee and no member.
  pub process_init_thread_access-Gated :
      (b' : Bank)
      → process_init_thread_access R program_id
          (authority ∷ thread_account ∷ access_account ∷ treasury_shard ∷ system_program_account
            ∷ rest)
          enabled
          treasury_shard_idx
          b
        ≡ ok (tt, b')
      → Gated R program_id authority thread_account access_account enabled b b'
  process_init_thread_access-Gated b' = at_ok gates
