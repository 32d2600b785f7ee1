-- ===== src/Processor/ThreadAccess/Paid.antt =====
-- Paid entry to a gated thread (src/processor/request_access.rs).
use txtcel_program.Base.{
  ℕ, ◌<◌, ◌≡◌, ◌≢◌, refl, sym, ap, ◌∙◌, Bool, true, false, not, List, ◌∷◌, arith,
}
use mathlib.Core.Path.{subst}
use txtcel_program.Borsh.{deserialize}
use txtcel_program.Error.{ok}
use txtcel_program.Borsh.Laws.{Fits}
use txtcel_program.Runtime.{Pubkey, Bank, AccountInfo, Runtime}
use txtcel_program.Runtime.Laws.{IsRuntime}
use txtcel_program.Runtime.Tx.{Tx, when, check, ◌>>=◌}
use txtcel_program.Runtime.Hoare.{
  Holds, held, failed, at_ok, Holds-bind, Holds-check, Holds-gets, Holds-fail_if, Holds-mono,
  Holds-next,
}
use txtcel_program.State.Constants.{access_allowed}
use txtcel_program.State.Accounts.{ThreadAccess}
use txtcel_program.State.Codecs.{thread_access_codec}
use txtcel_program.State.Asserts.{is_uninitialized}
use txtcel_program.State.Asserts.Facts.{assert_signer_ok, assert_owned_by_ok}
use txtcel_program.State.Loaders.{load_thread_access, load_bound_access_entry}
use txtcel_program.State.Loaders.Facts.{load_thread_access_iff}
use txtcel_program.State.Access.{set_access_entry_status, adjust_whitelist_count}
use txtcel_program.Base.Int.{pos}
use txtcel_program.State.Access.Counter.{recounted, recount-Recounted}
use txtcel_program.State.Access.Entry.{entry_of, set_access_entry_status-EntrySet}
use txtcel_program.State.Access.Gate.{gate_in_range, gate-not-entry, gate-Frame, entry-kept}
use txtcel_program.State.Fees.Payment.{transfer_fee_split-SameData}
use txtcel_program.State.Fees.Undisturbed.{
  Undisturbed, Undisturbed-trans, SameData-Undisturbed, prepare_fee_shards-Undisturbed,
}
use txtcel_program.Processor.ThreadAccess.{process_request_access, reject_existing_entry}

-- The payer, who had no entry, is allowed afterwards, and the gate counts one wallet more.
pub record Admitted (R : Runtime) (program_id : Pubkey)
    (payer access_account entry_account : AccountInfo) (thread_key : Pubkey) (b b' : Bank)
    : Type 0 where
  pub access : ThreadAccess
  pub signed : payer.is_signer ≡ true
  pub loaded : load_thread_access R access_account b ≡ ok access
  pub of_thread : access.thread ≡ thread_key
  pub priced : 0 < access.entry_fee
  pub newcomer : is_uninitialized R entry_account b ≡ true
  pub stored :
      load_bound_access_entry R program_id entry_account thread_key payer.key b'
      ≡ ok (entry_of thread_key payer.key access_allowed)
  pub counted : load_thread_access R access_account b' ≡ ok (recounted false true access)

module _ {Q : Unit {0} → Bank → Type 0} where
  -- A test whose one branch never succeeds.
  pub Holds-rejected :
      (c : Bool) (m : Tx (Unit {0})) (f : Unit {0} → Tx (Unit {0})) (b : Bank)
      → (c ≡ false → Holds Q ((m >>= f) b))
      → (c ≡ true → Holds Q (f tt b))
      → Holds Q ((when (not c) m >>= f) b)
  unfolding ◌>>=◌
  Holds-rejected true m f b rejected next = next refl
  Holds-rejected false m f b rejected next = rejected refl

  pub reject_existing_entry-fails :
      (R : Runtime) (program_id : Pubkey) (accounts : List AccountInfo) (account : AccountInfo)
      (thread wallet : Pubkey) (f : Unit {0} → Tx (Unit {0})) (b : Bank)
      → Holds Q ((reject_existing_entry R program_id accounts account thread wallet >>= f) b)
  unfolding reject_existing_entry check
  reject_existing_entry-fails R program_id accounts account thread wallet f b =
      Holds-bind {P = λ _ _. (b' : Bank) → Holds Q (f tt b')} _ f b
        (Holds-check _ _ b λ e _. Holds-fail_if _ _ _ b λ _. failed) λ _ b' next. next b'

gate-Undisturbed :
    (R : Runtime) (program_id : Pubkey) (account : AccountInfo) (a : ThreadAccess) (b b' : Bank)
    → Undisturbed account.key b b'
    → load_thread_access R account b ≡ ok a
    → load_thread_access R account b' ≡ ok a
gate-Undisturbed R program_id account a b b' u loaded =
    let (decoded, tagged) = (load_thread_access_iff R program_id account b a).0 loaded in
    (load_thread_access_iff R program_id account b' a).1
      (ap (deserialize (thread_access_codec R.borsh)) u.bytes ∙ decoded, tagged)

module _ {R : Runtime} (L : IsRuntime R) (program_id : Pubkey)
    (payer access_account entry_account thread_account settings_account
      treasury_shard : AccountInfo)
    (author_fee_shard system_program_account : AccountInfo) (rest : List AccountInfo)
    (treasury_shard_idx author_fee_shard_idx : ℕ) {rent : ℕ → ℕ} (b : Bank)
    (rent_ok : R.rent ≡ ok rent) (fits_payer : Fits 32 payer.key)
    (ours : program_id ≢ R.system_id) where
  -- The last two calls: the entry, then the counter.
  enroll_holds :
      (access : ThreadAccess) (b1 : Bank)
      → access.thread ≡ thread_account.key
      → (b1 access_account.key).owner ≡ program_id
      → load_thread_access R access_account b1 ≡ ok access
      → Holds
          (λ _ b'.
            (load_bound_access_entry R program_id entry_account thread_account.key payer.key b'
              ≡ ok (entry_of thread_account.key payer.key access_allowed))
            × (load_thread_access R access_account b' ≡ ok (recounted false true access)))
          ((set_access_entry_status R program_id payer entry_account system_program_account
                thread_account.key payer.key access_allowed
              >>= λ prev. adjust_whitelist_count R access_account (pos 1))
            b1)
  enroll_holds access b1 of_thread owned loaded =
      let thread_key = thread_account.key in
      let fits_thread =
        subst (Fits 32) of_thread
          (gate_in_range L program_id ours access_account access b1 loaded).thread in
      Holds-bind _ _ b1
        (set_access_entry_status-EntrySet L program_id payer entry_account system_program_account
          thread_key payer.key access_allowed fits_thread fits_payer (omega arith) b1 rent_ok)
        λ prev b2 set.
          let ne =
            gate-not-entry L program_id ours access_account entry_account thread_key payer.key
              access prev b1 owned loaded set.previous in
          let still =
            gate-Frame L program_id ours access_account entry_account.key access b1 b2 ne set.frame
              loaded in
          Holds-mono (recount-Recounted L program_id access_account access b2 still false true)
            λ _ b' r. held (
              entry-kept L program_id ours entry_account thread_key payer.key _ b2 b'
                  (r.others entry_account.key (λ q. ne (sym q))) set.stored,
              r.stored,
            )

  request_holds :
      Holds
        (λ _ b'. Admitted R program_id payer access_account entry_account thread_account.key b b')
        (process_request_access R program_id
          (payer ∷ access_account ∷ entry_account ∷ thread_account ∷ settings_account
            ∷ treasury_shard ∷ author_fee_shard ∷ system_program_account ∷ rest)
          treasury_shard_idx
          author_fee_shard_idx
          b)
  unfolding process_request_access
  request_holds =
      let thread_key = thread_account.key in
      let k = access_account.key in
      Holds-next _ _ _ b (
        Holds-next _ _ _ b (
          Holds-next _ _ _ b (
            Holds-next _ _ _ b (
              Holds-next _ _ _ b (
                Holds-next _ _ _ b (
                  Holds-next _ _ _ b (
                    Holds-next _ _ _ b (
                      Holds-check _ _ b λ _ signed. Holds-check _ _ b λ _ _.
                        Holds-check _ _ b λ _ _. Holds-check _ _ b λ _ _. Holds-check _ _ b λ _ _.
                          Holds-check _ _ b λ _ owned_ok. Holds-check _ _ b λ _ _.
                            Holds-check _ _ b λ access loaded. Holds-fail_if _ _ _ b λ same.
                              Holds-fail_if _ _ _ b λ priced. Holds-check _ _ b λ _ _.
                                Holds-check _ _ b λ _ _. Holds-gets _ _ b (
                                  Holds-rejected (is_uninitialized R entry_account b) _ _ b
                                    (λ used.
                                      reject_existing_entry-fails R program_id rest entry_account
                                        thread_key payer.key _ b)
                                    λ newcomer. Holds-check _ _ b λ settings _.
                                      let owned =
                                        assert_owned_by_ok access_account b program_id owned_ok in
                                      Holds-bind _ _ b
                                        (prepare_fee_shards-Undisturbed L program_id payer
                                          treasury_shard author_fee_shard system_program_account
                                          thread_key treasury_shard_idx author_fee_shard_idx k b
                                          rent_ok (λ q. ours (sym owned ∙ q)))
                                        λ _ b1 u.
                                          Holds-bind _ _ b1
                                            (transfer_fee_split-SameData L access.entry_fee
                                              settings.entry_cut_bps payer author_fee_shard
                                              treasury_shard b1)
                                            λ _ b2 s.
                                              let u2 =
                                                Undisturbed-trans k b b1 b2 u
                                                  (SameData-Undisturbed k b1 b2 s) in
                                              Holds-mono
                                                (enroll_holds access b2 (ground arith)
                                                  (u2.owner ∙ owned)
                                                  (gate-Undisturbed R program_id access_account
                                                    access b b2 u2 loaded))
                                                λ _ b' (stored, counted). held (record {
                                                  access = access;
                                                  signed = assert_signer_ok payer b signed;
                                                  loaded = loaded;
                                                  of_thread = ground arith;
                                                  priced = ground arith;
                                                  newcomer = newcomer;
                                                  stored = stored;
                                                  counted = counted;
                                                }))))))))))

  -- Rent is known, the payer's key is an address and the program is not the system program. A request that
  -- succeeds was signed by the payer, who had no entry yet, for a gate of this thread with a fee;
  -- afterwards the payer's entry is allowed, and the gate's counter is one higher (as a 32-bit number)
  -- and the gate otherwise the same.
  pub process_request_access-Admitted :
      (b' : Bank)
      → process_request_access R program_id
          (payer ∷ access_account ∷ entry_account ∷ thread_account ∷ settings_account
            ∷ treasury_shard ∷ author_fee_shard ∷ system_program_account ∷ rest)
          treasury_shard_idx
          author_fee_shard_idx
          b
        ≡ ok (tt, b')
      → Admitted R program_id payer access_account entry_account thread_account.key b b'
  process_request_access-Admitted b' = at_ok request_holds
