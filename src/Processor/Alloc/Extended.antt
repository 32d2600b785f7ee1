-- ===== src/Processor/Alloc/Extended.antt =====
-- Extending a thread's chain of allocations (src/processor/prepare_alloc.rs).
use txtcel_program.Base.{ℕ, ◌+◌, ◌<◌, ◌≡◌, ◌≢◌, ap, ◌∙◌, List, ◌∷◌, u32_mod, arith}
use txtcel_program.Error.{ok}
use txtcel_program.Runtime.{Pubkey, Bank, AccountInfo, Runtime}
use txtcel_program.Runtime.Laws.{IsRuntime}
use txtcel_program.Runtime.Hoare.{
  Holds, held, at_ok, Holds-bind, Holds-check, Holds-next, Holds-fail_if, Holds-mono,
}
use txtcel_program.State.Accounts.{ThreadNode}
use txtcel_program.State.Pda.{derive_alloc_pda}
use txtcel_program.State.Asserts.Facts.{assert_pda_ok, assert_uninitialized_ok}
use txtcel_program.State.AccountUtils.Effects.{create_pda_account-Created}
use txtcel_program.State.Loaders.{load_alloc, load_thread}
use txtcel_program.Processor.Alloc.{process_prepare_alloc}
use txtcel_program.Processor.Alloc.Linked.{node_of, extended, current_is, new-not-thread, stores}

module _ (R : Runtime) (program_id : Pubkey)
    (current_alloc_account new_alloc_account thread_account : AccountInfo) where
  -- The thread's last node was passed as the current one; a node with the next number is there
  -- afterwards, and the thread counts it.
  pub record Extended (alloc_seq : ℕ) (b b' : Bank) : Type 0 where
    pub old : ThreadNode
    pub loaded : load_thread R program_id thread_account b ≡ ok old
    pub last : alloc_seq ≡ old.last_alloc_seq
    pub current :
        load_alloc R program_id current_alloc_account b ≡ ok (node_of thread_account.key alloc_seq)
    pub stored : load_thread R program_id thread_account b' ≡ ok (extended old)
    pub linked :
        load_alloc R program_id new_alloc_account b'
        ≡ ok (node_of thread_account.key (old.last_alloc_seq + 1))

module _ {R : Runtime} (L : IsRuntime R) (program_id : Pubkey) (ours : program_id ≢ R.system_id)
    (payer current_alloc_account new_alloc_account thread_account
      system_program_account : AccountInfo) where
  extends :
      (rest : List AccountInfo) (alloc_seq : ℕ) {rent : ℕ → ℕ} (b : Bank)
      → R.rent ≡ ok rent
      → Holds
          (λ _ b'.
            Extended R program_id current_alloc_account new_alloc_account thread_account alloc_seq b
              b')
          (process_prepare_alloc R program_id
            (payer ∷ current_alloc_account ∷ new_alloc_account ∷ thread_account
              ∷ system_program_account ∷ rest)
            alloc_seq
            b)
  unfolding process_prepare_alloc
  extends rest alloc_seq b rent_ok = Holds-next _ _ _ b (
      Holds-next _ _ _ b (
        Holds-next _ _ _ b (
          Holds-next _ _ _ b (
            Holds-next _ _ _ b (
              Holds-check _ _ b λ _ _. Holds-check _ _ b λ _ _. Holds-check _ _ b λ _ _.
                Holds-check _ _ b λ _ _. Holds-check _ _ b λ _ _.
                  Holds-check _ _ b λ current loaded_alloc. Holds-fail_if _ _ _ b λ same_thread.
                    Holds-fail_if _ _ _ b λ same_seq. Holds-check _ _ b λ thread loaded.
                      Holds-fail_if _ _ _ b λ is_last. Holds-check _ _ b λ new_seq next.
                        Holds-check _ _ b λ _ at. Holds-check _ _ b λ _ fresh.
                          let (node_is, fits_thread) =
                            current_is L program_id current_alloc_account new_alloc_account
                              thread_account current alloc_seq b loaded_alloc (ground arith)
                              (ground arith) in
                          let last : alloc_seq ≡ thread.last_alloc_seq = ground arith in
                          let seq_is : new_seq ≡ thread.last_alloc_seq + 1 = ground arith in
                          let seq_fits : thread.last_alloc_seq + 1 < u32_mod = ground arith in
                          let ne =
                            new-not-thread L program_id current_alloc_account new_alloc_account
                              thread_account ours thread b loaded
                              (assert_uninitialized_ok R new_alloc_account b fresh) in
                          let at' =
                            assert_pda_ok new_alloc_account b _ at
                            ∙ ap (λ n. (derive_alloc_pda R program_id thread_account.key n).0)
                                seq_is in
                          Holds-bind _ _ b
                            (create_pda_account-Created L program_id payer new_alloc_account
                              system_program_account _ _ b rent_ok)
                            λ _ b1 made. rw seq_is (
                              Holds-mono
                                (stores L program_id current_alloc_account new_alloc_account
                                  thread_account thread b b1 ne fits_thread seq_fits loaded at'
                                  made.owner made.bytes made.frame)
                                λ _ b3 (stored, linked). held (record {
                                  old = thread;
                                  loaded = loaded;
                                  last = last;
                                  current = node_is;
                                  stored = stored;
                                  linked = linked;
                                })))))))

  -- The program is not the System Program and rent is known. An extension that succeeds was given the
  -- thread's last node; afterwards the node with the next number is linked at its address, and the
  -- thread's count and last number are both one more, the rest of it unchanged.
  pub process_prepare_alloc-Extended :
      (rest : List AccountInfo) (alloc_seq : ℕ) {rent : ℕ → ℕ} (b b' : Bank)
      → R.rent ≡ ok rent
      → process_prepare_alloc R program_id
          (payer ∷ current_alloc_account ∷ new_alloc_account ∷ thread_account
            ∷ system_program_account ∷ rest)
          alloc_seq
          b
        ≡ ok (tt, b')
      → Extended R program_id current_alloc_account new_alloc_account thread_account alloc_seq b b'
  process_prepare_alloc-Extended rest alloc_seq b b' rent_ok =
      at_ok (extends rest alloc_seq b rent_ok)
