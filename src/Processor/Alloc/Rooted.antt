-- ===== src/Processor/Alloc/Rooted.antt =====
-- Starting a thread (src/processor/create_root_alloc.rs).
use txtcel_program.Base.{
  ℕ, ◌≤◌, ◌≡◌, ◌≢◌, refl, sym, ap, ◌∙◌, ==_refl, true, List, [], ◌∷◌, length, replicate, All,
  to_le_bytes, arith,
}
use txtcel_program.Error.{ok}
use txtcel_program.Borsh.{Bytes, try_from_slice}
use txtcel_program.Borsh.Laws.{Fits}
use txtcel_program.Runtime.{Pubkey, Account, Bank, AccountInfo, Runtime}
use txtcel_program.Runtime.Laws.{IsRuntime}
use txtcel_program.Runtime.Hoare.{
  Holds, held, at_ok, Holds-bind, Holds-check, Holds-next, Holds-fail_if, Holds-mono, Holds-lift,
  Holds-run, Holds-self,
}
use txtcel_program.Runtime.Storage.{write_new-Rewritten}
use txtcel_program.Runtime.Tx.{serialize, ◌>>◌}
use txtcel_program.State.Constants.{tag_thread, max_title_len, alloc_seed}
use txtcel_program.State.Accounts.{ThreadNode, alloc_node_size, thread_node_size}
use txtcel_program.State.Codecs.{alloc_node_codec, thread_node_codec}
use txtcel_program.State.Codecs.Sizes.{alloc_node_codec-HasSize, thread_node_codec-HasSize}
use txtcel_program.State.Codecs.RoundTrip.{
  alloc_node_codec-RoundTrips, thread_node_codec-RoundTrips,
}
use txtcel_program.State.Codecs.Canonical.{alloc_node_codec-Canonical, thread_node_codec-Canonical}
use txtcel_program.State.Pda.{derive_alloc_pda, key_bytes}
use txtcel_program.State.Asserts.Facts.{assert_signer_ok, assert_pda_ok, assert_uninitialized_ok}
use txtcel_program.State.Asserts.{is_uninitialized}
use txtcel_program.State.AccountUtils.Effects.{create_pda_account-Created}
use txtcel_program.State.Fees.Payment.{collect_base_fee-SameData}
use txtcel_program.State.Loaders.{load_alloc, load_thread}
use txtcel_program.State.Loaders.Facts.{load_alloc_iff, load_thread_iff}
use txtcel_program.Processor.Alloc.{process_create_root_alloc}
use txtcel_program.Processor.Alloc.Linked.{node_of}

abbrev pub thread_of : Pubkey → ℕ → Bytes → ThreadNode
thread_of author message_fee title = record {
  tag = tag_thread;
  alloc_count = 1;
  last_alloc_seq = 0;
  author = author;
  message_fee = message_fee;
  like_fee = 0;
  title = title;
}

-- A thread of the payer with its first node, number 0.
pub record Rooted (R : Runtime) (program_id : Pubkey)
    (payer thread_account alloc_account : AccountInfo) (message_fee : ℕ) (title : Bytes)
    (b b' : Bank) : Type 0 where
  pub signed : payer.is_signer ≡ true
  pub thread_signed : thread_account.is_signer ≡ true
  pub fresh : is_uninitialized R thread_account b ≡ true
  pub node_fresh : is_uninitialized R alloc_account b ≡ true
  pub short : length title ≤ max_title_len
  pub stored :
      load_thread R program_id thread_account b' ≡ ok (thread_of payer.key message_fee title)
  pub linked : load_alloc R program_id alloc_account b' ≡ ok (node_of thread_account.key 0)

created_effect :
    {R : Runtime} (L : IsRuntime R) (payer target : AccountInfo) (n space : ℕ) (owner : Pubkey)
    (b b' : Bank)
    → R.create_account payer target n space owner [] b ≡ ok b'
    → ((b' target.key).owner ≡ owner) × ((b' target.key).bytes ≡ replicate space 0)
created_effect L payer target n space owner b b' e =
    let (_, same) = L.create_account_ok payer target n space owner [] b b' e in
    rw (same, ==_refl target.key) (refl, refl)

module _ {R : Runtime} (L : IsRuntime R) (program_id : Pubkey)
    (payer thread_account alloc_account settings_account treasury_shard : AccountInfo)
    (system_program_account : AccountInfo) (message_fee : ℕ) (title : Bytes) {rent : ℕ → ℕ}
    (b : Bank) (rent_ok : R.rent ≡ ok rent) (apart : thread_account.key ≢ alloc_account.key)
    (fits_payer : Fits 32 payer.key) (fits_thread : Fits 32 thread_account.key)
    (fits_fee : Fits 8 message_fee) (bytes_of : All (Fits 1) title) where
  -- The two writes, into two accounts that are new.
  writes :
      (b1 : Bank)
      → length title ≤ max_title_len
      → alloc_account.key ≡ (derive_alloc_pda R program_id thread_account.key 0).0
      → (b1 thread_account.key).owner ≡ program_id
      → (b1 thread_account.key).bytes ≡ replicate (thread_node_size (length title)) 0
      → (b1 alloc_account.key).owner ≡ program_id
      → (b1 alloc_account.key).bytes ≡ replicate alloc_node_size 0
      → Holds
          (λ _ b'.
            (load_thread R program_id thread_account b'
              ≡ ok (thread_of payer.key message_fee title))
            × (load_alloc R program_id alloc_account b' ≡ ok (node_of thread_account.key 0)))
          ((serialize
                (thread_node_codec R.borsh)
                (thread_of payer.key message_fee title)
                thread_account
              >> serialize (alloc_node_codec R.borsh) (node_of thread_account.key 0) alloc_account)
            b1)
  writes b1 short at owned zeros owned' zeros' =
      let l = L.is_borsh in
      let c = alloc_node_codec R.borsh in
      let d = thread_node_codec R.borsh in
      let t = thread_of payer.key message_fee title in
      let node = node_of thread_account.key 0 in
      Holds-bind _ _ b1
        (write_new-Rewritten d (thread_node_codec-Canonical l) t (thread_node_size (length title))
          thread_account b1 (thread_node_codec-HasSize l t)
          (thread_node_codec-RoundTrips l t (record {
            tag = omega arith;
            alloc_count = omega arith;
            last_alloc_seq = omega arith;
            author = fits_payer;
            message_fee = fits_fee;
            like_fee = omega arith;
            title_length = omega arith;
            title = bytes_of;
          }))
          zeros)
        λ _ b2 w.
          let kept = w.others alloc_account.key (λ q. apart (sym q)) in
          Holds-mono
            (write_new-Rewritten c (alloc_node_codec-Canonical l) node alloc_node_size alloc_account
              b2 (alloc_node_codec-HasSize l node)
              (alloc_node_codec-RoundTrips l node
                (record { tag = omega arith; thread = fits_thread; alloc_seq = omega arith }))
              (ap (λ (a : Account). a.bytes) kept ∙ zeros'))
            λ _ b3 w'.
              let kept' = w'.others thread_account.key apart in
              held (
                (load_thread_iff R program_id thread_account b3 t).1 (
                  ap (λ (a : Account). a.owner) kept' ∙ w.owner ∙ owned,
                  ap (λ (a : Account). try_from_slice d a.bytes) kept' ∙ w.decoded,
                  refl,
                ),
                (load_alloc_iff R program_id alloc_account b3 node).1
                    (w'.owner ∙ ap (λ (a : Account). a.owner) kept ∙ owned', w'.decoded, refl, at),
              )

  roots :
      (treasury_shard_idx : ℕ) (rest : List AccountInfo)
      → Holds
          (λ _ b'. Rooted R program_id payer thread_account alloc_account message_fee title b b')
          (process_create_root_alloc R program_id
            (payer ∷ thread_account ∷ alloc_account ∷ settings_account ∷ treasury_shard
              ∷ system_program_account ∷ rest)
            message_fee
            treasury_shard_idx
            title
            b)
  unfolding process_create_root_alloc
  roots treasury_shard_idx rest =
      let k = thread_account.key in
      let size = thread_node_size (length title) in
      Holds-fail_if _ _ _ b λ long. Holds-next _ _ _ b (
        Holds-next _ _ _ b (
          Holds-next _ _ _ b (
            Holds-next _ _ _ b (
              Holds-next _ _ _ b (
                Holds-next _ _ _ b (
                  Holds-check _ _ b λ _ signed. Holds-check _ _ b λ _ thread_signed.
                    Holds-check _ _ b λ _ _. Holds-check _ _ b λ _ _. Holds-check _ _ b λ _ _.
                      Holds-check _ _ b λ _ _. Holds-check _ _ b λ settings _.
                        Holds-check _ _ b λ _ at. Holds-check _ _ b λ bump _.
                          Holds-check _ _ b λ _ fresh. Holds-check _ _ b λ _ node_fresh.
                            Holds-bind {P = λ _ _. Unit {0}} _ _ b (Holds-self _ λ _ _ _. tt)
                              λ _ b1 _. Holds-lift _ _ b1 rent_ok (
                                Holds-bind _ _ b1
                                  (Holds-run
                                    (R.create_account payer thread_account (rent size) size
                                      program_id [])
                                    b1)
                                  λ _ b2 made. Holds-check _ _ b2 λ combined _.
                                    Holds-bind _ _ b2
                                      (collect_base_fee-SameData L combined settings.base_fee_bps
                                        payer treasury_shard b2)
                                      λ _ b3 s.
                                        Holds-bind _ _ b3
                                          (create_pda_account-Created L program_id payer
                                            alloc_account system_program_account alloc_node_size
                                            (alloc_seed
                                              ∷ key_bytes k
                                              ∷ to_le_bytes 4 0
                                              ∷ ((derive_alloc_pda R program_id k 0).1 ∷ [])
                                              ∷ [])
                                            b3 rent_ok)
                                          λ _ b4 node.
                                            let (o, z) =
                                              created_effect L payer thread_account (rent size) size
                                                program_id b1 b2 made in
                                            let short : length title ≤ max_title_len =
                                              ground arith in
                                            Holds-mono
                                              (writes b4 short (assert_pda_ok alloc_account b _ at)
                                                (node.frame.owner k apart ∙ s.owner k ∙ o)
                                                (node.frame.bytes k apart ∙ s.bytes k ∙ z)
                                                node.owner node.bytes)
                                              λ _ b' (stored, linked). held (record {
                                                signed = assert_signer_ok payer b signed;
                                                thread_signed =
                                                    assert_signer_ok thread_account b thread_signed;
                                                fresh =
                                                    assert_uninitialized_ok R thread_account b
                                                      fresh;
                                                node_fresh =
                                                    assert_uninitialized_ok R alloc_account b
                                                      node_fresh;
                                                short = short;
                                                stored = stored;
                                                linked = linked;
                                              }))))))))

  -- Rent is known, the thread and the node are two accounts, the keys are addresses, the fee is a 64-bit
  -- number and the title consists of bytes. A creation that succeeds was signed by the payer and with the
  -- thread's key, into accounts that did not exist, has a title within the limit, and leaves a thread of the payer with that fee and title,
  -- no like fee, one node and last number 0, and that node, number 0 of the thread, at its address.
  pub process_create_root_alloc-Rooted :
      (treasury_shard_idx : ℕ) (rest : List AccountInfo) (b' : Bank)
      → process_create_root_alloc R program_id
          (payer ∷ thread_account ∷ alloc_account ∷ settings_account ∷ treasury_shard
            ∷ system_program_account ∷ rest)
          message_fee
          treasury_shard_idx
          title
          b
        ≡ ok (tt, b')
      → Rooted R program_id payer thread_account alloc_account message_fee title b b'
  process_create_root_alloc-Rooted treasury_shard_idx rest b' =
      at_ok (roots treasury_shard_idx rest)
