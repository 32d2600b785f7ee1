-- ===== src/System/Handlers/Threads.antt =====
-- The chains of nodes stay dense (src/processor/create_root_alloc.rs, prepare_alloc.rs,
-- set_message_fee.rs, set_like_fee.rs).
use txtcel_program.Base.{ℕ, ◌≡◌, refl, List, [], ◌∷◌, All, length, to_le_bytes, arith}
use txtcel_program.Error.{ok}
use txtcel_program.Borsh.{Bytes}
use txtcel_program.Borsh.Laws.{Fits}
use txtcel_program.Runtime.{Pubkey, Bank, AccountInfo, Runtime}
use txtcel_program.Runtime.Laws.{IsRuntime}
use txtcel_program.Runtime.Tx.{serialize}
use txtcel_program.Runtime.Hoare.{
  Holds, Holds-bind, Holds-check, Holds-fail_if, Holds-lift, Holds-run, Holds-take,
}
use txtcel_program.Runtime.Storage.{try_from_slice-some}
use txtcel_program.State.Constants.{tag_thread, treasury_shard_seed}
use txtcel_program.State.Accounts.{ThreadNode, thread_node_size}
use txtcel_program.State.Codecs.{thread_node_codec, alloc_node_codec}
use txtcel_program.State.Codecs.RoundTrip.{ThreadNodeInRange}
use txtcel_program.State.Codecs.Canonical.{thread_node_codec-Canonical}
use txtcel_program.State.Loaders.{load_thread}
use txtcel_program.State.Loaders.Facts.{load_thread_iff, load_author_thread_iff}
use txtcel_program.Processor.Alloc.{process_create_root_alloc, process_prepare_alloc}
use txtcel_program.Processor.Alloc.Linked.{node_of}
use txtcel_program.Processor.Alloc.Rooted.{thread_of}
use txtcel_program.Processor.ThreadFees.{process_set_message_fee, process_set_like_fee}
use txtcel_program.System.Sound.{IsDense, SoundBank, Nowhere}
use txtcel_program.System.Writes.{thread_node_codec-Sound, alloc_node_codec-Sound}
use txtcel_program.System.Keeps.{
  create_pda_account-keeps, create_account-keeps, ensure_shard_initialized-keeps,
  collect_base_fee-keeps, serialize-keeps,
}

-- A thread that may be written.
record IsGood (t : ThreadNode) : Type 0 where
  range : ThreadNodeInRange t
  tagged : t.tag ≡ tag_thread
  dense : IsDense t

module _ {R : Runtime} (L : IsRuntime R) (program_id : Pubkey) where
  write_thread :
      (t : ThreadNode) (account : AccountInfo) (b : Bank)
      → IsGood t
      → SoundBank R program_id b
      → Holds
          (λ _ b'. SoundBank R program_id b')
          (serialize (thread_node_codec R.borsh) t account b)
  write_thread t account b g h =
      serialize-keeps R program_id (thread_node_codec R.borsh) t account
        (λ rest. thread_node_codec-Sound L.is_borsh t rest g.range g.tagged g.dense) b h

  write_alloc :
      (thread : Pubkey) (seq : ℕ) (account : AccountInfo) (b : Bank)
      → SoundBank R program_id b
      → Holds
          (λ _ b'. SoundBank R program_id b')
          (serialize (alloc_node_codec R.borsh) (node_of thread seq) account b)
  write_alloc thread seq account b h =
      serialize-keeps R program_id (alloc_node_codec R.borsh) (node_of thread seq) account
        (λ rest. alloc_node_codec-Sound L.is_borsh (node_of thread seq) rest refl) b h

  loaded-IsGood :
      (account : AccountInfo) (t : ThreadNode) (b : Bank)
      → SoundBank R program_id b
      → load_thread R program_id account b ≡ ok t
      → IsGood t
  loaded-IsGood account t b h e =
      let (owned, decoded, tagged) = (load_thread_iff R program_id account b t).0 e in
      let (_, range) =
        try_from_slice-some (thread_node_codec R.borsh) (thread_node_codec-Canonical L.is_borsh) _ t
          decoded in
      record {
        range = range;
        tagged = tagged;
        dense = (h account.key (λ x. x) owned).thread t decoded tagged;
      }

  module _ (accounts : List AccountInfo) (keyed : All (λ a. Fits 32 a.key) accounts) (b : Bank)
      (h : SoundBank R program_id b) where
    pub process_set_message_fee-keeps :
        (fee : ℕ)
        → Fits 8 fee
        → Holds
            (λ _ b'. SoundBank R program_id b')
            (process_set_message_fee R program_id accounts fee b)
    unfolding process_set_message_fee
    process_set_message_fee-keeps fee fits = Holds-take accounts _ b keyed λ authority r1 _ k1.
        Holds-take r1 _ b k1 λ thread_account r2 _ _. Holds-check _ _ b λ t e.
          let (_, _, loaded, _) =
            (load_author_thread_iff R program_id thread_account b authority t).0 e in
          let g = loaded-IsGood thread_account t b h loaded in
          write_thread (record t { message_fee = fee }) thread_account b
            (record { range = ground arith; tagged = g.tagged; dense = ground arith }) h

    pub process_set_like_fee-keeps :
        (fee : ℕ)
        → Fits 8 fee
        → Holds
            (λ _ b'. SoundBank R program_id b')
            (process_set_like_fee R program_id accounts fee b)
    unfolding process_set_like_fee
    process_set_like_fee-keeps fee fits = Holds-take accounts _ b keyed λ authority r1 _ k1.
        Holds-take r1 _ b k1 λ thread_account r2 _ _. Holds-check _ _ b λ t e.
          let (_, _, loaded, _) =
            (load_author_thread_iff R program_id thread_account b authority t).0 e in
          let g = loaded-IsGood thread_account t b h loaded in
          write_thread (record t { like_fee = fee }) thread_account b
            (record { range = ground arith; tagged = g.tagged; dense = ground arith }) h

    module _ {rent : ℕ → ℕ} (rent_ok : R.rent ≡ ok rent) where
      pub process_prepare_alloc-keeps :
          (alloc_seq : ℕ)
          → Holds
              (λ _ b'. SoundBank R program_id b')
              (process_prepare_alloc R program_id accounts alloc_seq b)
      unfolding process_prepare_alloc
      process_prepare_alloc-keeps alloc_seq = Holds-take accounts _ b keyed λ payer r1 _ k1.
          Holds-take r1 _ b k1 λ current_alloc_account r2 _ k2.
            Holds-take r2 _ b k2 λ new_alloc_account r3 _ k3.
              Holds-take r3 _ b k3 λ thread_account r4 _ k4.
                Holds-take r4 _ b k4 λ system_program_account r5 _ _. Holds-check _ _ b λ _ _.
                  Holds-check _ _ b λ _ _. Holds-check _ _ b λ _ _. Holds-check _ _ b λ _ _.
                    Holds-check _ _ b λ _ _. Holds-check _ _ b λ current _.
                      Holds-fail_if _ _ _ b λ _. Holds-fail_if _ _ _ b λ same_seq.
                        Holds-check _ _ b λ t loaded. Holds-fail_if _ _ _ b λ is_last.
                          Holds-check _ _ b λ new_seq next. Holds-check _ _ b λ _ _.
                            Holds-check _ _ b λ _ _.
                              let g = loaded-IsGood thread_account t b h loaded in
                              Holds-bind _ _ b
                                (create_pda_account-keeps L program_id Nowhere rent_ok payer
                                  new_alloc_account system_program_account _ _ b h)
                                λ _ b1 h1.
                                  Holds-bind _ _ b1
                                    (write_alloc thread_account.key new_seq new_alloc_account b1 h1)
                                    λ _ b2 h2. Holds-check _ _ b2 λ count more.
                                      write_thread
                                        (record t { alloc_count = count; last_alloc_seq = new_seq })
                                        thread_account b2
                                        (record {
                                          range = ground arith;
                                          tagged = g.tagged;
                                          dense = ground arith;
                                        })
                                        h2

      pub process_create_root_alloc-keeps :
          (message_fee treasury_shard_idx : ℕ) (title : Bytes)
          → Fits 8 message_fee
          → All (Fits 1) title
          → Holds
              (λ _ b'. SoundBank R program_id b')
              (process_create_root_alloc R program_id accounts message_fee treasury_shard_idx title
                b)
      unfolding process_create_root_alloc
      process_create_root_alloc-keeps message_fee treasury_shard_idx title fits bytes_of =
          Holds-fail_if _ _ _ b λ short. Holds-take accounts _ b keyed λ payer r1 fits_payer k1.
            Holds-take r1 _ b k1 λ thread_account r2 _ k2.
              Holds-take r2 _ b k2 λ alloc_account r3 _ k3.
                Holds-take r3 _ b k3 λ settings_account r4 _ k4.
                  Holds-take r4 _ b k4 λ treasury_shard r5 _ k5.
                    Holds-take r5 _ b k5 λ system_program_account r6 _ _. Holds-check _ _ b λ _ _.
                      Holds-check _ _ b λ _ _. Holds-check _ _ b λ _ _. Holds-check _ _ b λ _ _.
                        Holds-check _ _ b λ _ _. Holds-check _ _ b λ _ _.
                          Holds-check _ _ b λ settings _. Holds-check _ _ b λ _ _.
                            Holds-check _ _ b λ bump _. Holds-check _ _ b λ _ _.
                              Holds-check _ _ b λ _ _.
                                let size = thread_node_size (length title) in
                                Holds-bind _ _ b
                                  (ensure_shard_initialized-keeps L program_id Nowhere rent_ok payer
                                    treasury_shard system_program_account
                                    (treasury_shard_seed ∷ to_le_bytes 2 treasury_shard_idx ∷ [])
                                    bump b h)
                                  λ _ b1 h1. Holds-lift _ _ b1 rent_ok (
                                    Holds-bind _ _ b1
                                      (Holds-run
                                        (R.create_account payer thread_account (rent size) size
                                          program_id [])
                                        b1)
                                      λ _ b2 made. Holds-check _ _ b2 λ combined _.
                                        let h2 =
                                          create_account-keeps L program_id Nowhere payer
                                            thread_account (rent size) size program_id [] b1 b2 made
                                            h1 in
                                        Holds-bind _ _ b2
                                          (collect_base_fee-keeps L program_id Nowhere rent_ok
                                            combined settings.base_fee_bps payer treasury_shard b2
                                            h2)
                                          λ _ b3 h3.
                                            Holds-bind _ _ b3
                                              (create_pda_account-keeps L program_id Nowhere rent_ok
                                                payer alloc_account system_program_account _ _ b3
                                                h3)
                                              λ _ b4 h4.
                                                Holds-bind _ _ b4
                                                  (write_thread
                                                    (thread_of payer.key message_fee title)
                                                    thread_account b4
                                                    (record {
                                                      range = ground arith;
                                                      tagged = refl;
                                                      dense = ground arith;
                                                    })
                                                    h4)
                                                  λ _ b5 h5.
                                                    write_alloc thread_account.key 0 alloc_account
                                                      b5 h5)
