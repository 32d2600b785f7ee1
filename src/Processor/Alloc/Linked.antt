-- ===== src/Processor/Alloc/Linked.antt =====
-- What is written into the new node and the thread when a chain is extended
-- (src/processor/prepare_alloc.rs).
use txtcel_program.Base.{
  ℕ, ◌+◌, ◌<◌, ◌≡◌, ◌≢◌, refl, sym, ap, ◌∙◌, true, length, replicate, some, checked_add, u32_mod,
  arith,
}
use txtcel_program.Error.{ok, invalid_account_data}
use txtcel_program.Borsh.{try_from_slice}
use txtcel_program.Borsh.Laws.{Fits, IsBorsh}
use txtcel_program.Runtime.{Pubkey, Account, Bank, AccountInfo, Runtime}
use txtcel_program.Runtime.Laws.{IsRuntime}
use txtcel_program.Runtime.Hoare.{Holds, held, Holds-bind, Holds-check, Holds-mono}
use txtcel_program.Runtime.Storage.{
  Rewritten, rewrite-Rewritten, write_new-Rewritten, try_from_slice-some,
}
use txtcel_program.Runtime.Tx.{serialize, check, ◌>>=◌}
use txtcel_program.Runtime.Check.{or_fail}
use mathlib.Core.Path.{subst}
use txtcel_program.State.Constants.{tag_alloc}
use txtcel_program.State.Accounts.{AllocNode, ThreadNode, alloc_node_size, thread_node_size}
use txtcel_program.State.Codecs.{alloc_node_codec, thread_node_codec}
use txtcel_program.State.Codecs.Sizes.{alloc_node_codec-HasSize, thread_node_codec-HasSize}
use txtcel_program.State.Codecs.RoundTrip.{
  ThreadNodeInRange, alloc_node_codec-RoundTrips, thread_node_codec-RoundTrips,
}
use txtcel_program.State.Codecs.Canonical.{alloc_node_codec-Canonical, thread_node_codec-Canonical}
use txtcel_program.State.Pda.{derive_alloc_pda}
use txtcel_program.State.Asserts.{is_uninitialized}
use txtcel_program.State.Asserts.Facts.{is_uninitialized-owner}
use txtcel_program.State.AccountUtils.Effects.{Frame}
use txtcel_program.State.Loaders.{load_alloc, load_thread}
use txtcel_program.State.Loaders.Facts.{load_alloc_iff, load_thread_iff}

-- The node of a thread with a sequence number, and the thread with one node more.
abbrev pub node_of : Pubkey → ℕ → AllocNode
node_of thread seq = record { tag = tag_alloc; thread = thread; alloc_seq = seq }

abbrev pub extended : ThreadNode → ThreadNode
extended t = record t { alloc_count = t.alloc_count + 1; last_alloc_seq = t.last_alloc_seq + 1 }

module _ {R : Runtime} (L : IsRuntime R) (program_id : Pubkey)
    (current_alloc_account new_alloc_account thread_account : AccountInfo) where
  abbrev l : IsBorsh R.borsh
  l = L.is_borsh

  pub current_is :
      (current : AllocNode) (alloc_seq : ℕ) (b : Bank)
      → load_alloc R program_id current_alloc_account b ≡ ok current
      → current.thread ≡ thread_account.key
      → current.alloc_seq ≡ alloc_seq
      → (load_alloc R program_id current_alloc_account b
          ≡ ok (node_of thread_account.key alloc_seq))
        × Fits 32 thread_account.key
  current_is current alloc_seq b loaded is_thread is_seq =
      let (_, decoded, tagged, _) =
        (load_alloc_iff R program_id current_alloc_account b current).0 loaded in
      let c = alloc_node_codec R.borsh in
      let known = (try_from_slice-some c (alloc_node_codec-Canonical l) _ current decoded).1 in
      let same : current ≡ node_of thread_account.key alloc_seq = cc in
      (loaded ∙ ap ok same, subst (Fits 32) is_thread known.thread)

  pub new-not-thread :
      program_id ≢ R.system_id
      → (thread : ThreadNode) (b : Bank) → load_thread R program_id thread_account b ≡ ok thread
      → is_uninitialized R new_alloc_account b ≡ true
      → new_alloc_account.key ≢ thread_account.key
  new-not-thread ours thread b loaded fresh q =
      let (owned, _, _) = (load_thread_iff R program_id thread_account b thread).0 loaded in
      ours (
        sym owned
        ∙ ap (λ k. (b k).owner) (sym q)
        ∙ is_uninitialized-owner R new_alloc_account b fresh)

  extended_in_range :
      (t : ThreadNode)
      → ThreadNodeInRange t
      → t.alloc_count + 1 < u32_mod
      → t.last_alloc_seq + 1 < u32_mod
      → ThreadNodeInRange (extended t)
  extended_in_range t h count seq = record {
    tag = h.tag;
    alloc_count = count;
    last_alloc_seq = seq;
    author = h.author;
    message_fee = h.message_fee;
    like_fee = h.like_fee;
    title_length = h.title_length;
    title = h.title;
  }

  -- The writes of the two accounts, from the bank in which the new account was created.
  written :
      (old : ThreadNode) (b b1 b2 b3 : Bank)
      → new_alloc_account.key ≢ thread_account.key
      → load_thread R program_id thread_account b ≡ ok old
      → new_alloc_account.key
        ≡ (derive_alloc_pda R program_id thread_account.key (old.last_alloc_seq + 1)).0
      → (b1 new_alloc_account.key).owner ≡ program_id
      → Frame new_alloc_account.key b b1
      → Rewritten
          (try_from_slice (alloc_node_codec R.borsh))
          new_alloc_account.key
          (node_of thread_account.key (old.last_alloc_seq + 1))
          b1
          b2
      → Rewritten
          (try_from_slice (thread_node_codec R.borsh))
          thread_account.key
          (extended old)
          b2
          b3
      → (load_thread R program_id thread_account b3 ≡ ok (extended old))
        × (load_alloc R program_id new_alloc_account b3
            ≡ ok (node_of thread_account.key (old.last_alloc_seq + 1)))
  written old b b1 b2 b3 ne loaded at owned frame w w' =
      let (owned', decoded, tagged) =
        (load_thread_iff R program_id thread_account b old).0 loaded in
      let kept : b2 thread_account.key ≡ b1 thread_account.key =
        w.others thread_account.key (λ q. ne (sym q)) in
      let kept' : b3 new_alloc_account.key ≡ b2 new_alloc_account.key =
        w'.others new_alloc_account.key ne in
      (
        (load_thread_iff R program_id thread_account b3 (extended old)).1 (
          w'.owner
              ∙ ap (λ (t : Account). t.owner) kept
              ∙ frame.owner thread_account.key (λ q. ne (sym q))
              ∙ owned',
          w'.decoded,
          tagged,
        ),
        (load_alloc_iff R program_id new_alloc_account b3
              (node_of thread_account.key (old.last_alloc_seq + 1))).1
            (
              ap (λ (t : Account). t.owner) kept' ∙ w.owner ∙ owned,
              ap (λ (t : Account). try_from_slice (alloc_node_codec R.borsh) t.bytes) kept'
                  ∙ w.decoded,
              refl,
              at,
            ),
      )

  -- The last three steps, once the new account is created.
  pub stores :
      (thread : ThreadNode) (b b1 : Bank)
      → new_alloc_account.key ≢ thread_account.key
      → Fits 32 thread_account.key
      → thread.last_alloc_seq + 1 < u32_mod
      → load_thread R program_id thread_account b ≡ ok thread
      → new_alloc_account.key
        ≡ (derive_alloc_pda R program_id thread_account.key (thread.last_alloc_seq + 1)).0
      → (b1 new_alloc_account.key).owner ≡ program_id
      → (b1 new_alloc_account.key).bytes ≡ replicate alloc_node_size 0
      → Frame new_alloc_account.key b b1
      → Holds
          (λ _ b3.
            (load_thread R program_id thread_account b3 ≡ ok (extended thread))
            × (load_alloc R program_id new_alloc_account b3
                ≡ ok (node_of thread_account.key (thread.last_alloc_seq + 1))))
          ((serialize
                (alloc_node_codec R.borsh)
                (node_of thread_account.key (thread.last_alloc_seq + 1))
                new_alloc_account
              >>= λ _.
                  (check (or_fail (checked_add u32_mod thread.alloc_count 1) invalid_account_data)
                    >>= λ alloc_count.
                        serialize
                          (thread_node_codec R.borsh)
                          (record thread {
                            alloc_count = alloc_count;
                            last_alloc_seq = thread.last_alloc_seq + 1;
                          })
                          thread_account))
            b1)
  stores thread b b1 ne fits_thread seq_fits loaded at owned zeros frame =
      let (_, decoded, _) = (load_thread_iff R program_id thread_account b thread).0 loaded in
      let c = alloc_node_codec R.borsh in
      let d = thread_node_codec R.borsh in
      let known = (try_from_slice-some d (thread_node_codec-Canonical l) _ thread decoded).1 in
      let node = node_of thread_account.key (thread.last_alloc_seq + 1) in
      let apart : thread_account.key ≢ new_alloc_account.key = λ q. ne (sym q) in
      Holds-bind _ _ b1
        (write_new-Rewritten c (alloc_node_codec-Canonical l) node alloc_node_size new_alloc_account
          b1 (alloc_node_codec-HasSize l node)
          (alloc_node_codec-RoundTrips l node
            (record { tag = omega arith; thread = fits_thread; alloc_seq = seq_fits }))
          zeros)
        λ _ b2 w. Holds-check _ _ b2 λ count more.
          let count_is : count ≡ thread.alloc_count + 1 = ground arith in
          let count_fits : thread.alloc_count + 1 < u32_mod = ground arith in
          let still : try_from_slice d (b2 thread_account.key).bytes ≡ some thread =
            ap (λ (t : Account). try_from_slice d t.bytes) (w.others thread_account.key apart)
            ∙ ap (try_from_slice d) (frame.bytes thread_account.key apart)
            ∙ decoded in
          rw count_is (
            Holds-mono
              (rewrite-Rewritten d (thread_node_codec-Canonical l) thread (extended thread)
                (thread_node_size (length thread.title)) thread_account b2
                (thread_node_codec-HasSize l thread) (thread_node_codec-HasSize l (extended thread))
                (thread_node_codec-RoundTrips l (extended thread)
                  (extended_in_range thread known count_fits seq_fits))
                still)
              λ _ b3 w'. held (written thread b b1 b2 b3 ne loaded at owned frame w w'))
