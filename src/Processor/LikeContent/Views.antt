-- ===== src/Processor/LikeContent/Views.antt =====
-- The likes of a slot, whether or not there are counters yet (src/processor/like_content.rs).
use txtcel_program.Base.{
  ℕ, zero, suc, ◌+◌, ◌-◌, ◌≡◌, ◌≢◌, refl, sym, ap, ◌∙◌, Option, none, some, [], length, get_elem?,
  replicate, length-replicate, All, min, u32_mod, arith,
}
use txtcel_program.Error.{ok}
use txtcel_program.Borsh.Laws.{Fits}
use txtcel_program.Runtime.{Pubkey, Bank, AccountInfo, Runtime}
use txtcel_program.Runtime.Laws.{IsRuntime}
use txtcel_program.Runtime.Views.{value_of, value_of-same, value_of-missing}
use txtcel_program.Runtime.Hoare.{Holds, held, Holds-bind, Holds-mono}
use txtcel_program.Runtime.Storage.{write_new-Rewritten, try_from_slice-some}
use txtcel_program.State.Constants.{content_slots, tag_likes}
use txtcel_program.State.Accounts.{AllocLikes, alloc_likes_size}
use txtcel_program.State.Codecs.{alloc_likes_codec}
use txtcel_program.State.Codecs.Sizes.{alloc_likes_codec-HasSize}
use txtcel_program.State.Codecs.RoundTrip.{alloc_likes_codec-RoundTrips}
use txtcel_program.State.Codecs.Canonical.{alloc_likes_codec-Canonical}
use txtcel_program.State.AccountUtils.Effects.{create_pda_account-Created}
use txtcel_program.State.Loaders.{load_alloc_likes}
use txtcel_program.State.Loaders.Facts.{load_alloc_likes_iff}
use txtcel_program.Processor.LikeContent.{create_likes}
use txtcel_program.Processor.LikeContent.Counts.{Counted}

abbrev or_zero : Option ℕ → ℕ
or_zero none = 0
or_zero (some n) = n

-- The likes of a slot, none where nothing is counted yet.
abbrev pub likes_at : Runtime → AccountInfo → ℕ → Bank → ℕ
likes_at R account slot b =
    value_of (λ (x : AllocLikes). or_zero (get_elem? x.counts slot)) 0
      (load_alloc_likes R account b)

zeros : (n i : ℕ) → or_zero (get_elem? (replicate n 0) i) ≡ 0
zeros zero i = refl
zeros (suc n) zero = refl
zeros (suc n) (suc i) = zeros n i

zeros-fit : (n : ℕ) → All (Fits 4) (replicate n 0)
zeros-fit zero = tt
zeros-fit (suc n) = (omega arith, zeros-fit n)

module _ {R : Runtime} (L : IsRuntime R) (likes_account : AccountInfo) where
  pub likes_at-same :
      (b b' : Bank)
      → (b' likes_account.key).bytes ≡ (b likes_account.key).bytes
      → (i : ℕ) → likes_at R likes_account i b' ≡ likes_at R likes_account i b
  likes_at-same b b' e i =
      value_of-same _ _ _ _
        (λ x h.
          let (decoded, tagged) = (load_alloc_likes_iff R 0 likes_account b' x).0 h in
          (load_alloc_likes_iff R 0 likes_account b x).1 (rw (← e) decoded, tagged))
        (λ x h.
          let (decoded, tagged) = (load_alloc_likes_iff R 0 likes_account b x).0 h in
          (load_alloc_likes_iff R 0 likes_account b' x).1 (rw e decoded, tagged))

  pub likes_at-empty :
      (b : Bank) → (b likes_account.key).bytes ≡ [] → (i : ℕ) → likes_at R likes_account i b ≡ 0
  unfolding alloc_likes_size
  likes_at-empty b e i = value_of-missing _ _ (load_alloc_likes R likes_account b) λ x loaded.
      let c = alloc_likes_codec R.borsh in
      let (decoded, _) = (load_alloc_likes_iff R 0 likes_account b x).0 loaded in
      let (same, known) =
        try_from_slice-some c (alloc_likes_codec-Canonical L.is_borsh) _ x decoded in
      let none_left =
        sym (alloc_likes_codec-HasSize L.is_borsh x known.counts_length [])
        ∙ ap length (sym same ∙ e) in
      omega (arith, none_left)

  -- New counters count nothing.
  pub create_likes-zero :
      (program_id : Pubkey) (payer system_program_account : AccountInfo) (thread_key : Pubkey)
      (alloc_seq bump : ℕ) {rent : ℕ → ℕ} (b : Bank)
      → R.rent ≡ ok rent
      → Fits 4 alloc_seq
      → Holds
          (λ _ b'. (i : ℕ) → likes_at R likes_account i b' ≡ 0)
          (create_likes R program_id payer likes_account system_program_account thread_key alloc_seq
            bump b)
  unfolding create_likes
  create_likes-zero program_id payer system_program_account thread_key alloc_seq bump b rent_ok
        fits =
      let c = alloc_likes_codec R.borsh in
      let l = L.is_borsh in
      let new : AllocLikes = record {
        tag = tag_likes;
        alloc_seq = alloc_seq;
        counts = replicate content_slots 0;
      } in
      let size = length-replicate {A = ℕ} content_slots 0 in
      Holds-bind _ _ b
        (create_pda_account-Created L program_id payer likes_account system_program_account _ _ b
          rent_ok)
        λ _ b1 made.
          Holds-mono
            (write_new-Rewritten c (alloc_likes_codec-Canonical l) new alloc_likes_size
              likes_account b1 (alloc_likes_codec-HasSize l new size)
              (alloc_likes_codec-RoundTrips l new (record {
                tag = omega arith;
                alloc_seq = fits;
                counts_length = size;
                counts = zeros-fit content_slots;
              }))
              made.bytes)
            λ _ b' w. held λ i.
              ap (value_of (λ (x : AllocLikes). or_zero (get_elem? x.counts i)) 0)
                ((load_alloc_likes_iff R program_id likes_account b' new).1 (w.decoded, refl))
              ∙ zeros content_slots i

module _ {R : Runtime} {account : AccountInfo} {slot : ℕ} {b b' : Bank}
    (c : Counted R account slot b b') where
  pub Counted-liked :
      c.after ≡ min (c.before + 1) (u32_mod - 1)
      → likes_at R account slot b' ≡ min (likes_at R account slot b + 1) (u32_mod - 1)
  Counted-liked raised =
      let before : likes_at R account slot b ≡ c.before =
        ap (value_of (λ (x : AllocLikes). or_zero (get_elem? x.counts slot)) 0) c.loaded
        ∙ ap or_zero c.was in
      let after : likes_at R account slot b' ≡ c.after =
        ap (value_of (λ (x : AllocLikes). or_zero (get_elem? x.counts slot)) 0) c.stored
        ∙ ap or_zero c.is in
      after ∙ raised ∙ ap (λ (n : ℕ). min (n + 1) (u32_mod - 1)) (sym before)

  pub Counted-others : (i : ℕ) → i ≢ slot → likes_at R account i b' ≡ likes_at R account i b
  Counted-others i ne =
      ap (value_of (λ (x : AllocLikes). or_zero (get_elem? x.counts i)) 0) c.stored
      ∙ ap or_zero (c.at_others i ne)
      ∙ sym (ap (value_of (λ (x : AllocLikes). or_zero (get_elem? x.counts i)) 0) c.loaded)
