-- ===== src/Processor/LikeContent/Counts.antt =====
-- The like counters (`record_like` of src/processor/like_content.rs and the reset of
-- src/processor/close_account.rs): one entry changes, the others stay.
use txtcel_program.Base.{
  ℕ, zero, suc, ◌+◌, ◌-◌, ◌<◌, ◌≡◌, ◌≢◌, refl, sym, ap, ◌∙◌, some, Option-cases, inl, inr, List, [],
  ◌∷◌, length, get_elem?, set, length-set, get_elem?-set_self, get_elem?-set_ne, All,
  saturating_add, u32_mod, min, arith,
}
use txtcel_program.Error.{ok}
use txtcel_program.Borsh.Laws.{Fits}
use txtcel_program.Runtime.{Pubkey, Bank, AccountInfo, Runtime}
use txtcel_program.Runtime.Laws.{IsRuntime}
use txtcel_program.Runtime.Hoare.{Holds, held, Holds-check, Holds-mono}
use txtcel_program.Runtime.Storage.{Rewritten-lamports, rewrite-Rewritten, try_from_slice-some}
use txtcel_program.Runtime.Tx.{serialize}
use txtcel_program.State.Accounts.{AllocLikes, alloc_likes_size}
use txtcel_program.State.Codecs.{alloc_likes_codec}
use txtcel_program.State.Codecs.Sizes.{alloc_likes_codec-HasSize}
use txtcel_program.State.Codecs.RoundTrip.{AllocLikesInRange, alloc_likes_codec-RoundTrips}
use txtcel_program.State.Codecs.Canonical.{alloc_likes_codec-Canonical}
use txtcel_program.State.Loaders.{load_alloc_likes}
use txtcel_program.State.Loaders.Facts.{load_alloc_likes_iff}
use txtcel_program.Processor.LikeContent.{bump_count, record_like}

-- The counters before and after: the one at `slot` goes from `before` to `after`, the others stay.
pub record Counted (R : Runtime) (account : AccountInfo) (slot : ℕ) (b b' : Bank) : Type 0 where
  pub before : ℕ
  pub after : ℕ
  pub old : AllocLikes
  pub new : AllocLikes
  pub loaded : load_alloc_likes R account b ≡ ok old
  pub stored : load_alloc_likes R account b' ≡ ok new
  pub seq : new.alloc_seq ≡ old.alloc_seq
  pub was : get_elem? old.counts slot ≡ some before
  pub is : get_elem? new.counts slot ≡ some after
  pub at_others : (i : ℕ) → i ≢ slot → get_elem? new.counts i ≡ get_elem? old.counts i
  pub others : (k : Pubkey) → k ≢ account.key → b' k ≡ b k
  pub lamports : (k : Pubkey) → (b' k).lamports ≡ (b k).lamports

pub All-set : (P : ℕ → Type 0) (xs : List ℕ) (i v : ℕ) → P v → All P xs → All P (set xs i v)
All-set P [] i v p h = tt
All-set P (x ∷ xs) zero v p (hx, h) = (p, h)
All-set P (x ∷ xs) (suc i) v p (hx, h) = (hx, All-set P xs i v p h)

get_elem?-length : (xs : List ℕ) (i n : ℕ) → get_elem? xs i ≡ some n → i < length xs
get_elem?-length [] i n e = cc
get_elem?-length (x ∷ xs) zero n e = omega arith
get_elem?-length (x ∷ xs) (suc i) n e = omega (arith, get_elem?-length xs i n e)

module _ {R : Runtime} (L : IsRuntime R) (program_id : Pubkey) (account : AccountInfo) where
  pub store-Counted :
      (old : AllocLikes) (slot n v : ℕ) (b : Bank)
      → load_alloc_likes R account b ≡ ok old
      → get_elem? old.counts slot ≡ some n
      → Fits 4 v
      → Holds
          (λ _ b'. (c : Counted R account slot b b') × (c.before ≡ n) × (c.after ≡ v))
          (serialize
            (alloc_likes_codec R.borsh)
            (record old { counts = set old.counts slot v })
            account
            b)
  store-Counted old slot n v b loaded found fits =
      let l = L.is_borsh in
      let c = alloc_likes_codec R.borsh in
      let (decoded, tagged) = (load_alloc_likes_iff R program_id account b old).0 loaded in
      let known : AllocLikesInRange old =
        (try_from_slice-some c (alloc_likes_codec-Canonical l) _ old decoded).1 in
      let counts = set old.counts slot v in
      let new : AllocLikes = record { tag = old.tag; alloc_seq = old.alloc_seq; counts = counts } in
      let size = length-set old.counts slot v ∙ known.counts_length in
      Holds-mono
        (rewrite-Rewritten c (alloc_likes_codec-Canonical l) old new alloc_likes_size account b
          (alloc_likes_codec-HasSize l old known.counts_length)
          (alloc_likes_codec-HasSize l new size)
          (alloc_likes_codec-RoundTrips l new (record {
            tag = known.tag;
            alloc_seq = known.alloc_seq;
            counts_length = size;
            counts = All-set (Fits 4) old.counts slot v fits known.counts;
          }))
          decoded)
        λ _ b' w. held (
          record {
            before = n;
            after = v;
            old = old;
            new = new;
            loaded = loaded;
            stored = (load_alloc_likes_iff R program_id account b' new).1 (w.decoded, tagged);
            seq = refl;
            was = found;
            is = get_elem?-set_self old.counts slot v (get_elem?-length old.counts slot n found);
            at_others = λ i ne. get_elem?-set_ne old.counts slot i v (λ q. ne (sym q));
            others = w.others;
            lamports = λ k. Rewritten-lamports w k;
          },
          refl,
          refl,
        )

bump_count_ok :
    (counts : List ℕ) (slot : ℕ) (b : Bank) (r : List ℕ)
    → bump_count counts slot b ≡ ok r
    → (n : ℕ) × (get_elem? counts slot ≡ some n)
      × (set counts slot (saturating_add u32_mod n 1) ≡ r)
bump_count_ok counts slot b r e = elim (Option-cases (get_elem? counts slot)) [
  | inl gone ↦ ground arith
  | inr (n, found) ↦ (n, found, ground arith)
]

module _ {R : Runtime} (L : IsRuntime R) (program_id : Pubkey) (account : AccountInfo)
    (slot : ℕ) where
  -- A like that is recorded raises the slot's counter by one, up to 2^32 - 1.
  pub likes :
      (b : Bank)
      → Holds
          (λ _ b'. (c : Counted R account slot b b') × (c.after ≡ min (c.before + 1) (u32_mod - 1)))
          (record_like R program_id account slot b)
  unfolding record_like
  likes b = Holds-check _ _ b λ _ _. Holds-check _ _ b λ old loaded.
      Holds-check _ _ b λ counts bumped.
        let (n, found, same) = bump_count_ok old.counts slot b counts bumped in
        let v = saturating_add u32_mod n 1 in
        rw (sym same) (
          Holds-mono (store-Counted L program_id account old slot n v b loaded found (omega arith))
            λ _ b' (c, e, e'). held (c, e' ∙ ap (λ m. min (m + 1) (u32_mod - 1)) (sym e)))
