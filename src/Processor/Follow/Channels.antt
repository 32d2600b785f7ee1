-- ===== src/Processor/Follow/Channels.antt =====
-- The list of followed channels (`push`, `position` and `swap_remove` in src/processor/subscribe.rs and
-- unsubscribe.rs), as a bag of keys.
use txtcel_program.Base.{
  ℕ, zero, suc, ◌+◌, ◌≡◌, refl, sym, ap, ◌∙◌, ◌==◌, Bool, true, false, some, inl, inr, Option-cases,
  List, [], ◌∷◌, get_elem?, set, arith,
}
use txtcel_program.Runtime.{Pubkey}
use txtcel_program.Processor.Follow.{position, swap_remove, last_or, drop_last}

abbrev pub one_if : Bool → ℕ
one_if true = 1
one_if false = 0

-- How often a key is on the list.
abbrev pub occurrences : Pubkey → List Pubkey → ℕ
occurrences k [] = 0
occurrences k (c ∷ cs) = one_if (c == k) + occurrences k cs

occurrences-set :
    (k v x : Pubkey) (i : ℕ) (cs : List Pubkey)
    → get_elem? cs i ≡ some x
    → occurrences k (set cs i v) + one_if (x == k) ≡ occurrences k cs + one_if (v == k)
occurrences-set k v x i [] e = cc
occurrences-set k v x zero (c ∷ cs) e = let same : c ≡ x = ground arith in rw same (omega arith)
occurrences-set k v x (suc i) (c ∷ cs) e = omega (arith, occurrences-set k v x i cs e)

occurrences-drop_last :
    (k d : Pubkey) (c : Pubkey) (cs : List Pubkey)
    → occurrences k (drop_last (c ∷ cs)) + one_if (last_or d (c ∷ cs) == k) ≡ occurrences k (c ∷ cs)
occurrences-drop_last k d c [] = omega arith
occurrences-drop_last k d c (e ∷ cs) = omega (arith, occurrences-drop_last k c e cs)

last_or-set :
    (d v : Pubkey) (i : ℕ) (c : Pubkey) (cs : List Pubkey)
    → v ≡ last_or d (c ∷ cs)
    → last_or d (set (c ∷ cs) i v) ≡ v
last_or-set d v zero c [] e = refl
last_or-set d v zero c (e' ∷ cs) e = sym e
last_or-set d v (suc i) c [] e = sym e
last_or-set d v (suc i) c (e' ∷ cs) e = last_or-set c v i e' cs e

set-occurrences_last :
    (k x d : Pubkey) (i : ℕ) (c : Pubkey) (cs : List Pubkey)
    → get_elem? (c ∷ cs) i ≡ some x
    → occurrences k (drop_last (set (c ∷ cs) i (last_or d (c ∷ cs)))) + one_if (x == k)
      ≡ occurrences k (c ∷ cs)
set-occurrences_last k x d zero c cs e =
    let v = last_or d (c ∷ cs) in
    omega (
      arith,
      occurrences-set k v x zero (c ∷ cs) e,
      occurrences-drop_last k d v cs,
      ap (λ t. one_if (t == k)) (last_or-set d v zero c cs refl),
    )
set-occurrences_last k x d (suc i) c cs e =
    let v = last_or d (c ∷ cs) in
    omega (
      arith,
      occurrences-set k v x (suc i) (c ∷ cs) e,
      occurrences-drop_last k d c (set cs i v),
      ap (λ t. one_if (t == k)) (last_or-set d v (suc i) c cs refl),
    )

position-some :
    (key : Pubkey) (i : ℕ) (cs : List Pubkey) → position key cs ≡ some i → get_elem? cs i ≡ some key
unfolding position
position-some key i [] e = cc
position-some key zero (c ∷ cs) e = elim (Option-cases (position key cs)) [
  | inl gone ↦ ground arith
  | inr (j, found) ↦ ground arith
]
position-some key (suc i) (c ∷ cs) e = elim (Option-cases (position key cs)) [
  | inl gone ↦ ground arith
  | inr (j, found) ↦
      let same : j ≡ i = ground arith in position-some key i cs (found ∙ ap some same)
]

pub swap_remove-position :
    (key : Pubkey) (i : ℕ) (cs : List Pubkey)
    → position key cs ≡ some i
    → (k : Pubkey) → occurrences k (swap_remove i cs) + one_if (key == k) ≡ occurrences k cs
unfolding swap_remove
swap_remove-position key i [] e k = let found = position-some key i [] e in cc
swap_remove-position key i (c ∷ cs) e k =
    set-occurrences_last k key 0 i c cs (position-some key i (c ∷ cs) e)
