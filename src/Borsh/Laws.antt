-- ===== src/Borsh/Laws.antt =====
-- What the Borsh format documents of the primitive encodings: widths and round trips.
use txtcel_program.Base.{
  ℕ, ◌+◌, ◌*◌, ◌^◌, ◌<◌, ◌≡◌, refl, Bool, Option, none, some, List, [], ◌∷◌, ◌++◌, sym, ap, length,
  All, u32_mod,
}
use mathlib.Core.Path.{◌≡⟨◌⟩◌, ◌∎}
use mathlib.Core.List.{append_assoc}
use txtcel_program.Base.Int.{ℤ, ◌≤ℤ◌, i64_min, i64_max}
use txtcel_program.Borsh.{Bytes, Codec, Borsh, ◌>>=◌}

-- A value of `w` bytes.
abbrev pub Fits : ℕ → ℕ → Type 0
Fits w n = n < 256 ^ w

abbrev pub FitsI64 : ℤ → Type 0
FitsI64 x = (i64_min ≤ℤ x) × (x ≤ℤ i64_max)

abbrev pub RoundTrips : {A : Type 0} → Codec A → A → Type 0
RoundTrips c x = (rest : Bytes) → c.get (c.put x rest) ≡ some (x, rest)

abbrev pub HasSize : {A : Type 0} → Codec A → A → ℕ → Type 0
HasSize c x n = (rest : Bytes) → length (c.put x rest) ≡ n + length rest

-- The encoding stands in front of what follows it.
abbrev pub IsFront : (Bytes → Bytes) → Type 0
IsFront put = (rest : Bytes) → put rest ≡ put [] ++ rest

-- What is decoded is in range, and is the only value with that encoding.
abbrev pub Canonical : {A : Type 0} → Codec A → (A → Type 0) → Type 0
Canonical {A} c P =
    (bytes : Bytes) (x : A) (rest : Bytes)
    → c.get bytes ≡ some (x, rest)
    → (bytes ≡ c.put x rest) × P x

abbrev pub FitsVec : ℕ → List ℕ → Type 0
FitsVec w xs = (length xs < u32_mod) × All (Fits w) xs

abbrev pub FitsPairs : ℕ → ℕ → List (ℕ × ℕ) → Type 0
FitsPairs v w xs = (length xs < u32_mod) × All (λ x. Fits v x.0 × Fits w x.1) xs

abbrev pub FitsArray : ℕ → ℕ → List ℕ → Type 0
FitsArray n w xs = (length xs ≡ n) × All (Fits w) xs

pub record IsBorsh (b : Borsh) : Type 0 where
  pub int_front : (w n : ℕ) → IsFront ((b.int w).put n)
  pub bool_front : (x : Bool) → IsFront (b.bool.put x)
  pub i64_front : (x : ℤ) → IsFront (b.i64.put x)
  pub vec_front : (w : ℕ) (xs : List ℕ) → IsFront ((b.vec w).put xs)
  pub int_byte : (n : ℕ) (rest : Bytes) → Fits 1 n → (b.int 1).put n rest ≡ n ∷ rest
  pub int_size : (w n : ℕ) → HasSize (b.int w) n w
  pub int_round : (w n : ℕ) → Fits w n → RoundTrips (b.int w) n
  pub i64_size : (x : ℤ) → HasSize b.i64 x 8
  pub i64_round : (x : ℤ) → FitsI64 x → RoundTrips b.i64 x
  pub bool_size : (x : Bool) → HasSize b.bool x 1
  pub bool_round : (x : Bool) → RoundTrips b.bool x
  pub vec_size : (w : ℕ) (xs : List ℕ) → HasSize (b.vec w) xs (4 + length xs * w)
  pub vec_round :
      (w : ℕ) (xs : List ℕ) → length xs < u32_mod → All (Fits w) xs → RoundTrips (b.vec w) xs
  pub array_size : (n w : ℕ) (xs : List ℕ) → length xs ≡ n → HasSize (b.array n w) xs (n * w)
  pub array_round :
      (n w : ℕ) (xs : List ℕ) → length xs ≡ n → All (Fits w) xs → RoundTrips (b.array n w) xs
  pub vec_pair_round :
      (v w : ℕ) (xs : List (ℕ × ℕ))
      → length xs < u32_mod
      → All (λ x. Fits v x.0 × Fits w x.1) xs
      → RoundTrips (b.vec_pair v w) xs
  pub int_canonical : (w : ℕ) → Canonical (b.int w) (Fits w)
  pub i64_canonical : Canonical b.i64 FitsI64
  pub bool_canonical : Canonical b.bool (λ _. Unit {0})
  pub vec_canonical : (w : ℕ) → Canonical (b.vec w) (FitsVec w)
  pub vec_pair_canonical : (v w : ℕ) → Canonical (b.vec_pair v w) (FitsPairs v w)
  pub array_canonical : (n w : ℕ) → Canonical (b.array n w) (FitsArray n w)

-- One encoding in front of another.
pub IsFront-then : {f g : Bytes → Bytes} → IsFront f → IsFront g → IsFront (λ rest. f (g rest))
IsFront-then {f} {g} hf hg rest =
    f (g rest)
    ≡⟨ hf (g rest) ⟩ f [] ++ g rest
    ≡⟨ ap (λ t. f [] ++ t) (hg rest) ⟩ f [] ++ (g [] ++ rest)
    ≡⟨ sym (append_assoc (f []) (g []) rest) ⟩ (f [] ++ g []) ++ rest
    ≡⟨ ap (λ t. t ++ rest) (sym (hf (g []))) ⟩ f (g []) ++ rest ∎

-- Inversion of a chain of decoders.
pub bind-some :
    {A B : Type 0} (m : Option A) (f : A → Option B) {r : B}
    → (m >>= f) ≡ some r
    → (a : A) × (m ≡ some a) × (f a ≡ some r)
bind-some none f e = cc
bind-some (some a) f e = (a, refl, e)
