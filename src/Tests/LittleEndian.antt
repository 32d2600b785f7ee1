-- ===== src/Tests/LittleEndian.antt =====
-- Integers of a fixed number of little-endian bytes, and lists of them.
use mathlib.Core.Path.{subst}
use native.Mathlib.Nat.{pow-suc}
use txtcel_program.Base.{
  ℕ, zero, suc, ◌+◌, ◌*◌, ◌/◌, ◌%◌, ◌^◌, ◌<◌, ◌≡◌, refl, sym, ap, ◌∙◌, ltb, if◌then◌else◌,
  Option-cases, inl, inr, Option, none, some, List, [], ◌∷◌, ◌++◌, length, All, arith,
}
use txtcel_program.Borsh.{Bytes, ◌>>=◌}
use txtcel_program.Borsh.Laws.{IsFront-then, bind-some}

-- `n` in `w` bytes, in front of `rest`.
unfoldable pub put_le : ℕ → ℕ → Bytes → Bytes
put_le zero n rest = rest
put_le (suc w) n rest = n % 256 ∷ put_le w (n / 256) rest

unfoldable pub get_le : ℕ → Bytes → Option (ℕ × Bytes)
get_le zero bytes = some (0, bytes)
get_le (suc w) [] = none
get_le (suc w) (d ∷ bytes) =
    let tail = get_le w bytes in
    if ltb d 256 then (tail >>= λ (n, rest). some (d + 256 * n, rest)) else none

pub length-put_le : (w n : ℕ) (rest : Bytes) → length (put_le w n rest) ≡ w + length rest
unfolding put_le
length-put_le zero n rest = omega arith
length-put_le (suc w) n rest = omega (arith, length-put_le w (n / 256) rest)

pub put_le-front : (w n : ℕ) (rest : Bytes) → put_le w n rest ≡ put_le w n [] ++ rest
unfolding put_le
put_le-front zero n rest = refl
put_le-front (suc w) n rest = rw (put_le-front w (n / 256) rest)

pub get_le-put_le :
    (w n : ℕ) (rest : Bytes) → n < 256 ^ w → get_le w (put_le w n rest) ≡ some (n, rest)
unfolding put_le get_le
get_le-put_le zero n rest h = ground arith
get_le-put_le (suc w) n rest h =
    let small : n / 256 < 256 ^ w = omega (arith, pow-suc 256 w) in
    rw (get_le-put_le w (n / 256) rest small) (ground arith)

get_le-suc :
    (w d : ℕ) (bytes : Bytes) (n : ℕ) (rest : Bytes)
    → get_le (suc w) (d ∷ bytes) ≡ some (n, rest)
    → (d < 256) × (m : ℕ) × (get_le w bytes ≡ some (m, rest)) × (n ≡ d + 256 * m)
unfolding get_le
get_le-suc w d bytes n rest e = elim (Option-cases (get_le w bytes)) [
  | inl gone ↦ ground arith
  | inr ((m, r), got) ↦ (ground arith, m, ground arith, ground arith)
]

pub get_le-canonical :
    (w : ℕ) (bytes : Bytes) (n : ℕ) (rest : Bytes)
    → get_le w bytes ≡ some (n, rest)
    → (bytes ≡ put_le w n rest) × (n < 256 ^ w)
unfolding put_le get_le
get_le-canonical zero bytes n rest e = (ground arith, ground arith)
get_le-canonical (suc w) [] n rest e = cc
get_le-canonical (suc w) (d ∷ bytes) n rest e =
    let (small, m, got, value) = get_le-suc w d bytes n rest e in
    let (same, fits) = get_le-canonical w bytes m rest got in
    let digit : d ≡ n % 256 = omega arith in
    let quotient : m ≡ n / 256 = omega arith in (cc, omega (arith, pow-suc 256 w))

-- A list of values of `w` bytes each.
unfoldable pub put_all : ℕ → List ℕ → Bytes → Bytes
put_all w [] rest = rest
put_all w (x ∷ xs) rest = put_le w x (put_all w xs rest)

unfoldable pub get_all : ℕ → ℕ → Bytes → Option (List ℕ × Bytes)
get_all w zero bytes = some ([], bytes)
get_all w (suc n) bytes = do
  (x, r) ← get_le w bytes
  (xs, rest) ← get_all w n r
  some (x ∷ xs, rest)

pub length-put_all :
    (w : ℕ) (xs : List ℕ) (rest : Bytes) → length (put_all w xs rest) ≡ length xs * w + length rest
unfolding put_all
length-put_all w [] rest = omega arith
length-put_all w (x ∷ xs) rest =
    omega (arith, length-put_le w x (put_all w xs rest), length-put_all w xs rest)

pub put_all-front :
    (w : ℕ) (xs : List ℕ) (rest : Bytes) → put_all w xs rest ≡ put_all w xs [] ++ rest
unfolding put_all
put_all-front w [] rest = refl
put_all-front w (x ∷ xs) rest =
    IsFront-then {f = put_le w x} {g = put_all w xs} (put_le-front w x) (put_all-front w xs) rest

pub put_le-byte : (n : ℕ) (rest : Bytes) → n < 256 → put_le 1 n rest ≡ n ∷ rest
unfolding put_le
put_le-byte n rest h = ground arith

pub get_all-put_all :
    (w : ℕ) (xs : List ℕ) (rest : Bytes)
    → All (λ x. x < 256 ^ w) xs
    → get_all w (length xs) (put_all w xs rest) ≡ some (xs, rest)
unfolding put_all get_all
get_all-put_all w [] rest h = refl
get_all-put_all w (x ∷ xs) rest (hx, h) =
    rw (get_le-put_le w x (put_all w xs rest) hx, get_all-put_all w xs rest h)

pub get_all-canonical :
    (w n : ℕ) (bytes : Bytes) (xs : List ℕ) (rest : Bytes)
    → get_all w n bytes ≡ some (xs, rest)
    → (bytes ≡ put_all w xs rest) × (length xs ≡ n) × All (λ x. x < 256 ^ w) xs
unfolding put_all get_all
get_all-canonical w zero bytes [] rest e = (ground arith, refl, tt)
get_all-canonical w zero bytes (x ∷ xs) rest e = ground arith
get_all-canonical w (suc n) bytes [] rest e =
    let ((x, r), _, e') = bind-some (get_le w bytes) _ e in
    let (_, _, e'') = bind-some (get_all w n r) _ e' in ground arith
get_all-canonical w (suc n) bytes (y ∷ ys) rest e =
    let ((x, r), first, e') = bind-some (get_le w bytes) _ e in
    let ((xs, r'), others, e'') = bind-some (get_all w n r) _ e' in
    let head : x ≡ y = ground arith in
    let tail : xs ≡ ys = ground arith in
    let end : r' ≡ rest = ground arith in
    let (same, fits) = get_le-canonical w bytes x r first in
    let (same', size, all) = get_all-canonical w n r xs r' others in
    let digits : All (λ t. t < 256 ^ w) ys = subst (All (λ t. t < 256 ^ w)) tail all in
    (cc, ap suc (sym (ap length tail) ∙ size), (subst (λ t. t < 256 ^ w) head fits, digits))
