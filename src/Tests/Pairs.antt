-- ===== src/Tests/Pairs.antt =====
-- A list of pairs of little-endian integers, as the encoding of a `Vec` of structs of two integers has it.
use mathlib.Core.Path.{subst}
use txtcel_program.Base.{
  ℕ, zero, suc, ◌≡◌, refl, sym, ap, ◌∙◌, Option, some, List, [], ◌∷◌, length, All, arith,
}
use txtcel_program.Borsh.{Bytes, ◌>>=◌}
use txtcel_program.Borsh.Laws.{Fits, bind-some}
use txtcel_program.Tests.LittleEndian.{put_le, get_le, get_le-put_le, get_le-canonical}

unfoldable pub put_pairs : ℕ → ℕ → List (ℕ × ℕ) → Bytes → Bytes
put_pairs v w [] rest = rest
put_pairs v w ((x, y) ∷ xs) rest = put_le v x (put_le w y (put_pairs v w xs rest))

unfoldable pub get_pairs : ℕ → ℕ → ℕ → Bytes → Option (List (ℕ × ℕ) × Bytes)
get_pairs v w zero bytes = some ([], bytes)
get_pairs v w (suc n) bytes = do
  (x, r) ← get_le v bytes
  (y, r') ← get_le w r
  (xs, rest) ← get_pairs v w n r'
  some ((x, y) ∷ xs, rest)

pub get_pairs-put_pairs :
    (v w : ℕ) (xs : List (ℕ × ℕ)) (rest : Bytes)
    → All (λ x. Fits v x.0 × Fits w x.1) xs
    → get_pairs v w (length xs) (put_pairs v w xs rest) ≡ some (xs, rest)
unfolding put_pairs get_pairs
get_pairs-put_pairs v w [] rest h = refl
get_pairs-put_pairs v w ((x, y) ∷ xs) rest ((hx, hy), h) = rw (
  get_le-put_le v x (put_le w y (put_pairs v w xs rest)) hx,
  get_le-put_le w y (put_pairs v w xs rest) hy,
  get_pairs-put_pairs v w xs rest h,
)

pub get_pairs-canonical :
    (v w n : ℕ) (bytes : Bytes) (xs : List (ℕ × ℕ)) (rest : Bytes)
    → get_pairs v w n bytes ≡ some (xs, rest)
    → (bytes ≡ put_pairs v w xs rest) × (length xs ≡ n) × All (λ x. Fits v x.0 × Fits w x.1) xs
unfolding put_pairs get_pairs
get_pairs-canonical v w zero bytes [] rest e = (ground arith, refl, tt)
get_pairs-canonical v w zero bytes (x ∷ xs) rest e = ground arith
get_pairs-canonical v w (suc n) bytes [] rest e =
    let ((x, r), _, e1) = bind-some (get_le v bytes) _ e in
    let ((y, r'), _, e2) = bind-some (get_le w r) _ e1 in
    let (_, _, e3) = bind-some (get_pairs v w n r') _ e2 in ground arith
get_pairs-canonical v w (suc n) bytes ((x', y') ∷ ys) rest e =
    let ((x, r), first, e1) = bind-some (get_le v bytes) _ e in
    let ((y, r'), second, e2) = bind-some (get_le w r) _ e1 in
    let ((xs, r''), others, e3) = bind-some (get_pairs v w n r') _ e2 in
    let head : x ≡ x' = ground arith in
    let head' : y ≡ y' = ground arith in
    let tail : xs ≡ ys = ground arith in
    let end : r'' ≡ rest = ground arith in
    let (same, fits) = get_le-canonical v bytes x r first in
    let (same', fits') = get_le-canonical w r y r' second in
    let (same'', size, all) = get_pairs-canonical v w n r' xs r'' others in
    let digits : All (λ t. Fits v t.0 × Fits w t.1) ys =
      subst (All (λ t. Fits v t.0 × Fits w t.1)) tail all in
    (
      cc,
      ap suc (sym (ap length tail) ∙ size),
      ((subst (Fits v) head fits, subst (Fits w) head' fits'), digits),
    )
