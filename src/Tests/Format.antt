-- ===== src/Tests/Format.antt =====
-- The Borsh format of the primitive types: little-endian integers, a length of four bytes in front
-- of a `Vec`. It meets the laws that the development takes of Borsh.
use mathlib.Core.Path.{subst}
use txtcel_program.Base.{
  ℕ, zero, suc, ◌+◌, ◌-◌, ◌*◌, ◌^◌, ◌≡◌, refl, ap, ◌∙◌, ltb, if◌then◌else◌, Option-cases, inl, inr,
  Bool, true, false, Option, none, some, List, [], ◌∷◌, length, arith, u64_mod,
}
use txtcel_program.Base.Int.{ℤ, pos, negsuc}
use txtcel_program.Borsh.{Bytes, Codec, Borsh, ◌>>=◌}
use txtcel_program.Borsh.Laws.{
  IsFront-then, bind-some, Fits, FitsI64, RoundTrips, HasSize, IsFront, Canonical, FitsVec,
  FitsPairs, FitsArray, IsBorsh,
}
use txtcel_program.Tests.LittleEndian.{
  put_le, get_le, length-put_le, put_le-front, put_all-front, put_le-byte, get_le-put_le,
  get_le-canonical, put_all, get_all, length-put_all, get_all-put_all, get_all-canonical,
}
use txtcel_program.Tests.Pairs.{put_pairs, get_pairs, get_pairs-put_pairs, get_pairs-canonical}

abbrev pub int : ℕ → Codec ℕ
int w = record { put = put_le w; get = get_le w }

-- Two's complement in eight bytes.
abbrev twos : ℤ → ℕ
twos (pos n) = n
twos (negsuc n) = u64_mod - suc n

abbrev from_twos : ℕ → ℤ
from_twos n = if ltb n (2 ^ 63) then pos n else negsuc (u64_mod - suc n)

abbrev i64_of : Option (ℕ × Bytes) → Option (ℤ × Bytes)
i64_of none = none
i64_of (some (n, rest)) = some (from_twos n, rest)

abbrev pub i64 : Codec ℤ
i64 = record { put = λ x rest. put_le 8 (twos x) rest; get = λ bytes. i64_of (get_le 8 bytes) }

abbrev put_bool : Bool → Bytes → Bytes
put_bool false rest = 0 ∷ rest
put_bool true rest = 1 ∷ rest

abbrev get_bool : Bytes → Option (Bool × Bytes)
get_bool [] = none
get_bool (zero ∷ rest) = some (false, rest)
get_bool (suc zero ∷ rest) = some (true, rest)
get_bool (suc (suc n) ∷ rest) = none

abbrev pub vec : ℕ → Codec (List ℕ)
vec w = record {
  put = λ xs rest. put_le 4 (length xs) (put_all w xs rest);
  get = λ bytes. get_le 4 bytes >>= λ (n, rest). get_all w n rest;
}

abbrev pub array : ℕ → ℕ → Codec (List ℕ)
array n w = record { put = put_all w; get = get_all w n }

abbrev pub vec_pair : ℕ → ℕ → Codec (List (ℕ × ℕ))
vec_pair v w = record {
  put = λ xs rest. put_le 4 (length xs) (put_pairs v w xs rest);
  get = λ bytes. get_le 4 bytes >>= λ (n, rest). get_pairs v w n rest;
}

abbrev pub format : Borsh
format = record {
  int = int;
  i64 = i64;
  bool = record { put = put_bool; get = get_bool };
  vec = vec;
  array = array;
  vec_pair = vec_pair;
}

twos-small : (x : ℤ) → FitsI64 x → Fits 8 (twos x)
twos-small (pos n) h = omega arith
twos-small (negsuc n) h = omega arith

from_twos-twos : (x : ℤ) → FitsI64 x → from_twos (twos x) ≡ x
from_twos-twos (pos n) h = ground arith
from_twos-twos (negsuc n) h = ground arith

twos-from_twos : (n : ℕ) → Fits 8 n → (twos (from_twos n) ≡ n) × FitsI64 (from_twos n)
twos-from_twos n h = (ground arith, ground arith)

i64-RoundTrips : (x : ℤ) → FitsI64 x → RoundTrips i64 x
i64-RoundTrips x h rest =
    rw (get_le-put_le 8 (twos x) rest (twos-small x h)) (rw (from_twos-twos x h))

i64-Canonical : Canonical i64 FitsI64
i64-Canonical bytes x rest e = elim (Option-cases (get_le 8 bytes)) [
  | inl gone ↦ ground arith
  | inr ((n, r), got) ↦
      let (same, fits) = get_le-canonical 8 bytes n r got in
      let (back, range) = twos-from_twos n fits in
      let value : from_twos n ≡ x = ground arith in
      let end : r ≡ rest = ground arith in (cc, subst FitsI64 value range)
]

bool-Canonical : Canonical format.bool (λ _. Unit {0})
bool-Canonical [] x rest e = cc
bool-Canonical (zero ∷ bytes) false rest e = (ground arith, tt)
bool-Canonical (zero ∷ bytes) true rest e = ground arith
bool-Canonical (suc zero ∷ bytes) true rest e = (ground arith, tt)
bool-Canonical (suc zero ∷ bytes) false rest e = ground arith
bool-Canonical (suc (suc n) ∷ bytes) x rest e = cc

vec-Canonical : (w : ℕ) → Canonical (vec w) (FitsVec w)
vec-Canonical w bytes xs rest e =
    let ((n, r), first, e') = bind-some (get_le 4 bytes) _ e in
    let (same, small) = get_le-canonical 4 bytes n r first in
    let (same', size, all) = get_all-canonical w n r xs rest e' in (cc, (omega arith, all))

vec_pair-Canonical : (v w : ℕ) → Canonical (vec_pair v w) (FitsPairs v w)
vec_pair-Canonical v w bytes xs rest e =
    let ((n, r), first, e') = bind-some (get_le 4 bytes) _ e in
    let (same, small) = get_le-canonical 4 bytes n r first in
    let (same', size, all) = get_pairs-canonical v w n r xs rest e' in (cc, (omega arith, all))

array-Canonical : (n w : ℕ) → Canonical (array n w) (FitsArray n w)
array-Canonical n w bytes xs rest e =
    let (same, size, all) = get_all-canonical w n bytes xs rest e in (same, (size, all))

bool-IsFront : (x : Bool) → IsFront (format.bool.put x)
bool-IsFront false rest = refl
bool-IsFront true rest = refl

bool-size : (x : Bool) → HasSize format.bool x 1
bool-size false rest = omega arith
bool-size true rest = omega arith

bool-round : (x : Bool) → RoundTrips format.bool x
bool-round false rest = refl
bool-round true rest = refl

pub format_laws : IsBorsh format
format_laws = record {
  int_front = put_le-front;
  bool_front = bool-IsFront;
  i64_front = λ x. put_le-front 8 (twos x);
  vec_front = λ w xs.
      IsFront-then {f = put_le 4 (length xs)} {g = put_all w xs} (put_le-front 4 (length xs))
        (put_all-front w xs);
  int_byte = λ n rest h. put_le-byte n rest h;
  int_size = λ w n rest. length-put_le w n rest;
  int_round = λ w n h rest. get_le-put_le w n rest h;
  i64_size = λ x rest. length-put_le 8 (twos x) rest;
  i64_round = i64-RoundTrips;
  bool_size = bool-size;
  bool_round = bool-round;
  vec_size = λ w xs rest.
      omega (arith, length-put_le 4 (length xs) (put_all w xs rest), length-put_all w xs rest);
  vec_round = λ w xs small h rest.
      rw (get_le-put_le 4 (length xs) (put_all w xs rest) small) (get_all-put_all w xs rest h);
  array_size = λ n w xs h rest. length-put_all w xs rest ∙ ap (λ t. t * w + length rest) h;
  array_round = λ n w xs size h rest.
      subst (λ t. get_all w t (put_all w xs rest) ≡ some (xs, rest)) size
        (get_all-put_all w xs rest h);
  vec_pair_round = λ v w xs small h rest.
      rw (get_le-put_le 4 (length xs) (put_pairs v w xs rest) small)
        (get_pairs-put_pairs v w xs rest h);
  int_canonical = λ w bytes n rest e. get_le-canonical w bytes n rest e;
  i64_canonical = i64-Canonical;
  bool_canonical = bool-Canonical;
  vec_canonical = vec-Canonical;
  vec_pair_canonical = vec_pair-Canonical;
  array_canonical = array-Canonical;
}
