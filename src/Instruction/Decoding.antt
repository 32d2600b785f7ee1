-- ===== src/Instruction/Decoding.antt =====
-- What holds of whatever a decoder returns, one rule for each way to build one.
use txtcel_program.Base.{◌≡◌, refl, Bool, true, false, if◌then◌else◌, Option, none, some}
use mathlib.Core.Path.{subst}
use txtcel_program.Borsh.{Bytes, Codec, ◌>>=◌}
use txtcel_program.Borsh.Laws.{Canonical}

-- A property of what was decoded, where anything was.
pub data Each {A : Type 0} (D : A → Type 0) : Option A → Type 0 where
  absent : Each D none
  present : {x : A} → D x → Each D (some x)

abbrev At : {A : Type 0} → (A → Type 0) → Option A → Type 0
At D none = Unit
At D (some x) = D x

module _ {C : Type 0} {D : C → Type 0} where
  pub Each-bind :
      {A : Type 0} {c : Codec A} {P : A → Type 0} (canonical : Canonical c P) (bytes : Bytes)
      (f : A × Bytes → Option C)
      → ((x : A) (rest : Bytes) → bytes ≡ c.put x rest → P x → Each D (f (x, rest)))
      → Each D (c.get bytes >>= f)
  Each-bind {A = A} {c = c} {P = P} canonical bytes f next = go (c.get bytes) (canonical bytes)
    where
      go :
          (r : Option (A × Bytes))
          → ((x : A) (rest : Bytes) → r ≡ some (x, rest) → (bytes ≡ c.put x rest) × P x)
          → Each D (r >>= f)
      go none known = absent
      go (some (x, rest)) known = let (same, range) = known x rest refl in next x rest same range

  pub Each-if :
      (c : Bool) (m n : Option C)
      → (c ≡ true → Each D m)
      → (c ≡ false → Each D n)
      → Each D (if c then m else n)
  Each-if true m n hm hn = hm refl
  Each-if false m n hm hn = hn refl

  pub Each-some : (r : Option C) {x : C} → Each D r → r ≡ some x → D x
  Each-some r h e = subst (At D) e (at h)
    where
      at : {r : Option C} → Each D r → At D r
      at absent = tt
      at (present d) = d
