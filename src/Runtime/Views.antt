-- ===== src/Runtime/Views.antt =====
-- An abstract view of an account: what it is loaded as, or a default where it is not.
use txtcel_program.Base.{◌≡◌, refl}
use txtcel_program.Error.{Result, ok, err}

-- What is loaded, or a default.
abbrev pub value_of : {A C : Type 0} → (A → C) → C → Result A → C
value_of f d (ok x) = f x
value_of f d (err e) = d

module _ {A C : Type 0} (f : A → C) (d : C) where
  pub value_of-same :
      (r r' : Result A)
      → ((x : A) → r ≡ ok x → r' ≡ ok x)
      → ((x : A) → r' ≡ ok x → r ≡ ok x)
      → value_of f d r ≡ value_of f d r'
  value_of-same (ok x) r' to from = let e = to x refl in rw e
  value_of-same (err e) (ok x) to from = let q = from x refl in cc
  value_of-same (err e) (err e') to from = refl

  pub value_of-missing : (r : Result A) → ((x : A) → r ≡ ok x → ⊥) → value_of f d r ≡ d
  value_of-missing (ok x) never = absurd (never x refl)
  value_of-missing (err e) never = refl
