-- ===== src/Runtime/Check.antt =====
-- Computations that read the accounts and may fail.
use txtcel_program.Base.{Bool, true, false, Option, none, some}
use txtcel_program.Error.{ProtocolError, ProgramError, from_protocol, Result, ok, err}
use txtcel_program.Runtime.{Bank}

abbrev pub Check : Type 0 → Type 0
Check A = Bank → Result A

infixl 5 ◌>>=◌ ◌>>◌
abbrev pub and_then : {A B : Type 0} → Result A → (A → Result B) → Result B
and_then (ok a) f = f a
and_then (err e) f = err e

abbrev pub ◌>>=◌ : {A B : Type 0} → Check A → (A → Check B) → Check B
◌>>=◌ m f b = and_then (m b) (λ a. f a b)

abbrev pub ◌>>◌ : {B : Type 0} → Check (Unit {0}) → Check B → Check B
m >> k = m >>= λ _. k

module _ {A : Type 0} where
  abbrev pub pure : A → Check A
  pure a b = ok a

  abbrev pub gets : (Bank → A) → Check A
  gets f b = ok (f b)

  abbrev pub lift : Result A → Check A
  lift r b = r

  abbrev pub raise : ProgramError → Check A
  raise e b = err e

  abbrev pub fail : ProtocolError → Check A
  fail e b = err (from_protocol e)

  -- `.ok_or(e)?` and `.map_err(|_| e)?`
  abbrev pub or_fail : Option A → ProtocolError → Check A
  or_fail none e = fail e
  or_fail (some a) e = pure a

-- `if c { return Err(e.into()); }`
abbrev pub fail_if : Bool → ProtocolError → Check (Unit {0})
fail_if true e = fail e
fail_if false e = pure tt
