-- ===== src/Runtime/Hoare.antt =====
-- What holds after a transaction that succeeds, one rule for each way to build one.
use txtcel_program.Base.{◌≡◌, refl, Bool, true, false, if◌then◌else◌, List, [], ◌∷◌, All}
use mathlib.Core.Path.{subst}
use txtcel_program.Error.{ProtocolError, ProgramError, Result, ok, err}
use txtcel_program.Runtime.{Bank, AccountInfo}
use txtcel_program.Runtime.Check.{Check, gets, lift}
use txtcel_program.Runtime.Tx.{
  Tx, with_bank, with_unit, check, run, modify, pure, continue, fail_if, next_account_info, ◌>>=◌,
}

pub data Holds {A : Type 0} (Q : A → Bank → Type 0) : Result (A × Bank) → Type 0 where
  failed : {e : ProgramError} → Holds Q (err e)
  held : {a : A} {b : Bank} → Q a b → Holds Q (ok (a, b))

abbrev Post : {A : Type 0} → (A → Bank → Type 0) → Result (A × Bank) → Type 0
Post P (ok (a, b)) = P a b
Post P (err e) = Unit

module _ {A : Type 0} {Q : A → Bank → Type 0} where
  Post_of_Holds : {r : Result (A × Bank)} → Holds Q r → Post Q r
  Post_of_Holds failed = tt
  Post_of_Holds (held q) = q

  -- Reading the postcondition off a run.
  pub at_ok : {r : Result (A × Bank)} {a : A} {b : Bank} → Holds Q r → r ≡ ok (a, b) → Q a b
  at_ok h e = subst (Post Q) e (Post_of_Holds h)

  pub Holds-if :
      (c : Bool) (m n : Tx A) (b : Bank)
      → (c ≡ true → Holds Q (m b))
      → (c ≡ false → Holds Q (n b))
      → Holds Q ((if c then m else n) b)
  Holds-if true m n b hm hn = hm refl
  Holds-if false m n b hm hn = hn refl

  pub Holds-mono :
      {P : A → Bank → Type 0} {r : Result (A × Bank)}
      → Holds P r
      → ((a : A) (b : Bank) → P a b → Holds Q (ok (a, b)))
      → Holds Q r
  Holds-mono failed weaken = failed
  Holds-mono (held p) weaken = weaken _ _ p

  pub Holds-pure : (a : A) (b : Bank) → Q a b → Holds Q (pure a b)
  unfolding pure
  Holds-pure a b q = held q

  -- What ran, as an equation.
  pub Holds-self :
      (r : Result (A × Bank)) → ((a : A) (b : Bank) → r ≡ ok (a, b) → Q a b) → Holds Q r
  Holds-self (ok (a, b)) q = held (q a b refl)
  Holds-self (err e) q = failed

module _ {A B : Type 0} {Q : B → Bank → Type 0} where
  continue-Holds :
      {P : A → Bank → Type 0} {r : Result (A × Bank)} (f : A → Tx B)
      → Holds P r
      → ((a : A) (b : Bank) → P a b → Holds Q (f a b))
      → Holds Q (continue r f)
  continue-Holds f failed next = failed
  continue-Holds f (held p) next = next _ _ p

  pub Holds-bind :
      {P : A → Bank → Type 0} (m : Tx A) (f : A → Tx B) (b : Bank)
      → Holds P (m b)
      → ((a : A) (b' : Bank) → P a b' → Holds Q (f a b'))
      → Holds Q ((m >>= f) b)
  unfolding ◌>>=◌
  Holds-bind m f b h next = continue-Holds f h next

  -- A check changes nothing.
  pub Holds-check :
      (c : Check A) (f : A → Tx B) (b : Bank)
      → ((a : A) → c b ≡ ok a → Holds Q (f a b))
      → Holds Q ((check c >>= f) b)
  unfolding ◌>>=◌
  Holds-check c f b next = go (c b) next
    where
      go :
          (r : Result A)
          → ((a : A) → r ≡ ok a → Holds Q (f a b))
          → Holds Q (continue (with_bank r b) f)
      go (ok a) n = n a refl
      go (err e) n = failed

  -- A check that is known to pass.
  pub Holds-checked :
      (c : Check A) (f : A → Tx B) (b : Bank) {a : A}
      → c b ≡ ok a
      → Holds Q (f a b)
      → Holds Q ((check c >>= f) b)
  unfolding ◌>>=◌
  Holds-checked c f b e next = rw e next

  -- A value that is read from the accounts, and one that is known.
  pub Holds-gets :
      (g : Bank → A) (f : A → Tx B) (b : Bank)
      → Holds Q (f (g b) b)
      → Holds Q ((check (gets g) >>= f) b)
  unfolding ◌>>=◌
  Holds-gets g f b next = next

  pub Holds-lift :
      (r : Result A) (f : A → Tx B) (b : Bank) {a : A}
      → r ≡ ok a
      → Holds Q (f a b)
      → Holds Q ((check (lift r) >>= f) b)
  unfolding ◌>>=◌
  Holds-lift r f b e next = rw e next

module _ {B : Type 0} {Q : B → Bank → Type 0} where
  -- An assignment, a test, and the next entry of the account list.
  pub Holds-modify :
      (g : Bank → Bank) (f : Unit {0} → Tx B) (b : Bank)
      → Holds Q (f tt (g b))
      → Holds Q ((modify g >>= f) b)
  unfolding ◌>>=◌
  Holds-modify g f b next = next

  pub Holds-fail_if :
      (c : Bool) (e : ProtocolError) (f : Unit {0} → Tx B) (b : Bank)
      → (c ≡ false → Holds Q (f tt b))
      → Holds Q ((fail_if c e >>= f) b)
  unfolding ◌>>=◌
  Holds-fail_if true e f b next = failed
  Holds-fail_if false e f b next = next refl

  pub Holds-next :
      (a : AccountInfo) (rest : List AccountInfo) (f : AccountInfo × List AccountInfo → Tx B)
      (b : Bank)
      → Holds Q (f (a, rest) b)
      → Holds Q ((next_account_info (a ∷ rest) >>= f) b)
  unfolding ◌>>=◌
  Holds-next a rest f b next = next

-- The bank after a call of the runtime, and after an assignment.
pub Holds-run : (f : Bank → Result Bank) (b : Bank) → Holds (λ _ b'. f b ≡ ok b') (run f b)
unfolding run
Holds-run f b = go (f b)
  where
    go : (r : Result Bank) → Holds (λ _ b'. r ≡ ok b') (with_unit r)
    go (ok b') = held refl
    go (err e) = failed

-- The last assignment of a block.
pub Holds-modified :
    {Q : Unit {0} → Bank → Type 0} (g : Bank → Bank) (b : Bank) → Q tt (g b) → Holds Q (modify g b)
unfolding modify
Holds-modified g b q = held q

-- The next entry of a list of accounts that may have run out, with what is known of every entry.
pub Holds-take :
    {B : Type 0} {Q : B → Bank → Type 0} {P : AccountInfo → Type 0} (accounts : List AccountInfo)
    (f : AccountInfo × List AccountInfo → Tx B) (b : Bank)
    → All P accounts
    → ((a : AccountInfo) (rest : List AccountInfo) → P a → All P rest → Holds Q (f (a, rest) b))
    → Holds Q ((next_account_info accounts >>= f) b)
unfolding ◌>>=◌
Holds-take [] f b h next = failed
Holds-take (a ∷ rest) f b (p, h) next = next a rest p h
