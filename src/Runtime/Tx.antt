-- ===== src/Runtime/Tx.antt =====
-- Computations that change the accounts, and may fail.
use txtcel_program.Base.{Bool, leb, if◌then◌else◌, List, [], ◌∷◌, ◌++◌, length, drop}
use txtcel_program.Error.{ProtocolError, not_enough_account_keys, borsh_io_error, Result, ok, err}
use txtcel_program.Borsh.{Bytes, Codec}
use txtcel_program.Runtime.{Bank, AccountInfo, set_bytes}
use txtcel_program.Runtime.Check
use txtcel_program.Runtime.Check.{Check}

abbrev pub Tx : Type 0 → Type 0
Tx A = Bank → Result (A × Bank)

module _ {A : Type 0} where
  unfoldable pub pure : A → Tx A
  pure a b = ok (a, b)

  abbrev pub with_bank : Result A → Bank → Result (A × Bank)
  with_bank (ok a) b = ok (a, b)
  with_bank (err e) b = err e

  unfoldable pub check : Check A → Tx A
  check c b = with_bank (c b) b

abbrev pub with_unit : Result Bank → Result (Unit {0} × Bank)
with_unit (ok b) = ok (tt, b)
with_unit (err e) = err e

-- A call of the runtime.
unfoldable pub run : (Bank → Result Bank) → Tx (Unit {0})
run f b = with_unit (f b)

unfoldable pub modify : (Bank → Bank) → Tx (Unit {0})
modify f b = ok (tt, f b)

module _ {A B : Type 0} where
  abbrev pub continue : Result (A × Bank) → (A → Tx B) → Result (B × Bank)
  continue (ok (a, b)) f = f a b
  continue (err e) f = err e

  infixl 5 ◌>>=◌
  unfoldable pub ◌>>=◌ : Tx A → (A → Tx B) → Tx B
  unfolding pure check run modify
  ◌>>=◌ m f b = continue (m b) f

infixl 5 ◌>>◌
abbrev pub ◌>>◌ : {B : Type 0} → Tx (Unit {0}) → Tx B → Tx B
m >> k = m >>= λ _. k

abbrev pub done : Tx (Unit {0})
done = pure tt

-- `if c { t }` with no `else`
abbrev pub when : Bool → Tx (Unit {0}) → Tx (Unit {0})
when c t = if c then t else done

-- `if c { return Err(e.into()); }`
abbrev pub fail_if : Bool → ProtocolError → Tx (Unit {0})
fail_if c e = check (Check.fail_if c e)

-- `next_account_info`: the next entry, and the entries after it.
abbrev pub next_account_info : List AccountInfo → Tx (AccountInfo × List AccountInfo)
next_account_info [] = check (Check.raise not_enough_account_keys)
next_account_info (a ∷ rest) = pure (a, rest)

-- Writes over the front of the data; data that is too short is an error.
abbrev pub overwrite : Bytes → Bytes → Result Bytes
overwrite new old =
    if leb (length new) (length old) then ok (new ++ drop (length new) old) else err borsh_io_error

abbrev write_result : AccountInfo → Bank → Result Bytes → Result Bank
write_result account b (ok bytes) = ok (set_bytes b account.key bytes)
write_result account b (err e) = err e

-- `x.serialize(&mut &mut account.data.borrow_mut()[..])?`
unfoldable pub serialize : {A : Type 0} → Codec A → A → AccountInfo → Tx (Unit {0})
unfolding run
serialize c x account =
    run (λ b. write_result account b (overwrite (c.put x []) (b account.key).bytes))
