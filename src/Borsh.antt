-- ===== src/Borsh.antt =====
-- The Borsh library, which the program uses through derived implementations: the encodings of the
-- primitive types are parameters, and a struct is its fields in the order of their declaration.
-- The laws of the parameters stand in `Borsh.Laws`.
pub mod Laws
use txtcel_program.Base.{ℕ, Bool, Option, none, some, List, []}
use txtcel_program.Base.Int.{ℤ}

abbrev pub Bytes : Type 0
Bytes = List ℕ

-- `put x rest` is the encoding of `x` followed by `rest`; `get` takes a value off the front.
pub record Codec (A : Type 0) : Type 0 where
  pub put : A → Bytes → Bytes
  pub get : Bytes → Option (A × Bytes)

-- `int w` is for the unsigned integers of `w` bytes, and for `Pubkey` at 32; `vec w` and `array n w`
-- are for a `Vec` and an array of `n` such values, `vec_pair v w` for a `Vec` of structs of two.
pub record Borsh : Type 0 where
  pub int : ℕ → Codec ℕ
  pub i64 : Codec ℤ
  pub bool : Codec Bool
  pub vec : ℕ → Codec (List ℕ)
  pub array : ℕ → ℕ → Codec (List ℕ)
  pub vec_pair : ℕ → ℕ → Codec (List (ℕ × ℕ))

infixl 5 ◌>>=◌
abbrev pub ◌>>=◌ : {A B : Type 0} → Option A → (A → Option B) → Option B
none >>= f = none
some a >>= f = f a

module _ {A : Type 0} where
  abbrev pub whole : Option (A × Bytes) → Option A
  whole none = none
  whole (some (x, [])) = some x
  whole (some (x, _)) = none

  abbrev pub prefix : Option (A × Bytes) → Option A
  prefix none = none
  prefix (some (x, _)) = some x

  -- `T::try_from_slice`: all bytes are used.
  abbrev pub try_from_slice : Codec A → Bytes → Option A
  try_from_slice c bytes = whole (c.get bytes)

  -- `T::deserialize(&mut data)`, where the rest of `data` is dropped.
  abbrev pub deserialize : Codec A → Bytes → Option A
  deserialize c bytes = prefix (c.get bytes)
