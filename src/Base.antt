-- ===== src/Base.antt =====
-- The names that the other modules share: the libraries', passed on, and those of three children.
mod Tests
mod Lists
pub mod Int
pub use Tests.*
pub use Lists.*
pub use Prim.Native.Nat.{ℕ, zero, suc, ◌+◌, ◌-◌, ◌*◌, ◌/◌, ◌%◌, ◌^◌, ◌≤◌, ◌<◌, min, max}
pub use mathlib.Core.Path.{◌≡◌, refl, sym, ap, ◌∙◌}
pub use mathlib.Core.Logic.{◌≢◌, ◌↔◌, ◌⊎◌, inl, inr}
pub use mathlib.Core.Bool.{Bool, true, false, not, ◌&&◌, ◌||◌}
pub use mathlib.Core.Option.{Option, none, some}
pub use mathlib.Core.List.{List, [], ◌∷◌, ◌++◌, map}
pub use native.Mathlib.Omega.{arith}
use Prim.Native.Char.{code}
use Int.{ℤ, ◌-ℤ◌, ltb_ℤ, i64_min, i64_max}
use Prim.Native.String
use Prim.Native.String.{String}

abbrev pub u8_mod : ℕ
u8_mod = 2 ^ 8

abbrev pub u16_mod : ℕ
u16_mod = 2 ^ 16

abbrev pub u32_mod : ℕ
u32_mod = 2 ^ 32

abbrev pub u64_mod : ℕ
u64_mod = 2 ^ 64

abbrev pub u128_mod : ℕ
u128_mod = 2 ^ 128

-- A `Pubkey` is 32 bytes; it is the number that they are the little-endian digits of.
abbrev pub pubkey_mod : ℕ
pubkey_mod = 2 ^ 256

-- `to_le_bytes` of an unsigned integer of the given number of bytes, of the standard library.
unfoldable pub to_le_bytes : ℕ → ℕ → List ℕ
to_le_bytes zero n = []
to_le_bytes (suc w) n = n % 256 ∷ to_le_bytes w (n / 256)

-- `from_le_bytes`, and `Pubkey::from` on 32 bytes.
unfoldable pub from_le_bytes : List ℕ → ℕ
from_le_bytes [] = 0
from_le_bytes (d ∷ ds) = d + 256 * from_le_bytes ds

-- `checked_add`, `saturating_add` and `saturating_mul` at the modulus of the type.
abbrev pub checked_add : ℕ → ℕ → ℕ → Option ℕ
checked_add m a b = if ltb (a + b) m then some (a + b) else none

abbrev pub saturating_add : ℕ → ℕ → ℕ → ℕ
saturating_add m a b = min (a + b) (m - 1)

abbrev pub saturating_mul : ℕ → ℕ → ℕ → ℕ
saturating_mul m a b = min (a * b) (m - 1)

-- The bytes of an ASCII literal such as `b"settings"`.
abbrev pub ascii : String → List ℕ
ascii String.[] = []
ascii (String.◌∷◌ c s) = code c ∷ ascii s

abbrev pub checked_mul : ℕ → ℕ → ℕ → Option ℕ
checked_mul m a b = if ltb (a * b) m then some (a * b) else none

-- `a - b` on `i64`, `none` where it overflows (the release profile traps it).
abbrev pub checked_sub_i64 : ℤ → ℤ → Option ℤ
checked_sub_i64 a b =
    let d = a -ℤ b in if ltb_ℤ i64_max d then none else if ltb_ℤ d i64_min then none else some d
