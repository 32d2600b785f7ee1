-- ===== src/Runtime.antt =====
-- Accounts, the Solana runtime that the program calls, and the two kinds of computation: a `Check`
-- reads the accounts and may fail, a transaction `Tx` also changes them. A failed instruction is
-- rolled back, so no accounts come back beside an error.
pub mod Check
pub mod Tx
pub mod Laws
pub mod Hoare
pub mod Storage
pub mod Editing
pub mod Views
use txtcel_program.Base.{ℕ, ◌==◌, if◌then◌else◌, Bool, List}
use txtcel_program.Base.Int.{ℤ}
use txtcel_program.Error.{Result}
use txtcel_program.Borsh.{Bytes, Borsh}

abbrev pub Pubkey : Type 0
Pubkey = ℕ

pub record Account : Type 0 where
  pub lamports : ℕ
  pub owner : Pubkey
  pub bytes : Bytes

-- Every account by its address: an address that is listed twice is one account.
abbrev pub Bank : Type 0
Bank = Pubkey → Account

-- An entry of an instruction's account list; what it points at stands in the bank.
pub record AccountInfo : Type 0 where
  pub key : Pubkey
  pub is_signer : Bool
  pub is_writable : Bool

abbrev pub update : Bank → Pubkey → Account → Bank
update bank key account k = if key == k then account else bank k

abbrev pub set_lamports : Bank → Pubkey → ℕ → Bank
set_lamports bank key n = update bank key (record (bank key) { lamports = n })

abbrev pub set_bytes : Bank → Pubkey → Bytes → Bank
set_bytes bank key bytes = update bank key (record (bank key) { bytes = bytes })

abbrev pub set_owner : Bank → Pubkey → Pubkey → Bank
set_owner bank key owner = update bank key (record (bank key) { owner = owner })

abbrev pub Seeds : Type 0
Seeds = List Bytes

-- The code that is not the program's: addresses, sysvars, instructions of the System Program (with
-- the accounts passed and, where `invoke_signed` is used, the seeds) and `AccountInfo::resize`.
pub record Runtime : Type 0 where
  pub borsh : Borsh
  pub system_id : Pubkey
  pub loader_id : Pubkey
  pub find_program_address : Seeds → Pubkey → Pubkey × ℕ
  pub rent : Result (ℕ → ℕ)
  pub unix_timestamp : Result ℤ
  pub transfer : AccountInfo → AccountInfo → ℕ → Bank → Result Bank
  pub create_account : AccountInfo → AccountInfo → ℕ → ℕ → Pubkey → List Seeds → Bank → Result Bank
  pub allocate : AccountInfo → ℕ → List Seeds → Bank → Result Bank
  pub assign : AccountInfo → Pubkey → List Seeds → Bank → Result Bank
  pub resize : AccountInfo → ℕ → Bank → Result Bank
