-- ===== src/Runtime/Laws.antt =====
-- What the program relies on of the runtime: the documented effect of each call that succeeds.
use txtcel_program.Base.{ℕ, ◌+◌, ◌-◌, ◌≤◌, ◌≡◌, List, ◌++◌, take, length, replicate}
use txtcel_program.Error.{ok}
use txtcel_program.Borsh.{Bytes}
use txtcel_program.Borsh.Laws.{IsBorsh}
use txtcel_program.Runtime.{
  Pubkey, Bank, AccountInfo, update, set_lamports, set_bytes, set_owner, Seeds, Runtime,
}

-- `n` lamports move, also where the two accounts are one.
abbrev pub moved : Pubkey → Pubkey → ℕ → Bank → Bank
moved from to n b =
    let b' = set_lamports b from ((b from).lamports - n) in
    set_lamports b' to ((b' to).lamports + n)

-- New data is zero.
abbrev pub resized : Bytes → ℕ → Bytes
resized bytes n = take n bytes ++ replicate (n - length bytes) 0

abbrev pub created : Pubkey → Pubkey → ℕ → ℕ → Pubkey → Bank → Bank
created payer target lamports space owner b =
    let b' = set_lamports b payer ((b payer).lamports - lamports) in
    update b' target (record { lamports = lamports; owner = owner; bytes = replicate space 0 })

pub record IsRuntime (R : Runtime) : Type 0 where
  pub is_borsh : IsBorsh R.borsh
  pub transfer_ok :
      (payer target : AccountInfo) (n : ℕ) (b b' : Bank)
      → R.transfer payer target n b ≡ ok b'
      → (n ≤ (b payer.key).lamports) × (b' ≡ moved payer.key target.key n b)
  pub create_account_ok :
      (payer target : AccountInfo) (n space : ℕ) (owner : Pubkey) (seeds : List Seeds) (b b' : Bank)
      → R.create_account payer target n space owner seeds b ≡ ok b'
      → (n ≤ (b payer.key).lamports) × (b' ≡ created payer.key target.key n space owner b)
  pub allocate_ok :
      (target : AccountInfo) (space : ℕ) (seeds : List Seeds) (b b' : Bank)
      → R.allocate target space seeds b ≡ ok b'
      → b' ≡ set_bytes b target.key (replicate space 0)
  pub assign_ok :
      (target : AccountInfo) (owner : Pubkey) (seeds : List Seeds) (b b' : Bank)
      → R.assign target owner seeds b ≡ ok b'
      → b' ≡ set_owner b target.key owner
  pub resize_ok :
      (target : AccountInfo) (n : ℕ) (b b' : Bank)
      → R.resize target n b ≡ ok b'
      → b' ≡ set_bytes b target.key (resized (b target.key).bytes n)
