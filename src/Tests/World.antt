-- ===== src/Tests/World.antt =====
-- A runtime that computes: addresses by a hash, rent by the size, and the calls with the checks of
-- the System Program that matter here. It meets the laws that the development takes of the runtime.
use txtcel_program.Base.{
  ℕ, ◌+◌, ◌*◌, ◌%◌, leb, ◌==◌, if◌then◌else◌, Bool-cases, inl, inr, ◌&&◌, List, [], ◌∷◌, length,
  replicate, arith, pubkey_mod,
}
use txtcel_program.Base.Int.{pos}
use txtcel_program.Error.{Result, ok, err, external}
use txtcel_program.Borsh.{Bytes}
use txtcel_program.Runtime.{Pubkey, Bank, AccountInfo, set_bytes, set_owner, Seeds, Runtime}
use txtcel_program.Runtime.Laws.{moved, resized, created, IsRuntime}
use txtcel_program.Tests.Format.{format, format_laws}

abbrev hash_bytes : ℕ → Bytes → ℕ
hash_bytes h [] = h
hash_bytes h (d ∷ ds) = hash_bytes ((h * 257 + d + 1) % pubkey_mod) ds

abbrev hash : ℕ → Seeds → ℕ
hash h [] = h
hash h (s ∷ ss) = hash (hash_bytes h s) ss

abbrev transfer : AccountInfo → AccountInfo → ℕ → Bank → Result Bank
transfer payer target n b =
    if (payer.is_signer && (b payer.key).owner == 0) && leb n (b payer.key).lamports
    then ok (moved payer.key target.key n b)
    else err (external 1)

abbrev create_account : AccountInfo → AccountInfo → ℕ → ℕ → Pubkey → List Seeds → Bank → Result Bank
create_account payer target n space owner seeds b =
    if (payer.is_signer && (b target.key).lamports == 0) && leb n (b payer.key).lamports
    then ok (created payer.key target.key n space owner b)
    else err (external 0)

abbrev allocate : AccountInfo → ℕ → List Seeds → Bank → Result Bank
allocate target space seeds b =
    if length (b target.key).bytes == 0
    then ok (set_bytes b target.key (replicate space 0))
    else err (external 0)

abbrev assign : AccountInfo → Pubkey → List Seeds → Bank → Result Bank
assign target owner seeds b =
    if (b target.key).owner == 0 then ok (set_owner b target.key owner) else err (external 0)

abbrev resize : AccountInfo → ℕ → Bank → Result Bank
resize target n b =
    if leb n 10485760
    then ok (set_bytes b target.key (resized (b target.key).bytes n))
    else err (external 2)

abbrev pub rent_of : ℕ → ℕ
rent_of n = (128 + n) * 6960

abbrev pub world : Runtime
world = record {
  borsh = format;
  system_id = 0;
  loader_id = 1;
  find_program_address = λ seeds program_id. (hash (program_id + 7) seeds, 255);
  rent = ok rent_of;
  unix_timestamp = ok (pos 1000);
  transfer = transfer;
  create_account = create_account;
  allocate = allocate;
  assign = assign;
  resize = resize;
}

pub world_laws : IsRuntime world
world_laws = record {
  is_borsh = format_laws;
  transfer_ok = λ payer target n b b' e.
      elim (Bool-cases
        ((payer.is_signer && (b payer.key).owner == 0) && leb n (b payer.key).lamports)) [
          | inl fine ↦ (ground arith, ground arith)
          | inr fails ↦ ground arith
        ];
  create_account_ok = λ payer target n space owner seeds b b' e.
      elim (Bool-cases
        ((payer.is_signer && (b target.key).lamports == 0) && leb n (b payer.key).lamports)) [
          | inl fine ↦ (ground arith, ground arith)
          | inr fails ↦ ground arith
        ];
  allocate_ok = λ target space seeds b b' e. ground arith;
  assign_ok = λ target owner seeds b b' e. ground arith;
  resize_ok = λ target n b b' e. ground arith;
}
