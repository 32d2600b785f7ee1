-- ===== src/System/Frames.antt =====
-- What leaves the other accounts of the program sound: a change of lamports, of one account, and a
-- write.
use mathlib.Core.Path.{subst}
use txtcel_program.Base.{
  ◌==◌, ==_iff, ==_refl, ◌≡◌, ◌≢◌, sym, ◌∙◌, Bool-cases, inl, inr, leb, [], ◌++◌, length, drop,
  arith,
}
use txtcel_program.Borsh.{Bytes, Codec}
use txtcel_program.Runtime.{Pubkey, Bank, AccountInfo, set_bytes, Runtime}
use txtcel_program.Runtime.Laws.{IsRuntime}
use txtcel_program.Runtime.Tx.{serialize}
use txtcel_program.Runtime.Hoare.{
  Holds, held, failed, Holds-bind, Holds-gets, Holds-modified, Holds-modify, Holds-run,
}
use txtcel_program.State.AccountUtils.{close_program_account}
use txtcel_program.State.AccountUtils.Effects.{Frame}
use txtcel_program.State.AccountUtils.Closing.{credit-Holds}
use txtcel_program.State.Fees.Payment.{SameData}
use txtcel_program.System.Sound.{Sound, SoundBut, SoundBank}

module _ (R : Runtime) (program_id : Pubkey) (skip : Pubkey → Type 0) where
  pub SameData-SoundBut :
      (b b' : Bank) → SameData b b' → SoundBut R program_id skip b → SoundBut R program_id skip b'
  SameData-SoundBut b b' s h k kept owned =
      subst (Sound R.borsh) (sym (s.bytes k)) (h k kept (sym (s.owner k) ∙ owned))

  pub Frame-SoundBut :
      (target : Pubkey) (b b' : Bank)
      → Frame target b b'
      → Sound R.borsh (b' target).bytes
      → SoundBut R program_id skip b
      → SoundBut R program_id skip b'
  Frame-SoundBut target b b' f new h k kept owned = elim (Bool-cases (k == target)) [
    | inl same ↦ subst (λ j. Sound R.borsh (b' j).bytes) (sym ((==_iff k target).0 same)) new
    | inr differs ↦
        let ne : k ≢ target = ground arith in
        subst (Sound R.borsh) (sym (f.bytes k ne)) (h k kept (sym (f.owner k ne) ∙ owned))
  ]

module _ (R : Runtime) (program_id : Pubkey) (target : Pubkey) (b b' : Bank) where
  -- The account that was skipped is sound again, or is no longer the program's.
  pub Frame-SoundBank :
      Frame target b b'
      → ((b' target).owner ≡ program_id → Sound R.borsh (b' target).bytes)
      → SoundBut R program_id (λ k. k ≡ target) b
      → SoundBank R program_id b'
  Frame-SoundBank f new h k kept owned = elim (Bool-cases (k == target)) [
    | inl same ↦
        let q : target ≡ k = sym ((==_iff k target).0 same) in
        subst (λ j. (b' j).owner ≡ program_id → Sound R.borsh (b' j).bytes) q new owned
    | inr differs ↦
        let ne : k ≢ target = ground arith in
        subst (Sound R.borsh) (sym (f.bytes k ne)) (h k ne (sym (f.owner k ne) ∙ owned))
  ]

  -- An account is skipped while it changes.
  pub Frame-skips :
      Frame target b b' → SoundBank R program_id b → SoundBut R program_id (λ k. k ≡ target) b'
  Frame-skips f h k ne owned =
      subst (Sound R.borsh) (sym (f.bytes k ne)) (h k (λ x. x) (sym (f.owner k ne) ∙ owned))

-- What `serialize` leaves in the account.
pub record Written (key : Pubkey) (front : Bytes) (b b' : Bank) : Type 0 where
  pub rest : Bytes
  pub bytes : (b' key).bytes ≡ front ++ rest
  pub owner : (b' key).owner ≡ (b key).owner
  pub frame : Frame key b b'

set_bytes-Written :
    (key : Pubkey) (front rest : Bytes) (b : Bank)
    → Written key front b (set_bytes b key (front ++ rest))
set_bytes-Written key front rest b = record {
  rest = rest;
  bytes = rw (==_refl key);
  owner = rw (==_refl key);
  frame = record { bytes = λ k ne. ground arith; owner = λ k ne. ground arith };
}

pub serialize-Written :
    {A : Type 0} (c : Codec A) (x : A) (account : AccountInfo) (b : Bank)
    → Holds (λ _ b'. Written account.key (c.put x []) b b') (serialize c x account b)
unfolding serialize
serialize-Written c x account b =
    let front = c.put x [] in
    let old = (b account.key).bytes in
    elim (Bool-cases (leb (length front) (length old))) [
      | inl fits ↦ rw fits (held (set_bytes-Written account.key front (drop (length front) old) b))
      | inr short ↦ rw short failed
    ]

-- Closing hands the account to the System Program, whoever the recipient is.
module _ {R : Runtime} (L : IsRuntime R) where
  pub close_program_account-Frame :
      (account recipient : AccountInfo) (b : Bank)
      → Holds
          (λ _ b'. ((b' account.key).owner ≡ R.system_id) × Frame account.key b b')
          (close_program_account R account recipient b)
  unfolding close_program_account
  close_program_account-Frame account recipient b = Holds-gets _ _ b (
      Holds-bind _ _ b (credit-Holds recipient (b account.key).lamports b) λ _ b1 (_, credited).
        Holds-modify _ _ b1 (
          Holds-modify _ _ _ (
            Holds-bind _ _ _ (Holds-run _ _) λ _ b2 e.
              let shrunk = L.resize_ok account 0 _ b2 e in
              Holds-modified _ b2 (
                rw (shrunk, credited)
                  (
                    ground arith,
                    record { bytes = λ k ne. ground arith; owner = λ k ne. ground arith },
                  )))))
