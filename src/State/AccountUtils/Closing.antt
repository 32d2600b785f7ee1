-- ===== src/State/AccountUtils/Closing.antt =====
-- What closing an account does (`close_program_account` of src/state/account_utils.rs).
use txtcel_program.Base.{
  ℕ, ◌+◌, ◌-◌, ◌<◌, ◌≡◌, ◌≢◌, ap, ==_refl, ==_iff, ◌==◌, Bool-cases, inl, inr, [], length,
  replicate, u64_mod, arith,
}
use txtcel_program.Borsh.{Bytes}
use txtcel_program.Runtime.{Pubkey, Account, Bank, AccountInfo, set_lamports, Runtime}
use txtcel_program.Runtime.Laws.{IsRuntime, resized}
use txtcel_program.Runtime.Hoare.{
  Holds, Holds-bind, Holds-check, Holds-gets, Holds-run, Holds-modify, Holds-modified,
}
use txtcel_program.State.AccountUtils.Effects.{Frame}
use txtcel_program.State.AccountUtils.{credit, close_program_account}

pub credit-Holds :
    (account : AccountInfo) (n : ℕ) (b : Bank)
    → Holds
        (λ _ b'.
          ((b account.key).lamports + n < u64_mod)
          × (b' ≡ set_lamports b account.key ((b account.key).lamports + n)))
        (credit account n b)
unfolding credit
credit-Holds account n b = Holds-check _ _ b λ total e.
    let same : total ≡ (b account.key).lamports + n = ground arith in
    Holds-modified _ b (ground arith, ap (set_lamports b account.key) same)

-- The account is emptied, handed back to the System Program, and its balance is the recipient's.
pub record Closed (system_id recipient account : Pubkey) (b b' : Bank) : Type 0 where
  pub lamports : (b' account).lamports ≡ 0
  pub bytes : (b' account).bytes ≡ []
  pub owner : (b' account).owner ≡ system_id
  pub refunded : (b' recipient).lamports ≡ (b recipient).lamports + (b account).lamports
  pub recipient_bytes : (b' recipient).bytes ≡ (b recipient).bytes
  pub recipient_owner : (b' recipient).owner ≡ (b recipient).owner
  pub others : (k : Pubkey) → k ≢ recipient → k ≢ account → b' k ≡ b k

resized-zero : (bytes : Bytes) → resized bytes 0 ≡ []
resized-zero bytes =
    let nothing : 0 - length bytes ≡ 0 = omega arith in ap (λ n. replicate n 0) nothing

module _ {R : Runtime} (L : IsRuntime R) where
  -- Where the recipient is another account, closing an account that succeeds leaves it without lamports,
  -- without data and owned by the System Program, adds its balance to the recipient's, and changes
  -- nothing else.
  pub close_program_account-Closed :
      (account recipient : AccountInfo) (b : Bank)
      → recipient.key ≢ account.key
      → Holds
          (λ _ b'. Closed R.system_id recipient.key account.key b b')
          (close_program_account R account recipient b)
  unfolding close_program_account
  close_program_account-Closed account recipient b ne = Holds-gets _ _ b (
      Holds-bind _ _ b (credit-Holds recipient (b account.key).lamports b) λ _ b1 (_, credited).
        Holds-modify _ _ b1 (
          Holds-modify _ _ _ (
            Holds-bind _ _ _ (Holds-run _ _) λ _ b2 e.
              let shrunk = L.resize_ok account 0 _ b2 e in
              Holds-modified _ b2 (
                rw (shrunk, credited)
                  (record {
                    lamports = ground arith;
                    bytes = rw (==_refl account.key) (resized-zero _);
                    owner = ground arith;
                    refunded = ground arith;
                    recipient_bytes = ground arith;
                    recipient_owner = ground arith;
                    others = λ k ne ne'. ground arith;
                  })))))

-- Closing changes no other account's data or owner.
pub Closed-Frame :
    (system_id recipient account : Pubkey) (b b' : Bank)
    → Closed system_id recipient account b b'
    → Frame account b b'
Closed-Frame system_id recipient account b b' c = record {
  bytes = λ k ne. elim (Bool-cases (k == recipient)) [
    | inl same ↦ rw ((==_iff k recipient).0 same) c.recipient_bytes
    | inr differs ↦ ap (λ (t : Account). t.bytes) (c.others k (ground arith) ne)
  ];
  owner = λ k ne. elim (Bool-cases (k == recipient)) [
    | inl same ↦ rw ((==_iff k recipient).0 same) c.recipient_owner
    | inr differs ↦ ap (λ (t : Account). t.owner) (c.others k (ground arith) ne)
  ];
}
