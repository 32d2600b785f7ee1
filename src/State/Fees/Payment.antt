-- ===== src/State/Fees/Payment.antt =====
-- What collecting a fee moves (`collect_fee_to_shard` and its callers in src/state/fees.rs): lamports,
-- never data.
use mathlib.Core.Path.{subst}
use txtcel_program.Base.{
  ℕ, ◌+◌, ◌-◌, ◌≡◌, ◌≢◌, refl, ◌∙◌, Bool, if◌then◌else◌, ltb, ◌==◌, max, arith,
}
use txtcel_program.Error.{ok}
use txtcel_program.Runtime.{Pubkey, Bank, AccountInfo, Runtime}
use txtcel_program.Runtime.Laws.{IsRuntime}
use txtcel_program.Runtime.Tx.{Tx, run, when}
use txtcel_program.Runtime.Hoare.{
  Holds, held, Holds-bind, Holds-check, Holds-gets, Holds-lift, Holds-run, Holds-if, Holds-mono,
  Holds-pure,
}
use txtcel_program.State.AccountUtils.Effects.{Frame}
use txtcel_program.State.Fees.{
  compute_fee_split, collect_fee_to_shard, collect_base_fee, transfer_fee_split,
}

-- Data and owners are kept.
pub record SameData (b b' : Bank) : Type 0 where
  pub bytes : (k : Pubkey) → (b' k).bytes ≡ (b k).bytes
  pub owner : (k : Pubkey) → (b' k).owner ≡ (b k).owner

pub SameData-refl : (b : Bank) → SameData b b
SameData-refl b = record { bytes = λ k. refl; owner = λ k. refl }

pub SameData-trans : (b b1 b2 : Bank) → SameData b b1 → SameData b1 b2 → SameData b b2
SameData-trans b b1 b2 p q = record {
  bytes = λ k. q.bytes k ∙ p.bytes k;
  owner = λ k. q.owner k ∙ p.owner k;
}

pub SameData-Frame :
    (target : Pubkey) (b b1 b2 : Bank) → Frame target b b1 → SameData b1 b2 → Frame target b b2
SameData-Frame target b b1 b2 f s = record {
  bytes = λ k ne. s.bytes k ∙ f.bytes k ne;
  owner = λ k ne. s.owner k ∙ f.owner k ne;
}

pub when-SameData :
    (c : Bool) (t : Tx (Unit {0})) (b : Bank)
    → Holds (λ _ b'. SameData b b') (t b)
    → Holds (λ _ b'. SameData b b') (when c t b)
when-SameData c t b h = Holds-if c _ _ b (λ _. h) (λ _. Holds-pure tt b (SameData-refl b))

-- The amount that a shard of this balance receives.
abbrev pub due : ℕ → ℕ → ℕ → ℕ
due amount rent_min balance = if amount == 0 then 0 else max amount (rent_min - balance)

-- `n` lamports went from the payer to the shard, and no other balance has changed.
pub record Collected (payer shard : Pubkey) (n : ℕ) (b b' : Bank) : Type 0 where
  pub received : payer ≢ shard → (b' shard).lamports ≡ (b shard).lamports + n
  pub paid : payer ≢ shard → (b' payer).lamports + n ≡ (b payer).lamports
  pub others : (k : Pubkey) → k ≢ payer → k ≢ shard → (b' k).lamports ≡ (b k).lamports
  pub kept : SameData b b'

Collected-zero : (payer shard : Pubkey) (b : Bank) → Collected payer shard 0 b b
Collected-zero payer shard b = record {
  received = λ ne. omega arith;
  paid = λ ne. omega arith;
  others = λ k ne ne'. refl;
  kept = SameData-refl b;
}

module _ {R : Runtime} (L : IsRuntime R) where
  transfer-Collected :
      (payer shard : AccountInfo) (n : ℕ) (b : Bank)
      → Holds
          (λ _ b'. Collected payer.key shard.key n b b')
          (when (ltb 0 n) (run (R.transfer payer shard n)) b)
  transfer-Collected payer shard n b =
      Holds-if (ltb 0 n) _ _ b
        (λ t. Holds-mono (Holds-run _ b) λ _ b' e.
          let (funded, same) = L.transfer_ok payer shard n b b' e in
          held (
            rw same (record {
              received = λ ne. ground arith;
              paid = λ ne. ground arith;
              others = λ k ne ne'. ground arith;
              kept = record { bytes = λ k. ground arith; owner = λ k. ground arith };
            })))
        (λ t.
          let nothing : 0 ≡ n = ground arith in
          Holds-pure tt b (
            subst (λ m. Collected payer.key shard.key m b b) nothing
              (Collected-zero payer.key shard.key b)))

  -- Where rent is known, a collection that succeeds moves nothing for an amount of zero, and otherwise
  -- the greater of the amount and what the shard lacks of rent exemption; the payer pays exactly what
  -- the shard receives where the two differ, and no other balance and no data or owner changes.
  pub collect_fee_to_shard-Collected :
      (amount : ℕ) (payer shard : AccountInfo) {rent : ℕ → ℕ} (b : Bank)
      → R.rent ≡ ok rent
      → Holds
          (λ _ b'. Collected payer.key shard.key (due amount (rent 0) (b shard.key).lamports) b b')
          (collect_fee_to_shard R amount payer shard b)
  unfolding collect_fee_to_shard
  collect_fee_to_shard-Collected amount payer shard {rent} b rent_ok =
      let balance = (b shard.key).lamports in
      let fee = max amount (rent 0 - balance) in
      Holds-if (amount == 0) _ _ b
        (λ t.
          let nothing : 0 ≡ due amount (rent 0) balance = ground arith in
          Holds-pure tt b (
            subst (λ m. Collected payer.key shard.key m b b) nothing
              (Collected-zero payer.key shard.key b)))
        (λ t.
          let all : fee ≡ due amount (rent 0) balance = ground arith in
          Holds-lift _ _ b rent_ok (
            Holds-gets _ _ b (
              subst
                (λ m.
                  Holds (λ _ b'. Collected payer.key shard.key m b b')
                    (when (ltb 0 fee) (run (R.transfer payer shard fee)) b))
                all (transfer-Collected payer shard fee b))))

  pub collect_fee_to_shard-SameData :
      (amount : ℕ) (payer shard : AccountInfo) (b : Bank)
      → Holds (λ _ b'. SameData b b') (collect_fee_to_shard R amount payer shard b)
  unfolding collect_fee_to_shard
  collect_fee_to_shard-SameData amount payer shard b =
      Holds-if (amount == 0) _ _ b (λ t. Holds-pure tt b (SameData-refl b))
        (λ t. Holds-check _ _ b λ rent e.
          Holds-gets _ _ b (Holds-mono (transfer-Collected payer shard _ b) λ _ b' c. held c.kept))

  pub collect_base_fee-SameData :
      (lamports bps : ℕ) (payer shard : AccountInfo) (b : Bank)
      → Holds (λ _ b'. SameData b b') (collect_base_fee R lamports bps payer shard b)
  unfolding collect_base_fee
  collect_base_fee-SameData lamports bps payer shard b =
      collect_fee_to_shard-SameData _ payer shard b

  pub transfer_fee_split-SameData :
      (amount cut_bps : ℕ) (payer author_fee_shard treasury_shard : AccountInfo) (b : Bank)
      → Holds
          (λ _ b'. SameData b b')
          (transfer_fee_split R amount cut_bps payer author_fee_shard treasury_shard b)
  unfolding transfer_fee_split
  transfer_fee_split-SameData amount cut_bps payer author_fee_shard treasury_shard b =
      let (author, platform) = compute_fee_split amount cut_bps in
      Holds-bind _ _ b
        (when-SameData (ltb 0 platform) (collect_fee_to_shard R platform payer treasury_shard) b
          (collect_fee_to_shard-SameData platform payer treasury_shard b))
        λ _ b1 s.
          Holds-mono
            (when-SameData (ltb 0 author) (collect_fee_to_shard R author payer author_fee_shard) b1
              (collect_fee_to_shard-SameData author payer author_fee_shard b1))
            λ _ b2 t. held (SameData-trans b b1 b2 s t)
