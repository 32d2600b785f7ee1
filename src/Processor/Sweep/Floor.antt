-- ===== src/Processor/Sweep/Floor.antt =====
-- What a sweep takes (src/processor/sweep_treasury.rs, sweep_author_fees.rs and `sweep_shard_excess` of
-- src/state/fees.rs): the excess over the rent minimum, and no more.
use txtcel_program.Base.{
  ℕ, ◌+◌, ◌-◌, ◌≤◌, ◌≡◌, ◌≢◌, refl, true, ltb, ◌==◌, ==_iff, Bool-cases, inl, inr, min, List, [],
  ◌∷◌, All, arith,
}
use txtcel_program.Error.{ok}
use txtcel_program.Runtime.{Pubkey, Bank, AccountInfo, set_lamports, Runtime}
use txtcel_program.Runtime.Check.{Check}
use txtcel_program.Runtime.Hoare.{
  Holds, held, at_ok, Holds-bind, Holds-check, Holds-gets, Holds-lift, Holds-modify, Holds-next,
  Holds-fail_if, Holds-if, Holds-mono, Holds-pure,
}
use txtcel_program.State.Accounts.{ProgramSettings, ThreadNode}
use txtcel_program.State.Asserts.{is_uninitialized}
use txtcel_program.State.Asserts.Facts.{assert_signer_ok}
use txtcel_program.State.AccountUtils.Closing.{credit-Holds}
use txtcel_program.State.Fees.{
  sweep_shard_excess, validate_treasury_shard, validate_author_fee_shard,
}
use txtcel_program.State.Fees.Payment.{SameData, SameData-refl, SameData-trans}
use txtcel_program.State.Loaders.{load_settings, load_thread}
use txtcel_program.Processor.Sweep.{sweep_shards, process_sweep_treasury, process_sweep_author_fees}

-- One shard is taken down to the minimum, and the recipient has what it lost.
pub record Swept (recipient shard : Pubkey) (rent_min : ℕ) (b b' : Bank) : Type 0 where
  pub left : (b' shard).lamports ≡ min (b shard).lamports rent_min
  pub total :
      (b' recipient).lamports + (b' shard).lamports ≡ (b recipient).lamports + (b shard).lamports
  pub others : (k : Pubkey) → k ≢ recipient → k ≢ shard → (b' k).lamports ≡ (b k).lamports
  pub kept : SameData b b'

-- Where the recipient is another account, sweeping a shard leaves it the smaller of its balance and the
-- rent minimum; the recipient has exactly the rest, and no other balance and no data or owner changes.
pub sweep_shard_excess-Swept :
    (shard recipient : AccountInfo) (rent_min : ℕ) (b : Bank)
    → recipient.key ≢ shard.key
    → Holds
        (λ _ b'. Swept recipient.key shard.key rent_min b b')
        (sweep_shard_excess shard recipient rent_min b)
unfolding sweep_shard_excess
sweep_shard_excess-Swept shard recipient rent_min b ne =
    let excess = (b shard.key).lamports - rent_min in
    let b1 = set_lamports b shard.key rent_min in
    Holds-gets _ _ b (
      Holds-if (ltb 0 excess) _ _ b
        (λ t. Holds-modify _ _ b (
          Holds-mono (credit-Holds recipient excess b1) λ _ b' (_, same). held (
            rw same (record {
              left = ground arith;
              total = ground arith;
              others = λ k ne ne'. ground arith;
              kept = record { bytes = λ k. ground arith; owner = λ k. ground arith };
            }))))
        (λ t. Holds-pure tt b (record {
          left = ground arith;
          total = refl;
          others = λ k ne ne'. refl;
          kept = SameData-refl b;
        })))

-- No account but the recipient gains, none falls below the smaller of its balance and the minimum, and
-- no data or owner changes.
pub record Floored (recipient : Pubkey) (rent_min : ℕ) (b b' : Bank) : Type 0 where
  pub floor : (k : Pubkey) → k ≢ recipient → min (b k).lamports rent_min ≤ (b' k).lamports
  pub less : (k : Pubkey) → k ≢ recipient → (b' k).lamports ≤ (b k).lamports
  pub gains : (b recipient).lamports ≤ (b' recipient).lamports
  pub kept : SameData b b'

Floored-refl : (recipient : Pubkey) (rent_min : ℕ) (b : Bank) → Floored recipient rent_min b b
Floored-refl recipient rent_min b = record {
  floor = λ k ne. omega arith;
  less = λ k ne. omega arith;
  gains = omega arith;
  kept = SameData-refl b;
}

Floored-trans :
    (recipient : Pubkey) (rent_min : ℕ) (b b1 b2 : Bank)
    → Floored recipient rent_min b b1
    → Floored recipient rent_min b1 b2
    → Floored recipient rent_min b b2
Floored-trans recipient rent_min b b1 b2 p q = record {
  floor = λ k ne. omega (arith, p.floor k ne, q.floor k ne);
  less = λ k ne. omega (arith, p.less k ne, q.less k ne);
  gains = omega (arith, p.gains, q.gains);
  kept = SameData-trans b b1 b2 p.kept q.kept;
}

Swept-Floored :
    (recipient shard : Pubkey) (rent_min : ℕ) (b b' : Bank)
    → Swept recipient shard rent_min b b'
    → Floored recipient rent_min b b'
Swept-Floored recipient shard rent_min b b' s = record {
  floor = λ k ne. elim (Bool-cases (k == shard)) [
    | inl same ↦ rw ((==_iff k shard).0 same) (omega (arith, s.left))
    | inr differs ↦ omega (arith, s.others k ne (ground arith))
  ];
  less = λ k ne. elim (Bool-cases (k == shard)) [
    | inl same ↦ rw ((==_iff k shard).0 same) (omega (arith, s.left))
    | inr differs ↦ omega (arith, s.others k ne (ground arith))
  ];
  gains = omega (arith, s.left, s.total);
  kept = s.kept;
}

module _ (R : Runtime) (program_id : Pubkey) where
  sweep_shards-Floored :
      (validate : AccountInfo → ℕ → Check ℕ) (recipient : AccountInfo) (rent_min : ℕ)
      (shards : List AccountInfo) (indices : List ℕ) (b : Bank)
      → All (λ a. recipient.key ≢ a.key) shards
      → Holds
          (λ _ b'. Floored recipient.key rent_min b b')
          (sweep_shards R program_id validate recipient rent_min shards indices b)
  unfolding sweep_shards
  sweep_shards-Floored validate recipient rent_min [] indices b apart =
      Holds-pure tt b (Floored-refl recipient.key rent_min b)
  sweep_shards-Floored validate recipient rent_min (a ∷ shards) [] b apart =
      Holds-pure tt b (Floored-refl recipient.key rent_min b)
  sweep_shards-Floored validate recipient rent_min (a ∷ shards) (i ∷ indices) b (ne, apart) =
      Holds-gets _ _ b (
        Holds-bind {P = λ _ b'. Floored recipient.key rent_min b b'} _ _ b
          (Holds-if (is_uninitialized R a b) _ _ b
            (λ fresh. Holds-pure tt b (Floored-refl recipient.key rent_min b))
            (λ used. Holds-check _ _ b λ _ _. Holds-check _ _ b λ _ _. Holds-check _ _ b λ _ _.
              Holds-mono (sweep_shard_excess-Swept a recipient rent_min b ne)
                λ _ b' s. held (Swept-Floored recipient.key a.key rent_min b b' s)))
          λ _ b1 p.
            Holds-mono (sweep_shards-Floored validate recipient rent_min shards indices b1 apart)
              λ _ b2 q. held (Floored-trans recipient.key rent_min b b1 b2 p q))

  module _ (shards : List AccountInfo) (indices : List ℕ) {rent : ℕ → ℕ} (b b' : Bank) where
    treasury_holds :
        (settings_account wallet : AccountInfo)
        → R.rent ≡ ok rent
        → All (λ a. wallet.key ≢ a.key) shards
        → Holds
            (λ _ b'.
              (s : ProgramSettings) × (load_settings R program_id settings_account b ≡ ok s)
              × (wallet.key ≡ s.treasury)
              × Floored wallet.key (rent 0) b b')
            (process_sweep_treasury R program_id (settings_account ∷ wallet ∷ shards) indices b)
    unfolding process_sweep_treasury
    treasury_holds settings_account wallet rent_ok apart = Holds-next _ _ _ b (
        Holds-next _ _ _ b (
          Holds-check _ _ b λ s loaded. Holds-fail_if _ _ _ b λ same. Holds-check _ _ b λ _ _.
            Holds-lift _ _ b rent_ok (
              Holds-fail_if _ _ _ b λ _. Holds-fail_if _ _ _ b λ _.
                Holds-mono
                  (sweep_shards-Floored (validate_treasury_shard R program_id) wallet (rent 0)
                    shards indices b apart)
                  λ _ b' f. held (s, loaded, ground arith, f))))

    author_holds :
        (thread_account wallet : AccountInfo)
        → R.rent ≡ ok rent
        → All (λ a. wallet.key ≢ a.key) shards
        → Holds
            (λ _ b'.
              (t : ThreadNode) × (load_thread R program_id thread_account b ≡ ok t)
              × (wallet.key ≡ t.author)
              × (wallet.is_signer ≡ true)
              × Floored wallet.key (rent 0) b b')
            (process_sweep_author_fees R program_id (thread_account ∷ wallet ∷ shards) indices b)
    unfolding process_sweep_author_fees
    author_holds thread_account wallet rent_ok apart = Holds-next _ _ _ b (
        Holds-next _ _ _ b (
          Holds-check _ _ b λ t loaded. Holds-fail_if _ _ _ b λ same. Holds-check _ _ b λ _ signed.
            Holds-check _ _ b λ _ _. Holds-lift _ _ b rent_ok (
              Holds-fail_if _ _ _ b λ _. Holds-fail_if _ _ _ b λ _.
                Holds-mono
                  (sweep_shards-Floored (validate_author_fee_shard R program_id thread_account.key)
                    wallet (rent 0) shards indices b apart)
                  λ _ b' f. held (t, loaded, ground arith, assert_signer_ok wallet b signed, f))))

    -- Rent is known and no swept account is the wallet. A sweep of the treasury that succeeds goes to the
    -- treasury wallet of the settings; only the wallet gains, no account falls below the smaller of its
    -- balance and the rent minimum of an empty account, and no data or owner changes.
    pub process_sweep_treasury-Floored :
        (settings_account wallet : AccountInfo)
        → R.rent ≡ ok rent
        → All (λ a. wallet.key ≢ a.key) shards
        → process_sweep_treasury R program_id (settings_account ∷ wallet ∷ shards) indices b
          ≡ ok (tt, b')
        → (s : ProgramSettings) × (load_settings R program_id settings_account b ≡ ok s)
          × (wallet.key ≡ s.treasury)
          × Floored wallet.key (rent 0) b b'
    process_sweep_treasury-Floored settings_account wallet rent_ok apart =
        at_ok (treasury_holds settings_account wallet rent_ok apart)

    -- Rent is known and no swept account is the wallet. A sweep of a thread's fees that succeeds was signed
    -- by the thread's author and goes to the author's wallet; only the wallet gains, no account falls below
    -- the smaller of its balance and the rent minimum of an empty account, and no data or owner changes.
    pub process_sweep_author_fees-Floored :
        (thread_account wallet : AccountInfo)
        → R.rent ≡ ok rent
        → All (λ a. wallet.key ≢ a.key) shards
        → process_sweep_author_fees R program_id (thread_account ∷ wallet ∷ shards) indices b
          ≡ ok (tt, b')
        → (t : ThreadNode) × (load_thread R program_id thread_account b ≡ ok t)
          × (wallet.key ≡ t.author)
          × (wallet.is_signer ≡ true)
          × Floored wallet.key (rent 0) b b'
    process_sweep_author_fees-Floored thread_account wallet rent_ok apart =
        at_ok (author_holds thread_account wallet rent_ok apart)
