-- ===== src/System/Handlers/Sweeps.antt =====
-- A sweep moves lamports only (src/processor/sweep_treasury.rs, sweep_author_fees.rs).
use txtcel_program.Base.{ℕ, ◌-◌, ◌≡◌, ltb, List, [], ◌∷◌, All, arith}
use txtcel_program.Error.{ok}
use txtcel_program.Borsh.Laws.{Fits}
use txtcel_program.Runtime.{Pubkey, Bank, AccountInfo, set_lamports, Runtime}
use txtcel_program.Runtime.Check.{Check}
use txtcel_program.Runtime.Hoare.{
  Holds, held, Holds-bind, Holds-check, Holds-fail_if, Holds-gets, Holds-if, Holds-lift,
  Holds-modify, Holds-mono, Holds-pure, Holds-take,
}
use txtcel_program.State.Asserts.{is_uninitialized}
use txtcel_program.State.AccountUtils.Closing.{credit-Holds}
use txtcel_program.State.AccountUtils.{credit}
use txtcel_program.State.Fees.{
  sweep_shard_excess, validate_treasury_shard, validate_author_fee_shard,
}
use txtcel_program.State.Fees.Payment.{SameData, SameData-refl, SameData-trans}
use txtcel_program.Processor.Sweep.{sweep_shards, process_sweep_treasury, process_sweep_author_fees}
use txtcel_program.System.Sound.{SoundBank, Nowhere}
use txtcel_program.System.Frames.{SameData-SoundBut}

pub set_lamports-SameData : (b : Bank) (k : Pubkey) (n : ℕ) → SameData b (set_lamports b k n)
set_lamports-SameData b k n = record { bytes = λ j. ground arith; owner = λ j. ground arith }

pub credit-SameData :
    (account : AccountInfo) (n : ℕ) (b : Bank) → Holds (λ _ b'. SameData b b') (credit account n b)
credit-SameData account n b =
    Holds-mono (credit-Holds account n b)
      λ _ b' (_, same). held (rw same (set_lamports-SameData b account.key _))

sweep_shard_excess-SameData :
    (shard recipient : AccountInfo) (rent_min : ℕ) (b : Bank)
    → Holds (λ _ b'. SameData b b') (sweep_shard_excess shard recipient rent_min b)
unfolding sweep_shard_excess
sweep_shard_excess-SameData shard recipient rent_min b = Holds-gets _ _ b (
    let excess = (b shard.key).lamports - rent_min in
    let b1 = set_lamports b shard.key rent_min in
    Holds-if (ltb 0 excess) _ _ b
      (λ _. Holds-modify _ _ b (
        Holds-mono (credit-SameData recipient excess b1)
          λ _ b2 s. held (SameData-trans b b1 b2 (set_lamports-SameData b shard.key rent_min) s)))
      (λ _. Holds-pure tt b (SameData-refl b)))

module _ (R : Runtime) (program_id : Pubkey) where
  sweep_shards-keeps :
      (validate : AccountInfo → ℕ → Check ℕ) (recipient : AccountInfo) (rent_min : ℕ)
      (shards : List AccountInfo) (indices : List ℕ) (b : Bank)
      → SoundBank R program_id b
      → Holds
          (λ _ b'. SoundBank R program_id b')
          (sweep_shards R program_id validate recipient rent_min shards indices b)
  unfolding sweep_shards
  sweep_shards-keeps validate recipient rent_min [] indices b h = Holds-pure tt b h
  sweep_shards-keeps validate recipient rent_min (a ∷ shards) [] b h = Holds-pure tt b h
  sweep_shards-keeps validate recipient rent_min (a ∷ shards) (i ∷ indices) b h = Holds-gets _ _ b (
      Holds-bind {P = λ _ b'. SoundBank R program_id b'} _ _ b
        (Holds-if (is_uninitialized R a b) _ _ b (λ _. Holds-pure tt b h)
          (λ _. Holds-check _ _ b λ _ _. Holds-check _ _ b λ _ _. Holds-check _ _ b λ _ _.
            Holds-mono (sweep_shard_excess-SameData a recipient rent_min b)
              λ _ b' s. held (SameData-SoundBut R program_id Nowhere b b' s h)))
        λ _ b1 h1. sweep_shards-keeps validate recipient rent_min shards indices b1 h1)

  module _ (accounts : List AccountInfo) (keyed : All (λ a. Fits 32 a.key) accounts) (b : Bank)
      (h : SoundBank R program_id b) {rent : ℕ → ℕ} (rent_ok : R.rent ≡ ok rent)
      (shard_indices : List ℕ) where
    pub process_sweep_treasury-keeps :
        Holds
          (λ _ b'. SoundBank R program_id b')
          (process_sweep_treasury R program_id accounts shard_indices b)
    unfolding process_sweep_treasury
    process_sweep_treasury-keeps = Holds-take accounts _ b keyed λ settings_account r1 _ k1.
        Holds-take r1 _ b k1 λ wallet shards _ _. Holds-check _ _ b λ settings _.
          Holds-fail_if _ _ _ b λ _. Holds-check _ _ b λ _ _. Holds-lift _ _ b rent_ok (
            Holds-fail_if _ _ _ b λ _. Holds-fail_if _ _ _ b λ _.
              sweep_shards-keeps (validate_treasury_shard R program_id) wallet (rent 0) shards
                shard_indices b h)

    pub process_sweep_author_fees-keeps :
        Holds
          (λ _ b'. SoundBank R program_id b')
          (process_sweep_author_fees R program_id accounts shard_indices b)
    unfolding process_sweep_author_fees
    process_sweep_author_fees-keeps = Holds-take accounts _ b keyed λ thread_account r1 _ k1.
        Holds-take r1 _ b k1 λ wallet shards _ _. Holds-check _ _ b λ thread _.
          Holds-fail_if _ _ _ b λ _. Holds-check _ _ b λ _ _. Holds-check _ _ b λ _ _.
            Holds-lift _ _ b rent_ok (
              Holds-fail_if _ _ _ b λ _. Holds-fail_if _ _ _ b λ _.
                sweep_shards-keeps (validate_author_fee_shard R program_id thread_account.key)
                  wallet (rent 0) shards shard_indices b h)
