-- ===== src/State/Fees/Undisturbed.antt =====
-- Setting up a fee shard (`ensure_shard_initialized` of src/state/fees.rs) leaves alone whatever already
-- belongs to a program.
use txtcel_program.State.Constants.{treasury_shard_seed, author_fee_seed}
use txtcel_program.State.Pda.{key_bytes}
use txtcel_program.Base.{[], ◌∷◌, to_le_bytes, sym, ℕ, ◌≡◌, ◌≢◌, refl, ap, ◌∙◌, true}
use txtcel_program.Error.{ok}
use txtcel_program.Runtime.{Pubkey, Bank, AccountInfo, Seeds, Runtime}
use txtcel_program.Runtime.Laws.{IsRuntime}
use txtcel_program.Runtime.Hoare.{
  Holds, held, Holds-bind, Holds-check, Holds-gets, Holds-if, Holds-mono, Holds-pure,
}
use txtcel_program.State.Asserts.{is_uninitialized}
use txtcel_program.State.Asserts.Facts.{is_uninitialized-owner}
use txtcel_program.State.AccountUtils.Effects.{create_pda_account-Created}
use txtcel_program.State.Fees.{
  ensure_shard_initialized, ensure_fee_shards_initialized, prepare_fee_shards,
}
use txtcel_program.State.Fees.Payment.{SameData}

-- One account keeps its data and its owner.
pub record Undisturbed (k : Pubkey) (b b' : Bank) : Type 0 where
  pub bytes : (b' k).bytes ≡ (b k).bytes
  pub owner : (b' k).owner ≡ (b k).owner

pub Undisturbed-trans :
    (k : Pubkey) (b b1 b2 : Bank) → Undisturbed k b b1 → Undisturbed k b1 b2 → Undisturbed k b b2
Undisturbed-trans k b b1 b2 p q = record { bytes = q.bytes ∙ p.bytes; owner = q.owner ∙ p.owner }

pub SameData-Undisturbed : (k : Pubkey) (b b' : Bank) → SameData b b' → Undisturbed k b b'
SameData-Undisturbed k b b' s = record { bytes = s.bytes k; owner = s.owner k }

-- Whatever belongs to a program is not set up, and neither is another account.
spared :
    (R : Runtime) (shard : AccountInfo) (k : Pubkey) (b : Bank)
    → (b k).owner ≢ R.system_id
    → is_uninitialized R shard b ≡ true
    → k ≢ shard.key
spared R shard k b used fresh q =
    used (ap (λ j. (b j).owner) q ∙ is_uninitialized-owner R shard b fresh)

pub ensure_shard_initialized-Undisturbed_apart :
    {R : Runtime} (L : IsRuntime R) (program_id : Pubkey)
    (payer shard system_program_account : AccountInfo) (seeds : Seeds) (bump : ℕ) (k : Pubkey)
    {rent : ℕ → ℕ} (b : Bank)
    → R.rent ≡ ok rent
    → (is_uninitialized R shard b ≡ true → k ≢ shard.key)
    → Holds
        (λ _ b'. Undisturbed k b b')
        (ensure_shard_initialized R program_id payer shard system_program_account seeds bump b)
unfolding ensure_shard_initialized
ensure_shard_initialized-Undisturbed_apart {R} L program_id payer shard system_program_account seeds
      bump k b rent_ok apart =
    Holds-gets _ _ b (
      Holds-if (is_uninitialized R shard b) _ _ b
        (λ fresh.
          Holds-mono
            (create_pda_account-Created L program_id payer shard system_program_account _ _ b
              rent_ok)
            λ _ b' made.
              let ne = apart fresh in
              held (record { bytes = made.frame.bytes k ne; owner = made.frame.owner k ne }))
        (λ taken. Holds-pure tt b (record { bytes = refl; owner = refl })))

pub ensure_shard_initialized-Undisturbed :
    {R : Runtime} (L : IsRuntime R) (program_id : Pubkey)
    (payer shard system_program_account : AccountInfo) (seeds : Seeds) (bump : ℕ) (k : Pubkey)
    {rent : ℕ → ℕ} (b : Bank)
    → R.rent ≡ ok rent
    → (b k).owner ≢ R.system_id
    → Holds
        (λ _ b'. Undisturbed k b b')
        (ensure_shard_initialized R program_id payer shard system_program_account seeds bump b)
ensure_shard_initialized-Undisturbed {R} L program_id payer shard system_program_account seeds bump
      k b rent_ok used =
    ensure_shard_initialized-Undisturbed_apart L program_id payer shard system_program_account seeds
      bump k b rent_ok (spared R shard k b used)

module _ {R : Runtime} (L : IsRuntime R) (program_id : Pubkey)
    (payer treasury_shard author_fee_shard system_program_account : AccountInfo) where
  pub prepare_fee_shards-Undisturbed :
      (thread_key : Pubkey) (treasury_shard_idx author_fee_shard_idx : ℕ) (k : Pubkey)
      {rent : ℕ → ℕ} (b : Bank)
      → R.rent ≡ ok rent
      → (b k).owner ≢ R.system_id
      → Holds
          (λ _ b'. Undisturbed k b b')
          (prepare_fee_shards R program_id payer treasury_shard author_fee_shard
            system_program_account thread_key treasury_shard_idx author_fee_shard_idx b)
  unfolding prepare_fee_shards ensure_fee_shards_initialized
  prepare_fee_shards-Undisturbed thread_key treasury_shard_idx author_fee_shard_idx k b rent_ok
        used =
      Holds-check _ _ b λ bumps _.
        Holds-bind _ _ b
          (ensure_shard_initialized-Undisturbed L program_id payer treasury_shard
            system_program_account (treasury_shard_seed ∷ to_le_bytes 2 treasury_shard_idx ∷ [])
            bumps.0 k b rent_ok used)
          λ _ b1 p.
            Holds-mono
              (ensure_shard_initialized-Undisturbed L program_id payer author_fee_shard
                system_program_account
                (author_fee_seed ∷ key_bytes thread_key ∷ (author_fee_shard_idx ∷ []) ∷ []) bumps.1
                k b1 rent_ok (λ q. used (sym p.owner ∙ q)))
              λ _ b2 p'. held (Undisturbed-trans k b b1 b2 p p')

  pub prepare_fee_shards-Undisturbed_apart :
      (thread_key : Pubkey) (treasury_shard_idx author_fee_shard_idx : ℕ) (k : Pubkey)
      {rent : ℕ → ℕ} (b : Bank)
      → R.rent ≡ ok rent
      → k ≢ treasury_shard.key
      → k ≢ author_fee_shard.key
      → Holds
          (λ _ b'. Undisturbed k b b')
          (prepare_fee_shards R program_id payer treasury_shard author_fee_shard
            system_program_account thread_key treasury_shard_idx author_fee_shard_idx b)
  unfolding prepare_fee_shards ensure_fee_shards_initialized
  prepare_fee_shards-Undisturbed_apart thread_key treasury_shard_idx author_fee_shard_idx k b
        rent_ok of_treasury of_author =
      Holds-check _ _ b λ bumps _.
        Holds-bind _ _ b
          (ensure_shard_initialized-Undisturbed_apart L program_id payer treasury_shard
            system_program_account (treasury_shard_seed ∷ to_le_bytes 2 treasury_shard_idx ∷ [])
            bumps.0 k b rent_ok (λ _. of_treasury))
          λ _ b1 p.
            Holds-mono
              (ensure_shard_initialized-Undisturbed_apart L program_id payer author_fee_shard
                system_program_account
                (author_fee_seed ∷ key_bytes thread_key ∷ (author_fee_shard_idx ∷ []) ∷ []) bumps.1
                k b1 rent_ok (λ _. of_author))
              λ _ b2 p'. held (Undisturbed-trans k b b1 b2 p p')
