-- ===== src/State/Fees/Prepared.antt =====
-- What setting up the fee shards leaves behind (`ensure_shard_initialized`, `validate_fee_shards` and
-- `prepare_fee_shards` in src/state/fees.rs).
use txtcel_program.Base.{ℕ, ◌+◌, ◌<◌, ◌≡◌, ◌≢◌, sym, ◌∙◌, [], ◌∷◌, to_le_bytes, arith}
use txtcel_program.Error.{ok}
use txtcel_program.Runtime.{Pubkey, Bank, AccountInfo, Runtime}
use txtcel_program.Runtime.Laws.{IsRuntime}
use txtcel_program.Runtime.Hoare.{Holds, held, at_ok, Holds-bind, Holds-check, Holds-mono}
use txtcel_program.State.Constants.{
  n_treasury_shards, n_author_fee_shards, treasury_shard_seed, author_fee_seed,
}
use txtcel_program.State.Pda.{key_bytes, derive_treasury_shard_pda, derive_author_fee_pda}
use txtcel_program.State.Asserts.{assert_pda}
use txtcel_program.State.Fees.{
  validate_treasury_shard, validate_author_fee_shard, validate_fee_shards,
  ensure_fee_shards_initialized, prepare_fee_shards,
}
use txtcel_program.State.Fees.Ready.{
  Same, Same-trans, Ready, ensure_shard_initialized-Ensured, Ensured-Same, Ready-then, Ready-from,
}

-- Both shards are the program's addresses for their numbers, which are in range, and are ready; the
-- payer pays for what is opened, and nothing else changes.
pub record Prepared (R : Runtime) (program_id payer : Pubkey)
    (treasury_shard author_fee_shard : AccountInfo) (thread_key : Pubkey)
    (treasury_shard_idx author_fee_shard_idx rent_min : ℕ) (b b' : Bank) : Type 0 where
  pub treasury_idx : treasury_shard_idx < n_treasury_shards
  pub treasury_key :
      treasury_shard.key ≡ (derive_treasury_shard_pda R program_id treasury_shard_idx).0
  pub author_idx : author_fee_shard_idx < n_author_fee_shards
  pub author_key :
      author_fee_shard.key ≡ (derive_author_fee_pda R program_id thread_key author_fee_shard_idx).0
  pub treasury : Ready R program_id treasury_shard rent_min b b'
  pub author : Ready R program_id author_fee_shard rent_min b b'
  pub paid :
      (b' payer).lamports + (b' treasury_shard.key).lamports + (b' author_fee_shard.key).lamports
      ≡ (b payer).lamports + (b treasury_shard.key).lamports + (b author_fee_shard.key).lamports
  pub payer_kept : ((b' payer).bytes ≡ (b payer).bytes) × ((b' payer).owner ≡ (b payer).owner)
  pub others :
      (k : Pubkey) → k ≢ payer → k ≢ treasury_shard.key → k ≢ author_fee_shard.key → Same k b b'

module _ {R : Runtime} (L : IsRuntime R) (program_id : Pubkey) {rent : ℕ → ℕ}
    (rent_ok : R.rent ≡ ok rent) where
  -- The checks of the two shards.
  validate_fee_shards_ok :
      (treasury_shard author_fee_shard : AccountInfo) (thread_key : Pubkey)
      (treasury_shard_idx author_fee_shard_idx : ℕ) (b : Bank) {bumps : ℕ × ℕ}
      → validate_fee_shards R program_id treasury_shard author_fee_shard thread_key
          treasury_shard_idx author_fee_shard_idx b
        ≡ ok bumps
      → (treasury_shard_idx < n_treasury_shards)
        × (treasury_shard.key ≡ (derive_treasury_shard_pda R program_id treasury_shard_idx).0)
        × (author_fee_shard_idx < n_author_fee_shards)
        × (author_fee_shard.key
            ≡ (derive_author_fee_pda R program_id thread_key author_fee_shard_idx).0)
  unfolding validate_fee_shards validate_treasury_shard validate_author_fee_shard assert_pda
  validate_fee_shards_ok treasury_shard author_fee_shard thread_key treasury_shard_idx
        author_fee_shard_idx b e =
      ground arith

  prepares :
      (payer treasury_shard author_fee_shard system_program_account : AccountInfo)
      (thread_key : Pubkey) (treasury_shard_idx author_fee_shard_idx : ℕ) (b : Bank)
      → payer.key ≢ treasury_shard.key
      → payer.key ≢ author_fee_shard.key
      → treasury_shard.key ≢ author_fee_shard.key
      → Holds
          (λ _ b'.
            Prepared R program_id payer.key treasury_shard author_fee_shard thread_key
              treasury_shard_idx author_fee_shard_idx
              (rent 0)
              b
              b')
          (prepare_fee_shards R program_id payer treasury_shard author_fee_shard
            system_program_account thread_key treasury_shard_idx author_fee_shard_idx b)
  unfolding prepare_fee_shards ensure_fee_shards_initialized
  prepares payer treasury_shard author_fee_shard system_program_account thread_key
        treasury_shard_idx author_fee_shard_idx b pt pa ta =
      let p = payer.key in
      let t = treasury_shard.key in
      let a = author_fee_shard.key in
      Holds-check _ _ b λ bumps checked.
        let (t_idx, t_key, a_idx, a_key) =
          validate_fee_shards_ok treasury_shard author_fee_shard thread_key treasury_shard_idx
            author_fee_shard_idx b checked in
        Holds-bind _ _ b
          (ensure_shard_initialized-Ensured L program_id rent_ok payer treasury_shard
            system_program_account (treasury_shard_seed ∷ to_le_bytes 2 treasury_shard_idx ∷ [])
            bumps.0 b pt)
          λ _ b1 first.
            Holds-mono
              (ensure_shard_initialized-Ensured L program_id rent_ok payer author_fee_shard
                system_program_account
                (author_fee_seed ∷ key_bytes thread_key ∷ (author_fee_shard_idx ∷ []) ∷ []) bumps.1
                b1 pa)
              λ _ b2 second.
                let author_kept =
                  Ensured-Same program_id p treasury_shard (rent 0) a b b1 first (λ q. pa (sym q))
                    (λ q. ta (sym q)) in
                let treasury_kept =
                  Ensured-Same program_id p author_fee_shard (rent 0) t b1 b2 second
                    (λ q. pt (sym q)) ta in
                held (record {
                  treasury_idx = t_idx;
                  treasury_key = t_key;
                  author_idx = a_idx;
                  author_key = a_key;
                  treasury =
                      Ready-then program_id treasury_shard (rent 0) b b1 b2 first.ready
                        treasury_kept;
                  author =
                      Ready-from program_id author_fee_shard (rent 0) b b1 b2 author_kept
                        second.ready;
                  paid = omega (
                    arith, first.paid, second.paid, author_kept.lamports, treasury_kept.lamports,
                  );
                  payer_kept = (
                    second.frame.bytes p pa ∙ first.frame.bytes p pt,
                    second.frame.owner p pa ∙ first.frame.owner p pt,
                  );
                  others = λ k np nt na.
                      Same-trans k b b1 b2
                        (Ensured-Same program_id p treasury_shard (rent 0) k b b1 first np nt)
                        (Ensured-Same program_id p author_fee_shard (rent 0) k b1 b2 second np na);
                })

  -- Rent is known, and the payer and the two shards are three accounts. A preparation of the fee shards
  -- that succeeds was given the program's addresses for two numbers in range; a shard that did not
  -- exist is afterwards an empty account of the program with the greater of its balance and the
  -- minimum for rent exemption, and one that existed is as it was; the payer pays what the shards
  -- gain, and nothing else changes in any account.
  pub prepare_fee_shards-Prepared :
      (payer treasury_shard author_fee_shard system_program_account : AccountInfo)
      (thread_key : Pubkey) (treasury_shard_idx author_fee_shard_idx : ℕ) (b : Bank)
      → payer.key ≢ treasury_shard.key
      → payer.key ≢ author_fee_shard.key
      → treasury_shard.key ≢ author_fee_shard.key
      → (b' : Bank)
      → prepare_fee_shards R program_id payer treasury_shard author_fee_shard system_program_account
          thread_key treasury_shard_idx author_fee_shard_idx b
        ≡ ok (tt, b')
      → Prepared R program_id payer.key treasury_shard author_fee_shard thread_key
          treasury_shard_idx author_fee_shard_idx
          (rent 0)
          b
          b'
  prepare_fee_shards-Prepared payer treasury_shard author_fee_shard system_program_account
        thread_key treasury_shard_idx author_fee_shard_idx b pt pa ta b' e =
      at_ok
        (prepares payer treasury_shard author_fee_shard system_program_account thread_key
          treasury_shard_idx author_fee_shard_idx b pt pa ta)
        e
