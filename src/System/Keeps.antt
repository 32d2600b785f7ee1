-- ===== src/System/Keeps.antt =====
-- The steps that the handlers share keep every account of the program sound.
use mathlib.Core.Path.{subst}
use txtcel_program.Base.{
  ℕ, ==_refl, ◌≡◌, ◌≢◌, sym, ◌∙◌, List, [], ◌∷◌, ◌++◌, replicate, to_le_bytes, arith,
}
use txtcel_program.Error.{ok}
use txtcel_program.Borsh.{Bytes, Codec}
use txtcel_program.Runtime.{Pubkey, Bank, AccountInfo, Seeds, Runtime}
use txtcel_program.Runtime.Laws.{IsRuntime}
use txtcel_program.Runtime.Tx.{serialize}
use txtcel_program.Runtime.Hoare.{
  Holds, held, Holds-bind, Holds-check, Holds-gets, Holds-if, Holds-mono, Holds-pure,
}
use txtcel_program.State.Asserts.{is_uninitialized}
use txtcel_program.State.AccountUtils.{
  create_pda_account, close_program_account, ensure_rent_exempt,
}
use txtcel_program.State.AccountUtils.Effects.{
  create_pda_account-Created, ensure_rent_exempt-ToppedUp,
}
use txtcel_program.State.Constants.{treasury_shard_seed, author_fee_seed}
use txtcel_program.State.Pda.{key_bytes}
use txtcel_program.State.Fees.{
  ensure_shard_initialized, ensure_fee_shards_initialized, prepare_fee_shards, transfer_fee_split,
  collect_base_fee, collect_fee_to_shard,
}
use txtcel_program.State.Fees.Payment.{
  collect_fee_to_shard-SameData, transfer_fee_split-SameData, collect_base_fee-SameData,
}
use txtcel_program.System.Sound.{Sound, SoundBut, SoundBank, zeros-Sound}
use txtcel_program.System.Frames.{
  SameData-SoundBut, Frame-SoundBut, Frame-SoundBank, Frame-skips, serialize-Written,
  close_program_account-Frame,
}

module _ {R : Runtime} (L : IsRuntime R) (program_id : Pubkey) (skip : Pubkey → Type 0)
    {rent : ℕ → ℕ} (rent_ok : R.rent ≡ ok rent) where
  abbrev Kept : {A : Type 0} → A → Bank → Type 0
  Kept _ b = SoundBut R program_id skip b

  -- A new account is zero.
  pub create_pda_account-keeps :
      (payer target system_program_account : AccountInfo) (space : ℕ) (seeds : Seeds) (b : Bank)
      → SoundBut R program_id skip b
      → Holds
          (Kept {A = Unit {0}})
          (create_pda_account R program_id payer target system_program_account space seeds b)
  create_pda_account-keeps payer target system_program_account space seeds b h =
      Holds-mono
        (create_pda_account-Created L program_id payer target system_program_account space seeds b
          rent_ok)
        λ _ b' made. held (
          Frame-SoundBut R program_id skip target.key b b' made.frame
            (subst (Sound R.borsh) (sym made.bytes) (zeros-Sound L.is_borsh space)) h)

  pub ensure_shard_initialized-keeps :
      (payer shard system_program_account : AccountInfo) (seeds : Seeds) (bump : ℕ) (b : Bank)
      → SoundBut R program_id skip b
      → Holds
          (Kept {A = Unit {0}})
          (ensure_shard_initialized R program_id payer shard system_program_account seeds bump b)
  unfolding ensure_shard_initialized
  ensure_shard_initialized-keeps payer shard system_program_account seeds bump b h =
      Holds-gets _ _ b (
        Holds-if (is_uninitialized R shard b) _ _ b
          (λ fresh.
            create_pda_account-keeps payer shard system_program_account 0
              (seeds ++ (bump ∷ []) ∷ []) b h)
          (λ used. Holds-pure tt b h))

  pub ensure_fee_shards_initialized-keeps :
      (payer treasury_shard author_fee_shard system_program_account : AccountInfo)
      (thread_key : Pubkey) (treasury_shard_idx author_fee_shard_idx treasury_bump author_bump : ℕ)
      (b : Bank)
      → SoundBut R program_id skip b
      → Holds (Kept {A = Unit {0}}) (
          ensure_fee_shards_initialized R program_id payer treasury_shard author_fee_shard
            system_program_account thread_key treasury_shard_idx author_fee_shard_idx treasury_bump
            author_bump b)
  unfolding ensure_fee_shards_initialized
  ensure_fee_shards_initialized-keeps payer treasury_shard author_fee_shard system_program_account
        thread_key treasury_shard_idx author_fee_shard_idx treasury_bump author_bump b h =
      Holds-bind _ _ b
        (ensure_shard_initialized-keeps payer treasury_shard system_program_account
          (treasury_shard_seed ∷ to_le_bytes 2 treasury_shard_idx ∷ []) treasury_bump b h)
        λ _ b1 h1.
          ensure_shard_initialized-keeps payer author_fee_shard system_program_account
            (author_fee_seed ∷ key_bytes thread_key ∷ (author_fee_shard_idx ∷ []) ∷ []) author_bump
            b1 h1

  pub prepare_fee_shards-keeps :
      (payer treasury_shard author_fee_shard system_program_account : AccountInfo)
      (thread_key : Pubkey) (treasury_shard_idx author_fee_shard_idx : ℕ) (b : Bank)
      → SoundBut R program_id skip b
      → Holds (Kept {A = Unit {0}}) (
          prepare_fee_shards R program_id payer treasury_shard author_fee_shard
            system_program_account thread_key treasury_shard_idx author_fee_shard_idx b)
  unfolding prepare_fee_shards
  prepare_fee_shards-keeps payer treasury_shard author_fee_shard system_program_account thread_key
        treasury_shard_idx author_fee_shard_idx b h =
      Holds-check _ _ b λ bumps _.
        ensure_fee_shards_initialized-keeps payer treasury_shard author_fee_shard
          system_program_account thread_key treasury_shard_idx author_fee_shard_idx bumps.0 bumps.1
          b h

  pub transfer_fee_split-keeps :
      (amount cut_bps : ℕ) (payer author_fee_shard treasury_shard : AccountInfo) (b : Bank)
      → SoundBut R program_id skip b
      → Holds
          (Kept {A = Unit {0}})
          (transfer_fee_split R amount cut_bps payer author_fee_shard treasury_shard b)
  transfer_fee_split-keeps amount cut_bps payer author_fee_shard treasury_shard b h =
      Holds-mono
        (transfer_fee_split-SameData L amount cut_bps payer author_fee_shard treasury_shard b)
        λ _ b' s. held (SameData-SoundBut R program_id skip b b' s h)

  pub collect_fee_to_shard-keeps :
      (amount : ℕ) (payer shard : AccountInfo) (b : Bank)
      → SoundBut R program_id skip b
      → Holds (Kept {A = Unit {0}}) (collect_fee_to_shard R amount payer shard b)
  collect_fee_to_shard-keeps amount payer shard b h =
      Holds-mono (collect_fee_to_shard-SameData L amount payer shard b)
        λ _ b' s. held (SameData-SoundBut R program_id skip b b' s h)

  pub collect_base_fee-keeps :
      (lamports bps : ℕ) (payer shard : AccountInfo) (b : Bank)
      → SoundBut R program_id skip b
      → Holds (Kept {A = Unit {0}}) (collect_base_fee R lamports bps payer shard b)
  collect_base_fee-keeps lamports bps payer shard b h =
      Holds-mono (collect_base_fee-SameData L lamports bps payer shard b)
        λ _ b' s. held (SameData-SoundBut R program_id skip b b' s h)

  pub ensure_rent_exempt-keeps :
      (payer target : AccountInfo) (data_len : ℕ) (b : Bank)
      → SoundBut R program_id skip b
      → Holds (Kept {A = Unit {0}}) (ensure_rent_exempt R payer target data_len b)
  ensure_rent_exempt-keeps payer target data_len b h =
      Holds-mono (ensure_rent_exempt-ToppedUp L payer target data_len b rent_ok) λ _ b' up.
        held (
          SameData-SoundBut R program_id skip b b' (record { bytes = up.bytes; owner = up.owner })
            h)

module _ (R : Runtime) (program_id : Pubkey) {A : Type 0} (c : Codec A) (x : A)
    (account : AccountInfo) (sound : (rest : Bytes) → Sound R.borsh (c.put x [] ++ rest))
    (b : Bank) where
  -- Writing a sound value, over whatever was there.
  pub serialize-closes :
      SoundBut R program_id (λ k. k ≡ account.key) b
      → Holds (λ _ b'. SoundBank R program_id b') (serialize c x account b)
  serialize-closes h = Holds-mono (serialize-Written c x account b) λ _ b' w. held (
      Frame-SoundBank R program_id account.key b b' w.frame
        (λ _. subst (Sound R.borsh) (sym w.bytes) (sound w.rest)) h)

  pub serialize-keeps :
      SoundBank R program_id b → Holds (λ _ b'. SoundBank R program_id b') (serialize c x account b)
  serialize-keeps h = serialize-closes (λ k _ owned. h k (λ x. x) owned)

module _ {R : Runtime} (L : IsRuntime R) (program_id : Pubkey) where
  pub close_program_account-keeps :
      (account recipient : AccountInfo) (b : Bank)
      → program_id ≢ R.system_id
      → SoundBank R program_id b
      → Holds (λ _ b'. SoundBank R program_id b') (close_program_account R account recipient b)
  close_program_account-keeps account recipient b ours h =
      Holds-mono (close_program_account-Frame L account recipient b) λ _ b' (gone, f). held (
        Frame-SoundBank R program_id account.key b b' f (λ owned. absurd (ours (sym owned ∙ gone)))
          (λ k _ owned. h k (λ x. x) owned))

  -- An account that is resized is skipped until it is written.
  pub resize-skips :
      (account : AccountInfo) (n : ℕ) (b b' : Bank)
      → R.resize account n b ≡ ok b'
      → SoundBank R program_id b
      → SoundBut R program_id (λ k. k ≡ account.key) b'
  resize-skips account n b b' e h =
      let same = L.resize_ok account n b b' e in
      Frame-skips R program_id account.key b b'
        (rw same (record { bytes = λ k ne. ground arith; owner = λ k ne. ground arith })) h

  pub create_account-keeps :
      (skip : Pubkey → Type 0) (payer target : AccountInfo) (n space : ℕ) (owner : Pubkey)
      (seeds : List Seeds) (b b' : Bank)
      → R.create_account payer target n space owner seeds b ≡ ok b'
      → SoundBut R program_id skip b
      → SoundBut R program_id skip b'
  create_account-keeps skip payer target n space owner seeds b b' e h =
      let (_, same) = L.create_account_ok payer target n space owner seeds b b' e in
      let zeros : (b' target.key).bytes ≡ replicate space 0 = rw (same, ==_refl target.key) in
      Frame-SoundBut R program_id skip target.key b b'
        (rw same (record { bytes = λ k ne. ground arith; owner = λ k ne. ground arith }))
        (subst (Sound R.borsh) (sym zeros) (zeros-Sound L.is_borsh space)) h
