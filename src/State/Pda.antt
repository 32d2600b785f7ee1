-- ===== src/State/Pda.antt =====
-- The derivations of program addresses (src/state/pda.rs, and `derive_content_pda` of
-- src/content/mod.rs), over `Pubkey::find_program_address`.
use txtcel_program.Base.{ℕ, ◌%◌, [], ◌∷◌, to_le_bytes}
use txtcel_program.Borsh.{Bytes}
use txtcel_program.Runtime.{Pubkey, Runtime}
use txtcel_program.State.Constants.{
  n_follower_shards, settings_seed, alloc_seed, access_seed, acl_seed, likes_seed,
  treasury_shard_seed, author_fee_seed, follows_seed, follower_count_seed, content_seed,
}

-- `Pubkey::as_ref`
abbrev pub key_bytes : Pubkey → Bytes
key_bytes = to_le_bytes 32

module _ (R : Runtime) (program_id : Pubkey) where
  unfoldable pub derive_settings_pda : Pubkey × ℕ
  derive_settings_pda = R.find_program_address (settings_seed ∷ []) program_id

  unfoldable pub derive_alloc_pda : Pubkey → ℕ → Pubkey × ℕ
  derive_alloc_pda thread alloc_seq =
      R.find_program_address (alloc_seed ∷ key_bytes thread ∷ to_le_bytes 4 alloc_seq ∷ [])
        program_id

  unfoldable pub derive_access_pda : Pubkey → Pubkey × ℕ
  derive_access_pda thread = R.find_program_address (access_seed ∷ key_bytes thread ∷ []) program_id

  unfoldable pub derive_access_entry_pda : Pubkey → Pubkey → Pubkey × ℕ
  derive_access_entry_pda thread wallet =
      R.find_program_address (acl_seed ∷ key_bytes thread ∷ key_bytes wallet ∷ []) program_id

  unfoldable pub derive_likes_pda : Pubkey → ℕ → Pubkey × ℕ
  derive_likes_pda thread alloc_seq =
      R.find_program_address (likes_seed ∷ key_bytes thread ∷ to_le_bytes 4 alloc_seq ∷ [])
        program_id

  unfoldable pub derive_treasury_shard_pda : ℕ → Pubkey × ℕ
  derive_treasury_shard_pda shard =
      R.find_program_address (treasury_shard_seed ∷ to_le_bytes 2 shard ∷ []) program_id

  unfoldable pub derive_author_fee_pda : Pubkey → ℕ → Pubkey × ℕ
  derive_author_fee_pda thread shard =
      R.find_program_address (author_fee_seed ∷ key_bytes thread ∷ (shard ∷ []) ∷ []) program_id

  unfoldable pub derive_follow_registry_pda : Pubkey → Pubkey × ℕ
  derive_follow_registry_pda owner =
      R.find_program_address (follows_seed ∷ key_bytes owner ∷ []) program_id

  unfoldable pub derive_follower_shard_pda : Pubkey → ℕ → Pubkey × ℕ
  derive_follower_shard_pda thread shard =
      R.find_program_address (follower_count_seed ∷ key_bytes thread ∷ (shard ∷ []) ∷ []) program_id

  unfoldable pub derive_content_pda : Pubkey → ℕ → ℕ → Pubkey × ℕ
  derive_content_pda thread alloc_seq slot =
      R.find_program_address
        (content_seed ∷ key_bytes thread ∷ to_le_bytes 4 alloc_seq ∷ (slot ∷ []) ∷ []) program_id

abbrev first_byte : Bytes → ℕ
first_byte [] = 0
first_byte (d ∷ ds) = d

-- The shard of a wallet, by its first byte.
unfoldable pub follower_shard_index : Pubkey → ℕ
unfolding to_le_bytes
follower_shard_index wallet = first_byte (key_bytes wallet) % n_follower_shards
