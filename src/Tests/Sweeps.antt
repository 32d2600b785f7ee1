-- ===== src/Tests/Sweeps.antt =====
-- The fees of the platform and of the thread are swept to their wallets.
use txtcel_program.Base.{refl, [], ◌∷◌, ◌==◌, ◌≡◌, if◌then◌else◌, to_le_bytes, true, arith}
use txtcel_program.Error.{ok}
use txtcel_program.Runtime.{Bank, Pubkey}
use txtcel_program.Runtime.Tx.{◌>>=◌}
use txtcel_program.State.Accounts.{ProgramSettings, ThreadNode}
use txtcel_program.State.Pda.{
  derive_settings_pda, derive_treasury_shard_pda, derive_author_fee_pda, derive_alloc_pda,
  derive_access_pda, derive_access_entry_pda,
}
use txtcel_program.State.Codecs.{program_settings_codec, thread_node_codec}
use txtcel_program.State.Asserts.{is_uninitialized}
use txtcel_program.State.Loaders.{load_settings, load_thread}
use txtcel_program.Processor.Sweep.{process_sweep_treasury, process_sweep_author_fees}
use txtcel_program.Processor.Sweep.Floor.{
  Floored, process_sweep_treasury-Floored, process_sweep_author_fees-Floored,
}
use txtcel_program.Tests.LittleEndian.{put_le, get_le, put_all, get_all}
use txtcel_program.Tests.World.{world, rent_of}
use txtcel_program.Tests.Scene.{
  program, author, thread_key, settings_key, signer, writable, stored, scene, bank_of,
}

abbrev treasury_shard : Pubkey
treasury_shard = (derive_treasury_shard_pda world program 5).0

abbrev author_shard : Pubkey
author_shard = (derive_author_fee_pda world program thread_key 1).0

-- The scene with a shard of each kind.
abbrev earned : Bank
earned key =
    if key == treasury_shard
    then stored []
    else if key == author_shard
    then stored []
    else scene key

abbrev after_treasury : Bank
after_treasury = bank_of (
    process_sweep_treasury world program
      (writable settings_key ∷ writable 80 ∷ writable treasury_shard ∷ []) (5 ∷ []) earned)

process_sweep_treasury-Floored_example :
    (s : ProgramSettings) × (load_settings world program (writable settings_key) earned ≡ ok s)
    × (80 ≡ s.treasury)
    × Floored 80 (rent_of 0) earned after_treasury
unfolding ◌>>=◌ process_sweep_treasury load_settings program_settings_codec put_le get_le put_all
    get_all derive_settings_pda derive_treasury_shard_pda to_le_bytes is_uninitialized
    derive_author_fee_pda derive_alloc_pda derive_access_pda derive_access_entry_pda
process_sweep_treasury-Floored_example =
    process_sweep_treasury-Floored world program (writable treasury_shard ∷ []) (5 ∷ []) earned
      after_treasury (writable settings_key) (writable 80) refl (omega arith, tt) refl

abbrev after_author : Bank
after_author = bank_of (
    process_sweep_author_fees world program
      (writable thread_key ∷ signer author ∷ writable author_shard ∷ []) (1 ∷ []) earned)

process_sweep_author_fees-Floored_example :
    (t : ThreadNode) × (load_thread world program (writable thread_key) earned ≡ ok t)
    × (author ≡ t.author)
    × (true ≡ true)
    × Floored author (rent_of 0) earned after_author
unfolding ◌>>=◌ process_sweep_author_fees load_thread thread_node_codec put_le get_le put_all
    get_all derive_author_fee_pda to_le_bytes is_uninitialized derive_treasury_shard_pda
    derive_settings_pda
process_sweep_author_fees-Floored_example =
    process_sweep_author_fees-Floored world program (writable author_shard ∷ []) (1 ∷ []) earned
      after_author (writable thread_key) (signer author) refl (omega arith, tt) refl
