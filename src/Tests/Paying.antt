-- ===== src/Tests/Paying.antt =====
-- A newcomer pays the entry fee of a gated thread, and the fee shards of a thread are opened.
use txtcel_program.Base.{refl, [], ◌∷◌, ◌==◌, if◌then◌else◌, to_le_bytes, arith}
use txtcel_program.Runtime.{AccountInfo, Bank}
use txtcel_program.Runtime.Tx.{◌>>=◌, serialize}
use txtcel_program.State.Accounts.{ThreadAccess, access_entry_size}
use txtcel_program.State.Pda.{
  derive_settings_pda, derive_treasury_shard_pda, derive_author_fee_pda, derive_alloc_pda,
  derive_access_pda, derive_access_entry_pda,
}
use txtcel_program.State.Codecs.{
  program_settings_codec, thread_node_codec, thread_access_codec, access_entry_codec,
}
use txtcel_program.State.Asserts.{is_uninitialized}
use txtcel_program.State.Access.{set_access_entry_status, adjust_whitelist_count}
use txtcel_program.State.Loaders.{load_settings, load_thread, load_thread_access}
use txtcel_program.State.AccountUtils.{create_pda_account}
use txtcel_program.State.Fees.{
  prepare_fee_shards, ensure_fee_shards_initialized, ensure_shard_initialized, validate_fee_shards,
}
use txtcel_program.State.Fees.Prepared.{Prepared, prepare_fee_shards-Prepared}
use txtcel_program.Processor.ThreadAccess.{process_request_access}
use txtcel_program.Processor.ThreadAccess.Paid.{Admitted, process_request_access-Admitted}
use txtcel_program.Tests.LittleEndian.{put_le, get_le, put_all, get_all}
use txtcel_program.Tests.World.{world, world_laws, rent_of}
use txtcel_program.Tests.Scene.{
  program, admin, thread_key, settings_key, gate_key, entry_key, gate, signer, writable, stored,
  scene, bank_of,
}

abbrev treasury_shard : AccountInfo
treasury_shard = writable (derive_treasury_shard_pda world program 5).0

abbrev author_shard : AccountInfo
author_shard = writable (derive_author_fee_pda world program thread_key 1).0

abbrev priced : ThreadAccess
priced = record gate { entry_fee = 5000 }

-- The scene with a fee at the gate and one shard of each kind.
abbrev priced_scene : Bank
priced_scene key =
    if key == gate_key
    then stored ((thread_access_codec world.borsh).put priced [])
    else if key == treasury_shard.key
    then stored []
    else if key == author_shard.key
    then stored []
    else scene key

abbrev after_request : Bank
after_request = bank_of (
    process_request_access world program
      (signer admin
        ∷ writable gate_key
        ∷ writable (entry_key admin)
        ∷ writable thread_key
        ∷ writable settings_key
        ∷ treasury_shard
        ∷ author_shard
        ∷ writable 0
        ∷ [])
      5 1 priced_scene)

process_request_access-Admitted_example :
    Admitted world program
      (signer admin)
      (writable gate_key)
      (writable (entry_key admin))
      thread_key
      priced_scene
      after_request
unfolding ◌>>=◌ process_request_access serialize load_settings load_thread load_thread_access
    set_access_entry_status adjust_whitelist_count program_settings_codec thread_node_codec
    thread_access_codec access_entry_codec put_le get_le put_all get_all derive_settings_pda
    derive_treasury_shard_pda derive_author_fee_pda derive_alloc_pda derive_access_pda
    derive_access_entry_pda to_le_bytes is_uninitialized access_entry_size
process_request_access-Admitted_example =
    process_request_access-Admitted world_laws program (signer admin) (writable gate_key)
      (writable (entry_key admin)) (writable thread_key) (writable settings_key) treasury_shard
      author_shard (writable 0) [] 5 1 priced_scene refl (omega arith) (λ q. omega (arith, q))
      after_request refl

-- The treasury's shard is new, and the author's is there.
abbrev half_open_scene : Bank
half_open_scene key = if key == author_shard.key then stored [] else scene key

abbrev after_opening : Bank
after_opening = bank_of (
    prepare_fee_shards world program (signer admin) treasury_shard author_shard (writable 0)
      thread_key 5 1 half_open_scene)

prepare_fee_shards-Prepared_example :
    Prepared world program admin treasury_shard author_shard thread_key 5 1
      (rent_of 0)
      half_open_scene
      after_opening
unfolding ◌>>=◌ prepare_fee_shards validate_fee_shards ensure_fee_shards_initialized
    ensure_shard_initialized create_pda_account derive_treasury_shard_pda derive_author_fee_pda
    to_le_bytes is_uninitialized derive_settings_pda derive_alloc_pda derive_access_pda
    derive_access_entry_pda
prepare_fee_shards-Prepared_example =
    prepare_fee_shards-Prepared world_laws program refl (signer admin) treasury_shard author_shard
      (writable 0) thread_key 5 1 half_open_scene (λ q. omega (arith, q)) (λ q. omega (arith, q))
      (λ q. omega (arith, q)) after_opening refl
