-- ===== src/Tests/Gating.antt =====
-- The author of a thread without a gate sets one up.
use txtcel_program.Base.{refl, [], ◌∷◌, ◌==◌, true, if◌then◌else◌, to_le_bytes, arith}
use txtcel_program.Runtime.{AccountInfo, Bank}
use txtcel_program.Runtime.Tx.{◌>>=◌, serialize}
use txtcel_program.State.Accounts.{thread_access_size}
use txtcel_program.State.Pda.{
  derive_settings_pda, derive_treasury_shard_pda, derive_alloc_pda, derive_access_pda,
  derive_access_entry_pda,
}
use txtcel_program.State.Codecs.{thread_access_codec, thread_node_codec}
use txtcel_program.State.Asserts.{is_uninitialized}
use txtcel_program.State.Loaders.{load_thread}
use txtcel_program.Processor.ThreadAccess.{process_init_thread_access}
use txtcel_program.Processor.ThreadAccess.Gated.{Gated, process_init_thread_access-Gated}
use txtcel_program.Tests.LittleEndian.{put_le, get_le, put_all, get_all}
use txtcel_program.Tests.World.{world, world_laws}
use txtcel_program.Tests.Scene.{
  program, author, thread_key, gate_key, signer, writable, wallet, scene, bank_of,
}

abbrev treasury_shard : AccountInfo
treasury_shard = writable (derive_treasury_shard_pda world program 5).0

-- The scene without its gate.
abbrev ungated : Bank
ungated key = if key == gate_key then wallet 0 else scene key

abbrev after_setup : Bank
after_setup = bank_of (
    process_init_thread_access world program
      (signer author ∷ writable thread_key ∷ writable gate_key ∷ treasury_shard ∷ writable 0 ∷ [])
      true 5 ungated)

process_init_thread_access-Gated_example :
    Gated world program
      (signer author)
      (writable thread_key)
      (writable gate_key)
      true
      ungated
      after_setup
unfolding ◌>>=◌ process_init_thread_access serialize load_thread thread_node_codec
    thread_access_codec thread_access_size put_le get_le put_all get_all derive_settings_pda
    derive_treasury_shard_pda derive_alloc_pda derive_access_pda derive_access_entry_pda to_le_bytes
    is_uninitialized
process_init_thread_access-Gated_example =
    process_init_thread_access-Gated world_laws program (signer author) (writable thread_key)
      (writable gate_key) treasury_shard (writable 0) [] true 5 ungated refl (omega arith)
      (omega arith) after_setup refl
