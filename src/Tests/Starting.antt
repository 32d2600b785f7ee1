-- ===== src/Tests/Starting.antt =====
-- A thread is created in the scene.
use txtcel_program.Base.{refl, [], ◌∷◌, to_le_bytes, arith}
use txtcel_program.Runtime.{AccountInfo, Bank}
use txtcel_program.Runtime.Tx.{◌>>=◌, serialize}
use txtcel_program.State.Accounts.{alloc_node_size, thread_node_size}
use txtcel_program.State.Pda.{
  derive_settings_pda, derive_treasury_shard_pda, derive_alloc_pda, derive_access_pda,
  derive_access_entry_pda,
}
use txtcel_program.State.Codecs.{program_settings_codec, thread_node_codec, alloc_node_codec}
use txtcel_program.State.Asserts.{is_uninitialized}
use txtcel_program.State.Loaders.{load_settings}
use txtcel_program.Processor.Alloc.{process_create_root_alloc}
use txtcel_program.Processor.Alloc.Rooted.{Rooted, process_create_root_alloc-Rooted}
use txtcel_program.Tests.LittleEndian.{put_le, get_le, put_all, get_all}
use txtcel_program.Tests.World.{world, world_laws}
use txtcel_program.Tests.Scene.{program, author, settings_key, signer, writable, scene, bank_of}

abbrev node : AccountInfo
node = writable (derive_alloc_pda world program 510 0).0

abbrev treasury_shard : AccountInfo
treasury_shard = writable (derive_treasury_shard_pda world program 5).0

abbrev after_start : Bank
after_start = bank_of (
    process_create_root_alloc world program
      (signer author ∷ signer 510 ∷ node ∷ writable settings_key ∷ treasury_shard ∷ writable 0 ∷ [])
      5000 5 (104 ∷ []) scene)

process_create_root_alloc-Rooted_example :
    Rooted world program (signer author) (signer 510) node 5000 (104 ∷ []) scene after_start
unfolding ◌>>=◌ process_create_root_alloc serialize load_settings program_settings_codec
    thread_node_codec alloc_node_codec alloc_node_size thread_node_size put_le get_le put_all
    get_all derive_settings_pda derive_treasury_shard_pda derive_alloc_pda derive_access_pda
    derive_access_entry_pda to_le_bytes is_uninitialized
process_create_root_alloc-Rooted_example =
    process_create_root_alloc-Rooted world_laws program (signer author) (signer 510) node
      (writable settings_key) treasury_shard (writable 0) 5000 (104 ∷ []) scene refl
      (λ q. omega (arith, q)) (omega arith) (omega arith) (omega arith) (omega arith, tt) 5 []
      after_start refl
