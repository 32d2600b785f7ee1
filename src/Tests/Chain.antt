-- ===== src/Tests/Chain.antt =====
-- The thread of the scene gets its second allocation, and a shard is paid.
use txtcel_program.Base.{refl, [], ◌∷◌, List, to_le_bytes, arith}
use txtcel_program.Runtime.{AccountInfo, Bank}
use txtcel_program.Runtime.Hoare.{Holds}
use txtcel_program.Runtime.Tx.{◌>>=◌, serialize}
use txtcel_program.State.Accounts.{alloc_node_size}
use txtcel_program.State.Pda.{
  derive_settings_pda, derive_alloc_pda, derive_access_pda, derive_access_entry_pda,
}
use txtcel_program.State.Codecs.{thread_node_codec, alloc_node_codec}
use txtcel_program.State.Asserts.{is_uninitialized, assert_uninitialized}
use txtcel_program.State.AccountUtils.{create_pda_account}
use txtcel_program.State.Fees.{collect_fee_to_shard}
use txtcel_program.State.Fees.Payment.{Collected, due, collect_fee_to_shard-Collected}
use txtcel_program.State.Loaders.{load_thread, load_alloc}
use txtcel_program.Processor.Alloc.{process_prepare_alloc}
use txtcel_program.Processor.Alloc.Extended.{Extended, process_prepare_alloc-Extended}
use txtcel_program.Tests.LittleEndian.{put_le, get_le, put_all, get_all}
use txtcel_program.Tests.World.{world, world_laws, rent_of}
use txtcel_program.Tests.Scene.{
  program, reader, thread_key, alloc_key, signer, writable, scene, bank_of,
}

collect_fee_to_shard-Collected_example :
    Holds
      (λ _ b'. Collected reader 900 (due 5000 (rent_of 0) (scene 900).lamports) scene b')
      (collect_fee_to_shard world 5000 (signer reader) (writable 900) scene)
collect_fee_to_shard-Collected_example =
    collect_fee_to_shard-Collected world_laws 5000 (signer reader) (writable 900) scene refl

abbrev for_alloc : List AccountInfo
for_alloc =
    signer reader
    ∷ writable (alloc_key 0)
    ∷ writable (alloc_key 1)
    ∷ writable thread_key
    ∷ writable 0
    ∷ []

abbrev after_alloc : Bank
after_alloc = bank_of (process_prepare_alloc world program for_alloc 0 scene)

process_prepare_alloc-Extended_example :
    Extended world program
      (writable (alloc_key 0))
      (writable (alloc_key 1))
      (writable thread_key)
      0
      scene
      after_alloc
unfolding ◌>>=◌ serialize process_prepare_alloc derive_settings_pda derive_alloc_pda
    derive_access_pda derive_access_entry_pda to_le_bytes thread_node_codec alloc_node_codec put_le
    get_le put_all get_all is_uninitialized assert_uninitialized load_thread load_alloc
    create_pda_account alloc_node_size
process_prepare_alloc-Extended_example =
    process_prepare_alloc-Extended world_laws program (omega arith) (signer reader)
      (writable (alloc_key 0)) (writable (alloc_key 1)) (writable thread_key) (writable 0) [] 0
      scene after_alloc refl refl
