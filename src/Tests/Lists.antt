-- ===== src/Tests/Lists.antt =====
-- A wallet on the blacklist is put on the whitelist, and is taken off the blacklist.
use txtcel_program.Base.{refl, [], ◌∷◌, List, to_le_bytes, arith}
use txtcel_program.Runtime.{AccountInfo, Bank}
use txtcel_program.Runtime.Tx.{◌>>=◌, serialize}
use txtcel_program.State.Constants.{access_allowed, access_denied}
use txtcel_program.State.Pda.{
  derive_settings_pda, derive_alloc_pda, derive_access_pda, derive_access_entry_pda,
}
use txtcel_program.State.Codecs.{thread_access_codec, access_entry_codec}
use txtcel_program.State.Asserts.{assert_pda, is_uninitialized}
use txtcel_program.State.AccountUtils.{credit, close_program_account}
use txtcel_program.State.Loaders.{
  load_thread_access, load_admin_access, load_access_entry, load_bound_access_entry,
}
use txtcel_program.State.Access.{
  flip_access_entry, set_access_entry_status, adjust_whitelist_count, close_access_entry,
  apply_access_entry_status, remove_access_entry,
}
use txtcel_program.State.Access.Applied.{Applied}
use txtcel_program.State.Access.Removed.{Removed}
use txtcel_program.Processor.AccessLists.{process_add_to_whitelist, process_remove_from_blacklist}
use txtcel_program.Processor.AccessLists.Setters.{
  adding, removing, blacklist, whitelist, add_to_list-Applied, remove_from_list-Removed,
}
use txtcel_program.Tests.LittleEndian.{put_le, get_le}
use txtcel_program.Tests.World.{world, world_laws}
use txtcel_program.Tests.Scene.{
  program, author, reader, gate_key, entry_key, signer, writable, scene, bank_of,
}

abbrev for_entry : List AccountInfo
for_entry = signer author ∷ writable gate_key ∷ writable (entry_key reader) ∷ writable 0 ∷ []

abbrev after_adding : Bank
after_adding = bank_of (adding whitelist world program for_entry reader scene)

add_to_list-Applied_example :
    Applied world program
      (signer author)
      (writable gate_key)
      (writable (entry_key reader))
      reader
      access_allowed
      scene
      after_adding
unfolding ◌>>=◌ serialize process_add_to_whitelist apply_access_entry_status load_admin_access
    load_thread_access set_access_entry_status flip_access_entry load_bound_access_entry
    load_access_entry adjust_whitelist_count thread_access_codec access_entry_codec put_le get_le
    derive_settings_pda derive_alloc_pda derive_access_pda derive_access_entry_pda to_le_bytes
    is_uninitialized assert_pda
add_to_list-Applied_example =
    add_to_list-Applied world_laws program (omega arith) (signer author) (writable gate_key)
      (writable (entry_key reader)) (writable 0) [] whitelist reader scene after_adding refl
      (omega arith) refl

abbrev after_removing : Bank
after_removing = bank_of (removing blacklist world program for_entry reader scene)

remove_from_list-Removed_example :
    Removed world program
      (signer author)
      (writable gate_key)
      (writable (entry_key reader))
      reader
      access_denied
      scene
      after_removing
unfolding ◌>>=◌ serialize process_remove_from_blacklist remove_access_entry load_admin_access
    load_thread_access close_access_entry close_program_account credit load_bound_access_entry
    load_access_entry thread_access_codec access_entry_codec put_le get_le derive_settings_pda
    derive_alloc_pda derive_access_pda derive_access_entry_pda to_le_bytes is_uninitialized
    assert_pda
remove_from_list-Removed_example =
    remove_from_list-Removed world_laws program (omega arith) (signer author) (writable gate_key)
      (writable (entry_key reader)) (writable 0) [] blacklist reader scene after_removing
      (omega arith) refl
