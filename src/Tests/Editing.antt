-- ===== src/Tests/Editing.antt =====
-- The setters of the settings, of a thread and of a gate, at the scene.
use txtcel_program.Base.{refl, [], ◌∷◌, ◌≤◌, ◌≡◌, ◌↔◌, List, to_le_bytes, arith}
use txtcel_program.Error.{ok}
use txtcel_program.Runtime.{AccountInfo, Bank}
use txtcel_program.Runtime.Tx.{◌>>=◌, serialize}
use txtcel_program.State.Constants.{max_fee_cut_bps}
use txtcel_program.State.Pda.{derive_settings_pda, derive_alloc_pda, derive_access_pda}
use txtcel_program.State.Codecs.{program_settings_codec, thread_node_codec, thread_access_codec}
use txtcel_program.State.Loaders.{
  load_admin_settings, load_settings, load_thread, load_author_thread, load_thread_access,
  load_admin_access,
}
use txtcel_program.Processor.Settings.{
  process_set_base_fee, update_platform_setting, process_set_admin, process_set_treasury,
}
use txtcel_program.Processor.Settings.Admin.{
  EditedSettings, base_fee, set_platform_fee, with_platform_fee, process_set_admin-Edited,
  process_set_treasury-Edited, set_platform_fee-Edited,
}
use txtcel_program.Processor.Settings.Accepted.{MaySetFee, set_platform_fee-MaySetFee}
use txtcel_program.Processor.ThreadFees.{process_set_message_fee}
use txtcel_program.Processor.ThreadFees.Author.{
  EditedThread, message_fee, set_thread_fee, with_thread_fee, set_thread_fee-Edited,
}
use txtcel_program.Processor.ThreadAccess.{process_set_entry_fee}
use txtcel_program.Processor.ThreadAccess.Admin.{
  EditedAccess, entry_fee, set_gate, with_setting, set_gate-Edited,
}
use txtcel_program.Tests.LittleEndian.{put_le, get_le, put_all, get_all}
use txtcel_program.Tests.Format.{format_laws}
use txtcel_program.Tests.World.{world}
use txtcel_program.Tests.Scene.{
  program, admin, author, thread_key, settings_key, gate_key, signer, writable, scene, bank_of,
}

abbrev for_settings : List AccountInfo
for_settings = signer admin ∷ writable settings_key ∷ []

abbrev for_thread : List AccountInfo
for_thread = signer author ∷ writable thread_key ∷ []

abbrev for_gate : List AccountInfo
for_gate = signer author ∷ writable gate_key ∷ []

abbrev after_set_admin : Bank
after_set_admin = bank_of (process_set_admin world program for_settings 71 scene)

process_set_admin-Edited_example :
    EditedSettings world program
      (signer admin)
      (writable settings_key)
      (λ s. record s { admin = 71 })
      scene
      after_set_admin
unfolding ◌>>=◌ serialize process_set_admin load_admin_settings load_settings derive_settings_pda
    program_settings_codec put_le get_le
process_set_admin-Edited_example =
    process_set_admin-Edited world program format_laws (signer admin) (writable settings_key) [] 71
      scene after_set_admin (omega arith) refl

abbrev after_set_treasury : Bank
after_set_treasury = bank_of (process_set_treasury world program for_settings 81 scene)

process_set_treasury-Edited_example :
    EditedSettings world program
      (signer admin)
      (writable settings_key)
      (λ s. record s { treasury = 81 })
      scene
      after_set_treasury
unfolding ◌>>=◌ serialize process_set_treasury load_admin_settings load_settings derive_settings_pda
    program_settings_codec put_le get_le
process_set_treasury-Edited_example =
    process_set_treasury-Edited world program format_laws (signer admin) (writable settings_key) []
      81 scene after_set_treasury (omega arith) refl

abbrev after_set_base_fee : Bank
after_set_base_fee = bank_of (set_platform_fee base_fee world program for_settings 2000 scene)

set_platform_fee-Edited_example :
    (2000 ≤ max_fee_cut_bps)
    × EditedSettings world program
        (signer admin)
        (writable settings_key)
        (with_platform_fee base_fee 2000)
        scene
        after_set_base_fee
unfolding ◌>>=◌ serialize process_set_base_fee update_platform_setting load_admin_settings
    load_settings derive_settings_pda program_settings_codec put_le get_le
set_platform_fee-Edited_example =
    set_platform_fee-Edited world program format_laws (signer admin) (writable settings_key) []
      base_fee 2000 scene after_set_base_fee refl

set_platform_fee-MaySetFee_example :
    ((b' : Bank) × (set_platform_fee base_fee world program for_settings 2000 scene ≡ ok (tt, b')))
    ↔ MaySetFee world program 2000 (signer admin) (writable settings_key) scene
set_platform_fee-MaySetFee_example =
    set_platform_fee-MaySetFee world program format_laws (signer admin) (writable settings_key) []
      base_fee 2000 scene

abbrev after_set_message_fee : Bank
after_set_message_fee = bank_of (set_thread_fee message_fee world program for_thread 9000 scene)

set_thread_fee-Edited_example :
    EditedThread world program
      (signer author)
      (writable thread_key)
      (with_thread_fee message_fee 9000)
      scene
      after_set_message_fee
unfolding ◌>>=◌ serialize process_set_message_fee load_author_thread load_thread thread_node_codec
    put_le get_le put_all get_all derive_settings_pda
set_thread_fee-Edited_example =
    set_thread_fee-Edited world program format_laws (signer author) (writable thread_key) []
      message_fee 9000 scene after_set_message_fee (omega arith) refl

abbrev after_set_entry_fee : Bank
after_set_entry_fee = bank_of (set_gate (entry_fee 4000) world program for_gate scene)

set_gate-Edited_example :
    EditedAccess world program
      (signer author)
      (writable gate_key)
      (with_setting (entry_fee 4000))
      scene
      after_set_entry_fee
unfolding ◌>>=◌ serialize process_set_entry_fee load_admin_access load_thread_access
    thread_access_codec put_le get_le derive_settings_pda derive_access_pda derive_alloc_pda
    to_le_bytes
set_gate-Edited_example =
    set_gate-Edited world program format_laws (signer author) (writable gate_key) []
      (entry_fee 4000) scene after_set_entry_fee (omega arith) refl
