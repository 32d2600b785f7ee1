-- ===== src/Processor/Settings/Handover.antt =====
-- The admin can always hand over, and is handed back to (src/processor/set_admin.rs).
use txtcel_program.Base.{[]}
use txtcel_program.Borsh.Laws.{IsBorsh}
use txtcel_program.Runtime.{Pubkey, Bank, AccountInfo, Runtime, set_bytes}
use txtcel_program.State.Accounts.{ProgramSettings}
use txtcel_program.State.Codecs.{program_settings_codec}

module _ (R : Runtime) (l : IsBorsh R.borsh) (program_id : Pubkey) (account : AccountInfo) where
  abbrev with_admin : Pubkey → ProgramSettings → ProgramSettings
  with_admin new_admin s = record s { admin = new_admin }

  abbrev written : ProgramSettings → Bank → Bank
  written s b = set_bytes b account.key ((program_settings_codec R.borsh).put s [])
