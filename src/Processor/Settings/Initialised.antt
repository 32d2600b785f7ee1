-- ===== src/Processor/Settings/Initialised.antt =====
-- Setting up the platform (src/processor/init_settings.rs).
use txtcel_program.Base.{◌≡◌, true, [], ◌∷◌, take, drop, from_le_bytes}
use txtcel_program.Error.{ok}
use txtcel_program.Runtime.{Pubkey, Bank, AccountInfo, Runtime}
use txtcel_program.State.Constants.{tag_settings}
use txtcel_program.State.Accounts.{ProgramSettings}
use txtcel_program.State.Pda.{key_bytes}
use txtcel_program.State.Asserts.{is_uninitialized}
use txtcel_program.State.AccountUtils.Effects.{Frame}
use txtcel_program.State.Loaders.{load_settings}

abbrev pub new_settings : Pubkey → Pubkey → ProgramSettings
new_settings admin treasury = record {
  tag = tag_settings;
  admin = admin;
  treasury = treasury;
  base_fee_bps = 1000;
  author_fee_cut_bps = 1000;
  entry_cut_bps = 1000;
  like_cut_bps = 1000;
}

-- The loader's record of the program names the authority that may upgrade it.
pub record Upgrades (R : Runtime) (program_id : Pubkey) (programdata authority : AccountInfo)
    (b : Bank) : Type 0 where
  pub address : programdata.key ≡ (R.find_program_address (key_bytes program_id ∷ []) R.loader_id).0
  pub of_loader : (b programdata.key).owner ≡ R.loader_id
  pub named : authority.key ≡ from_le_bytes (take 32 (drop 13 (b programdata.key).bytes))

-- The upgrade authority is the admin of settings that were not there before.
pub record Initialised (R : Runtime) (program_id : Pubkey)
    (authority settings_account programdata_account : AccountInfo) (treasury : Pubkey) (b b' : Bank)
    : Type 0 where
  pub signed : authority.is_signer ≡ true
  pub upgrades : Upgrades R program_id programdata_account authority b
  pub fresh : is_uninitialized R settings_account b ≡ true
  pub stored :
      load_settings R program_id settings_account b' ≡ ok (new_settings authority.key treasury)
  pub frame : Frame settings_account.key b b'
