-- ===== src/Processor/Settings.antt =====
-- Program settings: initialisation and the admin's setters (src/processor/init_settings.rs,
-- set_admin.rs, set_treasury.rs, set_platform_fees.rs).
pub mod Admin
pub mod Accepted
pub mod Handover
pub mod Initialised
use txtcel_program.Base.{ℕ, ltb, List, [], ◌∷◌}
use txtcel_program.Error.{invalid_fee_bps}
use txtcel_program.Runtime.{Pubkey, AccountInfo, Runtime}
use txtcel_program.Runtime.Tx.{Tx, check, fail_if, next_account_info, serialize, ◌>>=◌, ◌>>◌}
use txtcel_program.State.Constants.{tag_settings, max_fee_cut_bps, settings_seed}
use txtcel_program.State.Accounts.{ProgramSettings, program_settings_size}
use txtcel_program.State.Codecs.{program_settings_codec}
use txtcel_program.State.Pda.{derive_settings_pda}
use txtcel_program.State.Asserts.{
  assert_signer, assert_writable, assert_upgrade_authority, assert_system_program, assert_pda,
  assert_uninitialized,
}
use txtcel_program.State.AccountUtils.{create_pda_account}
use txtcel_program.State.Loaders.{load_admin_settings}

module _ (R : Runtime) (program_id : Pubkey) (accounts : List AccountInfo) where
  unfoldable pub process_init_settings : Pubkey → Tx (Unit {0})
  unfolding assert_signer assert_writable assert_upgrade_authority assert_system_program assert_pda
      assert_uninitialized create_pda_account serialize
  process_init_settings treasury = do
    (authority, r1) ← next_account_info accounts
    (settings_account, r2) ← next_account_info r1
    (programdata_account, r3) ← next_account_info r2
    (system_program_account, r4) ← next_account_info r3
    check (assert_signer authority)
    check (assert_writable settings_account)
    check (assert_upgrade_authority R program_id programdata_account authority)
    check (assert_system_program R system_program_account)
    let (expected_settings, settings_bump) = derive_settings_pda R program_id
    check (assert_pda settings_account expected_settings)
    check (assert_uninitialized R settings_account)
    create_pda_account R program_id authority settings_account system_program_account
        program_settings_size (settings_seed ∷ (settings_bump ∷ []) ∷ [])
    serialize (program_settings_codec R.borsh)
        (record {
          tag = tag_settings;
          admin = authority.key;
          treasury = treasury;
          base_fee_bps = 1000;
          author_fee_cut_bps = 1000;
          entry_cut_bps = 1000;
          like_cut_bps = 1000;
        })
        settings_account

  unfoldable pub process_set_admin : Pubkey → Tx (Unit {0})
  unfolding load_admin_settings serialize
  process_set_admin new_admin = do
    (authority, r1) ← next_account_info accounts
    (settings_account, r2) ← next_account_info r1
    settings ← check (load_admin_settings R program_id authority settings_account)
    serialize (program_settings_codec R.borsh) (record settings { admin = new_admin })
        settings_account

  unfoldable pub process_set_treasury : Pubkey → Tx (Unit {0})
  unfolding load_admin_settings serialize
  process_set_treasury treasury = do
    (authority, r1) ← next_account_info accounts
    (settings_account, r2) ← next_account_info r1
    settings ← check (load_admin_settings R program_id authority settings_account)
    serialize (program_settings_codec R.borsh) (record settings { treasury = treasury })
        settings_account

  -- `update` is the closure that writes the chosen field.
  unfoldable pub update_platform_setting : ℕ → (ProgramSettings → ProgramSettings) → Tx (Unit {0})
  unfolding load_admin_settings serialize
  update_platform_setting fee_bps update = do
    fail_if (ltb max_fee_cut_bps fee_bps) invalid_fee_bps
    (authority, r1) ← next_account_info accounts
    (settings_account, r2) ← next_account_info r1
    settings ← check (load_admin_settings R program_id authority settings_account)
    serialize (program_settings_codec R.borsh) (update settings) settings_account

  unfoldable pub process_set_base_fee : ℕ → Tx (Unit {0})
  unfolding update_platform_setting
  process_set_base_fee fee_bps =
      update_platform_setting fee_bps (λ s. record s { base_fee_bps = fee_bps })

  unfoldable pub process_set_author_fee_cut : ℕ → Tx (Unit {0})
  unfolding update_platform_setting
  process_set_author_fee_cut fee_bps =
      update_platform_setting fee_bps (λ s. record s { author_fee_cut_bps = fee_bps })

  unfoldable pub process_set_entry_cut : ℕ → Tx (Unit {0})
  unfolding update_platform_setting
  process_set_entry_cut fee_bps =
      update_platform_setting fee_bps (λ s. record s { entry_cut_bps = fee_bps })

  unfoldable pub process_set_like_cut : ℕ → Tx (Unit {0})
  unfolding update_platform_setting
  process_set_like_cut fee_bps =
      update_platform_setting fee_bps (λ s. record s { like_cut_bps = fee_bps })
