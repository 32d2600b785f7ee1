-- ===== src/Processor/Settings/Accepted.antt =====
-- When a fee setter of the settings succeeds (`update_platform_setting` in
-- src/processor/set_platform_fees.rs).
use txtcel_program.Base.{ℕ, ◌≤◌, ◌≡◌, ◌↔◌, ◌∙◌, sym, true, false, ltb, List, [], ◌∷◌, arith}
use txtcel_program.Error.{ok}
use txtcel_program.Borsh.Laws.{IsBorsh}
use txtcel_program.Runtime.{Pubkey, Bank, AccountInfo, Runtime, set_bytes}
use txtcel_program.Runtime.Tx.{check, ◌>>=◌}
use txtcel_program.Runtime.Hoare.{Holds, at_ok, Holds-self, Holds-check, Holds-next, Holds-fail_if}
use txtcel_program.Runtime.Storage.{rewrite_exact}
use txtcel_program.State.Constants.{max_fee_cut_bps}
use txtcel_program.State.Accounts.{ProgramSettings, program_settings_size}
use txtcel_program.State.Codecs.{program_settings_codec}
use txtcel_program.State.Codecs.Sizes.{program_settings_codec-HasSize}
use txtcel_program.State.Codecs.Canonical.{program_settings_codec-Canonical}
use txtcel_program.State.Loaders.{load_settings}
use txtcel_program.State.Loaders.Facts.{load_settings_iff, load_admin_settings_iff}
use txtcel_program.Processor.Settings.{update_platform_setting}
use txtcel_program.Processor.Settings.Admin.{
  PlatformFee, set_platform_fee, with_platform_fee, setting_same,
}

module _ (R : Runtime) (program_id : Pubkey) where
  -- A value within the cap, and settings that load for their admin, who signed, in a writable account.
  pub record MaySetFee (fee_bps : ℕ) (authority account : AccountInfo) (b : Bank) : Type 0 where
    pub capped : fee_bps ≤ max_fee_cut_bps
    pub signed : authority.is_signer ≡ true
    pub writable : account.is_writable ≡ true
    pub settings : ProgramSettings
    pub loaded : load_settings R program_id account b ≡ ok settings
    pub by_admin : settings.admin ≡ authority.key

  module _ (l : IsBorsh R.borsh) (authority account : AccountInfo) (rest : List AccountInfo) where
    checked :
        (fee_bps : ℕ) (edit : ProgramSettings → ProgramSettings) (b : Bank)
        → Holds
            (λ _ _. MaySetFee fee_bps authority account b)
            (update_platform_setting R program_id (authority ∷ account ∷ rest) fee_bps edit b)
    unfolding update_platform_setting
    checked fee_bps edit b = Holds-fail_if _ _ _ b λ small. Holds-next _ _ _ b (
        Holds-next _ _ _ b (
          Holds-check _ _ b λ s e.
            let (signed, writable, loaded, by_admin) =
              (load_admin_settings_iff R program_id account b authority s).0 e in
            Holds-self _ λ _ _ _. record {
              capped = ground arith;
              signed = signed;
              writable = writable;
              settings = s;
              loaded = loaded;
              by_admin = by_admin;
            }))

    accepted :
        (fee_bps : ℕ) (edit : ProgramSettings → ProgramSettings) (b : Bank)
        → (may : MaySetFee fee_bps authority account b)
        → update_platform_setting R program_id (authority ∷ account ∷ rest) fee_bps edit b
          ≡ ok (
            tt,
            set_bytes b account.key ((program_settings_codec R.borsh).put (edit may.settings) []),
          )
    unfolding update_platform_setting ◌>>=◌ check
    accepted fee_bps edit b may =
        let c = program_settings_codec R.borsh in
        let s = may.settings in
        let (_, _, decoded, _) = (load_settings_iff R program_id account b s).0 may.loaded in
        let small : ltb max_fee_cut_bps fee_bps ≡ false = ground (arith, may.capped) in
        let loads =
          (load_admin_settings_iff R program_id account b authority s).1
            (may.signed, may.writable, may.loaded, may.by_admin) in
        rw (small, loads)
          (rewrite_exact c (program_settings_codec-Canonical l) s (edit s) program_settings_size
            account b (program_settings_codec-HasSize l s)
            (program_settings_codec-HasSize l (edit s)) decoded)

    -- Each of the four fee setters succeeds exactly where the value is within `MAX_FEE_CUT_BPS`, the
    -- settings load, their admin signed and their account is writable.
    pub set_platform_fee-MaySetFee :
        (setting : PlatformFee) (fee_bps : ℕ) (b : Bank)
        → ((b' : Bank) × (set_platform_fee setting R program_id
                (authority ∷ account ∷ rest)
                fee_bps
                b
              ≡ ok (tt, b')))
          ↔ MaySetFee fee_bps authority account b
    set_platform_fee-MaySetFee setting fee_bps b =
        let same = setting_same R program_id l authority account rest setting fee_bps b in
        let edit = with_platform_fee setting fee_bps in
        (
          λ (b', e). at_ok (checked fee_bps edit b) (sym same ∙ e),
          λ may. (_, same ∙ accepted fee_bps edit b may),
        )
