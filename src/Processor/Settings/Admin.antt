-- ===== src/Processor/Settings/Admin.antt =====
-- Only the admin changes the settings, and each setter changes its field alone
-- (src/processor/set_admin.rs, set_treasury.rs, set_platform_fees.rs).
use txtcel_program.Base.{ℕ, ◌≤◌, ◌≡◌, refl, sym, ◌∙◌, List, ◌∷◌, arith}
use txtcel_program.Error.{ok}
use txtcel_program.Borsh.Laws.{Fits, IsBorsh}
use txtcel_program.Runtime.{Pubkey, Bank, AccountInfo, Runtime}
use txtcel_program.Runtime.Tx.{Tx, check, serialize, ◌>>=◌}
use txtcel_program.Runtime.Hoare.{
  Holds, held, at_ok, Holds-mono, Holds-check, Holds-next, Holds-fail_if,
}
use txtcel_program.Runtime.Storage.{rewrite-Rewritten, try_from_slice-some}
use txtcel_program.Runtime.Editing.{Edited}
use txtcel_program.State.Constants.{max_fee_cut_bps}
use txtcel_program.State.Accounts.{ProgramSettings, program_settings_size}
use txtcel_program.State.Codecs.{program_settings_codec}
use txtcel_program.State.Codecs.Sizes.{program_settings_codec-HasSize}
use txtcel_program.State.Codecs.RoundTrip.{
  ProgramSettingsInRange, program_settings_codec-RoundTrips,
}
use txtcel_program.State.Codecs.Canonical.{program_settings_codec-Canonical}
use txtcel_program.State.Loaders.{load_settings, load_admin_settings}
use txtcel_program.State.Loaders.Facts.{load_settings_iff, load_admin_settings_iff}
use txtcel_program.Processor.Settings.{
  process_set_admin, process_set_treasury, update_platform_setting, process_set_base_fee,
  process_set_author_fee_cut, process_set_entry_cut, process_set_like_cut,
}

-- The four fees of the platform, the setter of each and the field that it sets.
pub data PlatformFee : Type 0 where
  base_fee : PlatformFee
  author_fee_cut : PlatformFee
  entry_cut : PlatformFee
  like_cut : PlatformFee

abbrev pub set_platform_fee : PlatformFee → Runtime → Pubkey → List AccountInfo → ℕ → Tx (Unit {0})
set_platform_fee base_fee = process_set_base_fee
set_platform_fee author_fee_cut = process_set_author_fee_cut
set_platform_fee entry_cut = process_set_entry_cut
set_platform_fee like_cut = process_set_like_cut

abbrev pub with_platform_fee : PlatformFee → ℕ → ProgramSettings → ProgramSettings
with_platform_fee base_fee fee_bps s = record s { base_fee_bps = fee_bps }
with_platform_fee author_fee_cut fee_bps s = record s { author_fee_cut_bps = fee_bps }
with_platform_fee entry_cut fee_bps s = record s { entry_cut_bps = fee_bps }
with_platform_fee like_cut fee_bps s = record s { like_cut_bps = fee_bps }

module _ (R : Runtime) (program_id : Pubkey) where
  abbrev pub EditedSettings :
      AccountInfo → AccountInfo → (ProgramSettings → ProgramSettings) → Bank → Bank → Type 0
  EditedSettings = Edited (load_settings R program_id) (λ s. s.admin)

  -- An edit that keeps the tag and the ranges.
  pub record IsEdit (edit : ProgramSettings → ProgramSettings) : Type 0 where
    pub tag : (s : ProgramSettings) → (edit s).tag ≡ s.tag
    pub in_range :
        (s : ProgramSettings) → ProgramSettingsInRange s → ProgramSettingsInRange (edit s)

  with_platform_fee-IsEdit :
      (setting : PlatformFee) (fee_bps : ℕ)
      → fee_bps ≤ max_fee_cut_bps
      → IsEdit (with_platform_fee setting fee_bps)
  with_platform_fee-IsEdit base_fee fee_bps small = record {
    tag = λ s. refl;
    in_range = λ s h. omega arith;
  }
  with_platform_fee-IsEdit author_fee_cut fee_bps small = record {
    tag = λ s. refl;
    in_range = λ s h. omega arith;
  }
  with_platform_fee-IsEdit entry_cut fee_bps small = record {
    tag = λ s. refl;
    in_range = λ s h. omega arith;
  }
  with_platform_fee-IsEdit like_cut fee_bps small = record {
    tag = λ s. refl;
    in_range = λ s h. omega arith;
  }

  module _ (l : IsBorsh R.borsh) (authority account : AccountInfo)
      {edit : ProgramSettings → ProgramSettings} (is_edit : IsEdit edit) where
    store-Edited :
        (s : ProgramSettings) (b : Bank)
        → load_admin_settings R program_id authority account b ≡ ok s
        → Holds
            (λ _ b'. EditedSettings authority account edit b b')
            (serialize (program_settings_codec R.borsh) (edit s) account b)
    store-Edited s b e =
        let (signed, writable, loaded, by_admin) =
          (load_admin_settings_iff R program_id account b authority s).0 e in
        let (at_pda, owned, decoded, tagged) =
          (load_settings_iff R program_id account b s).0 loaded in
        let c = program_settings_codec R.borsh in
        let canonical = program_settings_codec-Canonical l in
        let in_range = is_edit.in_range s (try_from_slice-some c canonical _ s decoded).1 in
        Holds-mono
          (rewrite-Rewritten c canonical s (edit s) program_settings_size account b
            (program_settings_codec-HasSize l s) (program_settings_codec-HasSize l (edit s))
            (program_settings_codec-RoundTrips l (edit s) in_range) decoded)
          λ _ b' w. held (record {
            old = s;
            signed = signed;
            loaded = loaded;
            by_controller = by_admin;
            stored =
                (load_settings_iff R program_id account b' (edit s)).1
                  (at_pda, w.owner ∙ owned, w.decoded, is_edit.tag s ∙ tagged);
            lamports = w.lamports;
            others = w.others;
          })

    edit_settings-Edited :
        (b : Bank)
        → Holds
            (λ _ b'. EditedSettings authority account edit b b')
            ((check (load_admin_settings R program_id authority account) >>= λ s.
                serialize (program_settings_codec R.borsh) (edit s) account)
              b)
    edit_settings-Edited b = Holds-check _ _ b λ s e. store-Edited s b e

  module _ (l : IsBorsh R.borsh) (authority account : AccountInfo) (rest : List AccountInfo) where
    -- `process_set_admin` succeeds only for the admin, hands the settings to the new one, and
    -- changes nothing else in them or in any other account.
    pub process_set_admin-Edited :
        (new_admin : Pubkey) (b b' : Bank)
        → Fits 32 new_admin
        → process_set_admin R program_id (authority ∷ account ∷ rest) new_admin b ≡ ok (tt, b')
        → EditedSettings authority account (λ s. record s { admin = new_admin }) b b'
    unfolding process_set_admin
    process_set_admin-Edited new_admin b b' fits e =
        at_ok
          (Holds-next _ _ _ b (
            Holds-next _ _ _ b (
              edit_settings-Edited l authority account
                (record { tag = λ s. refl; in_range = λ s h. omega arith }) b)))
          e

    -- `process_set_treasury` succeeds only for the admin, and sets the treasury wallet alone.
    pub process_set_treasury-Edited :
        (treasury : Pubkey) (b b' : Bank)
        → Fits 32 treasury
        → process_set_treasury R program_id (authority ∷ account ∷ rest) treasury b ≡ ok (tt, b')
        → EditedSettings authority account (λ s. record s { treasury = treasury }) b b'
    unfolding process_set_treasury
    process_set_treasury-Edited treasury b b' fits e =
        at_ok
          (Holds-next _ _ _ b (
            Holds-next _ _ _ b (
              edit_settings-Edited l authority account
                (record { tag = λ s. refl; in_range = λ s h. omega arith }) b)))
          e

    platform_setting-Edited :
        (fee_bps : ℕ) {edit : ProgramSettings → ProgramSettings} (b : Bank)
        → (fee_bps ≤ max_fee_cut_bps → IsEdit edit)
        → Holds
            (λ _ b'. (fee_bps ≤ max_fee_cut_bps) × EditedSettings authority account edit b b')
            (update_platform_setting R program_id (authority ∷ account ∷ rest) fee_bps edit b)
    unfolding update_platform_setting
    platform_setting-Edited fee_bps b is_edit = Holds-fail_if _ _ _ b λ small.
        let bound : fee_bps ≤ max_fee_cut_bps = ground arith in
        Holds-next _ _ _ b (
          Holds-next _ _ _ b (
            Holds-mono (edit_settings-Edited l authority account (is_edit bound) b)
              λ _ b' h. held (bound, h)))

    pub setting_same :
        (setting : PlatformFee) (fee_bps : ℕ) (b : Bank)
        → set_platform_fee setting R program_id (authority ∷ account ∷ rest) fee_bps b
          ≡ update_platform_setting R program_id
              (authority ∷ account ∷ rest)
              fee_bps
              (with_platform_fee setting fee_bps)
              b
    unfolding process_set_base_fee process_set_author_fee_cut process_set_entry_cut
        process_set_like_cut
    setting_same base_fee fee_bps b = refl
    setting_same author_fee_cut fee_bps b = refl
    setting_same entry_cut fee_bps b = refl
    setting_same like_cut fee_bps b = refl

    -- Each of the four fee setters succeeds only for the admin and only with at most `MAX_FEE_CUT_BPS`,
    -- and then sets its own field to the value and changes nothing else.
    pub set_platform_fee-Edited :
        (setting : PlatformFee) (fee_bps : ℕ) (b b' : Bank)
        → set_platform_fee setting R program_id (authority ∷ account ∷ rest) fee_bps b ≡ ok (tt, b')
        → (fee_bps ≤ max_fee_cut_bps)
          × EditedSettings authority account (with_platform_fee setting fee_bps) b b'
    set_platform_fee-Edited setting fee_bps b b' e =
        at_ok (platform_setting-Edited fee_bps b (with_platform_fee-IsEdit setting fee_bps))
          (sym (setting_same setting fee_bps b) ∙ e)
