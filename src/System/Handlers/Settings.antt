-- ===== src/System/Handlers/Settings.antt =====
-- The settings stay capped (src/processor/init_settings.rs, set_admin.rs, set_treasury.rs,
-- set_platform_fees.rs).
use txtcel_program.Base.{ℕ, ◌≤◌, ◌≡◌, refl, List, All, arith}
use txtcel_program.Error.{ok}
use txtcel_program.Borsh.Laws.{Fits}
use txtcel_program.Runtime.{Pubkey, Bank, AccountInfo, Runtime}
use txtcel_program.Runtime.Laws.{IsRuntime}
use txtcel_program.Runtime.Tx.{serialize}
use txtcel_program.Runtime.Hoare.{Holds, Holds-bind, Holds-check, Holds-fail_if, Holds-take}
use txtcel_program.Runtime.Storage.{try_from_slice-some}
use txtcel_program.State.Constants.{tag_settings, max_fee_cut_bps}
use txtcel_program.State.Accounts.{ProgramSettings}
use txtcel_program.State.Codecs.{program_settings_codec}
use txtcel_program.State.Codecs.RoundTrip.{ProgramSettingsInRange}
use txtcel_program.State.Codecs.Canonical.{program_settings_codec-Canonical}
use txtcel_program.State.Loaders.{load_admin_settings}
use txtcel_program.State.Loaders.Facts.{load_settings_iff, load_admin_settings_iff}
use txtcel_program.Processor.Settings.{
  process_init_settings, process_set_admin, process_set_treasury, update_platform_setting,
  process_set_base_fee, process_set_author_fee_cut, process_set_entry_cut, process_set_like_cut,
}
use txtcel_program.System.Sound.{IsCapped, SoundBank, Nowhere}
use txtcel_program.System.Writes.{program_settings_codec-Sound}
use txtcel_program.System.Keeps.{create_pda_account-keeps, serialize-keeps}

-- Settings that may be written.
record IsGood (s : ProgramSettings) : Type 0 where
  range : ProgramSettingsInRange s
  tagged : s.tag ≡ tag_settings
  capped : IsCapped s

module _ {R : Runtime} (L : IsRuntime R) (program_id : Pubkey) where
  write_settings :
      (s : ProgramSettings) (account : AccountInfo) (b : Bank)
      → IsGood s
      → SoundBank R program_id b
      → Holds
          (λ _ b'. SoundBank R program_id b')
          (serialize (program_settings_codec R.borsh) s account b)
  write_settings s account b g h =
      serialize-keeps R program_id (program_settings_codec R.borsh) s account
        (λ rest. program_settings_codec-Sound L.is_borsh s rest g.range g.tagged g.capped) b h

  loaded-IsGood :
      (authority account : AccountInfo) (s : ProgramSettings) (b : Bank)
      → SoundBank R program_id b
      → load_admin_settings R program_id authority account b ≡ ok s
      → IsGood s
  loaded-IsGood authority account s b h e =
      let (_, _, loaded, _) = (load_admin_settings_iff R program_id account b authority s).0 e in
      let (_, owned, decoded, tagged) = (load_settings_iff R program_id account b s).0 loaded in
      let (_, range) =
        try_from_slice-some (program_settings_codec R.borsh)
          (program_settings_codec-Canonical L.is_borsh) _ s decoded in
      record {
        range = range;
        tagged = tagged;
        capped = (h account.key (λ x. x) owned).settings s decoded tagged;
      }

  module _ (accounts : List AccountInfo) (keyed : All (λ a. Fits 32 a.key) accounts) (b : Bank)
      (h : SoundBank R program_id b) where
    pub process_init_settings-keeps :
        {rent : ℕ → ℕ} (treasury : Pubkey)
        → R.rent ≡ ok rent
        → Fits 32 treasury
        → Holds
            (λ _ b'. SoundBank R program_id b')
            (process_init_settings R program_id accounts treasury b)
    unfolding process_init_settings
    process_init_settings-keeps treasury rent_ok fits =
        Holds-take accounts _ b keyed λ authority r1 fits_authority k1.
          Holds-take r1 _ b k1 λ settings_account r2 _ k2.
            Holds-take r2 _ b k2 λ programdata_account r3 _ k3.
              Holds-take r3 _ b k3 λ system_program_account r4 _ _. Holds-check _ _ b λ _ _.
                Holds-check _ _ b λ _ _. Holds-check _ _ b λ _ _. Holds-check _ _ b λ _ _.
                  Holds-check _ _ b λ _ _. Holds-check _ _ b λ _ _.
                    Holds-bind _ _ b
                      (create_pda_account-keeps L program_id Nowhere rent_ok authority
                        settings_account system_program_account _ _ b h)
                      λ _ b1 h1.
                        write_settings _ settings_account b1
                          (record {
                            range = record {
                              tag = omega arith;
                              admin = fits_authority;
                              treasury = fits;
                              base_fee_bps = omega arith;
                              author_fee_cut_bps = omega arith;
                              entry_cut_bps = omega arith;
                              like_cut_bps = omega arith;
                            };
                            tagged = refl;
                            capped = record {
                              base = omega arith;
                              author = omega arith;
                              entry = omega arith;
                              like = omega arith;
                            };
                          })
                          h1

    pub process_set_admin-keeps :
        (new_admin : Pubkey)
        → Fits 32 new_admin
        → Holds
            (λ _ b'. SoundBank R program_id b')
            (process_set_admin R program_id accounts new_admin b)
    unfolding process_set_admin
    process_set_admin-keeps new_admin fits = Holds-take accounts _ b keyed λ authority r1 _ k1.
        Holds-take r1 _ b k1 λ settings_account r2 _ _. Holds-check _ _ b λ s e.
          let g = loaded-IsGood authority settings_account s b h e in
          write_settings (record s { admin = new_admin }) settings_account b
            (record { range = ground arith; tagged = g.tagged; capped = ground arith }) h

    pub process_set_treasury-keeps :
        (treasury : Pubkey)
        → Fits 32 treasury
        → Holds
            (λ _ b'. SoundBank R program_id b')
            (process_set_treasury R program_id accounts treasury b)
    unfolding process_set_treasury
    process_set_treasury-keeps treasury fits = Holds-take accounts _ b keyed λ authority r1 _ k1.
        Holds-take r1 _ b k1 λ settings_account r2 _ _. Holds-check _ _ b λ s e.
          let g = loaded-IsGood authority settings_account s b h e in
          write_settings (record s { treasury = treasury }) settings_account b
            (record { range = ground arith; tagged = g.tagged; capped = ground arith }) h

    update_platform_setting-keeps :
        (fee_bps : ℕ) (update : ProgramSettings → ProgramSettings)
        → (fee_bps ≤ max_fee_cut_bps → (s : ProgramSettings) → IsGood s → IsGood (update s))
        → Holds
            (λ _ b'. SoundBank R program_id b')
            (update_platform_setting R program_id accounts fee_bps update b)
    unfolding update_platform_setting
    update_platform_setting-keeps fee_bps update good = Holds-fail_if _ _ _ b λ small.
        Holds-take accounts _ b keyed λ authority r1 _ k1.
          Holds-take r1 _ b k1 λ settings_account r2 _ _. Holds-check _ _ b λ s e.
            write_settings (update s) settings_account b
              (good (ground arith) s (loaded-IsGood authority settings_account s b h e)) h

    pub process_set_base_fee-keeps :
        (fee_bps : ℕ)
        → Holds
            (λ _ b'. SoundBank R program_id b')
            (process_set_base_fee R program_id accounts fee_bps b)
    unfolding process_set_base_fee
    process_set_base_fee-keeps fee_bps =
        update_platform_setting-keeps fee_bps (λ s. record s { base_fee_bps = fee_bps })
          λ small s g. record { range = ground arith; tagged = g.tagged; capped = ground arith }

    pub process_set_author_fee_cut-keeps :
        (fee_bps : ℕ)
        → Holds
            (λ _ b'. SoundBank R program_id b')
            (process_set_author_fee_cut R program_id accounts fee_bps b)
    unfolding process_set_author_fee_cut
    process_set_author_fee_cut-keeps fee_bps =
        update_platform_setting-keeps fee_bps (λ s. record s { author_fee_cut_bps = fee_bps })
          λ small s g. record { range = ground arith; tagged = g.tagged; capped = ground arith }

    pub process_set_entry_cut-keeps :
        (fee_bps : ℕ)
        → Holds
            (λ _ b'. SoundBank R program_id b')
            (process_set_entry_cut R program_id accounts fee_bps b)
    unfolding process_set_entry_cut
    process_set_entry_cut-keeps fee_bps =
        update_platform_setting-keeps fee_bps (λ s. record s { entry_cut_bps = fee_bps })
          λ small s g. record { range = ground arith; tagged = g.tagged; capped = ground arith }

    pub process_set_like_cut-keeps :
        (fee_bps : ℕ)
        → Holds
            (λ _ b'. SoundBank R program_id b')
            (process_set_like_cut R program_id accounts fee_bps b)
    unfolding process_set_like_cut
    process_set_like_cut-keeps fee_bps =
        update_platform_setting-keeps fee_bps (λ s. record s { like_cut_bps = fee_bps })
          λ small s g. record { range = ground arith; tagged = g.tagged; capped = ground arith }
