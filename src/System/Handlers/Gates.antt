-- ===== src/System/Handlers/Gates.antt =====
-- Gates (src/processor/init_thread_access.rs, set_thread_access.rs, set_entry_fee.rs,
-- request_access.rs).
use txtcel_program.Base.{ℕ, ◌≡◌, ◌≢◌, refl, Bool, List, [], ◌∷◌, All, to_le_bytes, arith}
use txtcel_program.Base.Int.{pos}
use txtcel_program.Error.{ok}
use txtcel_program.Borsh.Laws.{Fits}
use txtcel_program.Runtime.{Pubkey, Bank, AccountInfo, Runtime}
use txtcel_program.Runtime.Laws.{IsRuntime}
use txtcel_program.Runtime.Hoare.{
  Holds, Holds-bind, Holds-check, Holds-fail_if, Holds-gets, Holds-lift, Holds-take,
}
use txtcel_program.State.Constants.{access_allowed, treasury_shard_seed}
use txtcel_program.State.Asserts.{is_uninitialized}
use txtcel_program.Processor.ThreadAccess.{
  process_init_thread_access, process_set_thread_access, process_set_entry_fee,
  process_request_access,
}
use txtcel_program.Processor.ThreadAccess.Gated.{gate_of}
use txtcel_program.Processor.ThreadAccess.Paid.{Holds-rejected, reject_existing_entry-fails}
use txtcel_program.System.Sound.{SoundBank, Nowhere}
use txtcel_program.System.Keeps.{
  create_pda_account-keeps, ensure_shard_initialized-keeps, prepare_fee_shards-keeps,
  transfer_fee_split-keeps, collect_fee_to_shard-keeps,
}
use txtcel_program.System.Handlers.Entries.{
  write_gate, admin_tag, adjust_whitelist_count-keeps, set_access_entry_status-keeps,
}

module _ {R : Runtime} (L : IsRuntime R) (program_id : Pubkey) where
  module _ {rent : ℕ → ℕ} (rent_ok : R.rent ≡ ok rent) where
    module _ (ours : program_id ≢ R.system_id) where
      module _ (accounts : List AccountInfo) (keyed : All (λ a. Fits 32 a.key) accounts) (b : Bank)
          (h : SoundBank R program_id b) where
        pub process_request_access-keeps :
            (treasury_shard_idx author_fee_shard_idx : ℕ)
            → Holds
                (λ _ b'. SoundBank R program_id b')
                (process_request_access R program_id accounts treasury_shard_idx
                  author_fee_shard_idx b)
        unfolding process_request_access
        process_request_access-keeps treasury_shard_idx author_fee_shard_idx =
            Holds-take accounts _ b keyed λ payer r1 fits_payer k1.
              Holds-take r1 _ b k1 λ access_account r2 _ k2.
                Holds-take r2 _ b k2 λ entry_account r3 _ k3.
                  Holds-take r3 _ b k3 λ thread_account r4 fits_thread k4.
                    Holds-take r4 _ b k4 λ settings_account r5 _ k5.
                      Holds-take r5 _ b k5 λ treasury_shard r6 _ k6.
                        Holds-take r6 _ b k6 λ author_fee_shard r7 _ k7.
                          Holds-take r7 _ b k7 λ system_program_account r8 _ _.
                            Holds-check _ _ b λ _ _. Holds-check _ _ b λ _ _.
                              Holds-check _ _ b λ _ _. Holds-check _ _ b λ _ _.
                                Holds-check _ _ b λ _ _. Holds-check _ _ b λ _ _.
                                  Holds-check _ _ b λ _ _. Holds-check _ _ b λ access _.
                                    Holds-fail_if _ _ _ b λ _. Holds-fail_if _ _ _ b λ _.
                                      Holds-check _ _ b λ _ _. Holds-check _ _ b λ _ _.
                                        Holds-gets _ _ b (
                                          Holds-rejected (is_uninitialized R entry_account b) _ _ b
                                            (λ used.
                                              reject_existing_entry-fails R program_id r8
                                                entry_account thread_account.key payer.key _ b)
                                            λ _. Holds-check _ _ b λ settings _.
                                              Holds-bind _ _ b
                                                (prepare_fee_shards-keeps L program_id Nowhere
                                                  rent_ok payer treasury_shard author_fee_shard
                                                  system_program_account thread_account.key
                                                  treasury_shard_idx author_fee_shard_idx b h)
                                                λ _ b1 h1.
                                                  Holds-bind _ _ b1
                                                    (transfer_fee_split-keeps L program_id Nowhere
                                                      rent_ok access.entry_fee
                                                      settings.entry_cut_bps payer author_fee_shard
                                                      treasury_shard b1 h1)
                                                    λ _ b2 h2.
                                                      Holds-bind _ _ b2
                                                        (set_access_entry_status-keeps L program_id
                                                          rent_ok payer entry_account
                                                          system_program_account thread_account.key
                                                          payer.key access_allowed b2 fits_thread
                                                          fits_payer (omega arith) h2)
                                                        λ _ b3 h3.
                                                          adjust_whitelist_count-keeps L program_id
                                                            access_account (pos 1) b3 h3)

    module _ (accounts : List AccountInfo) (keyed : All (λ a. Fits 32 a.key) accounts) (b : Bank)
        (h : SoundBank R program_id b) where
      pub process_init_thread_access-keeps :
          (enabled : Bool) (treasury_shard_idx : ℕ)
          → Holds
              (λ _ b'. SoundBank R program_id b')
              (process_init_thread_access R program_id accounts enabled treasury_shard_idx b)
      unfolding process_init_thread_access
      process_init_thread_access-keeps enabled treasury_shard_idx =
          Holds-take accounts _ b keyed λ authority r1 _ k1.
            Holds-take r1 _ b k1 λ thread_account r2 _ k2.
              Holds-take r2 _ b k2 λ access_account r3 _ k3.
                Holds-take r3 _ b k3 λ treasury_shard r4 _ k4.
                  Holds-take r4 _ b k4 λ system_program_account r5 _ _. Holds-check _ _ b λ _ _.
                    Holds-check _ _ b λ _ _. Holds-check _ _ b λ _ _. Holds-check _ _ b λ _ _.
                      Holds-check _ _ b λ thread _. Holds-fail_if _ _ _ b λ _.
                        Holds-check _ _ b λ _ _. Holds-check _ _ b λ _ _.
                          Holds-check _ _ b λ bump _.
                            Holds-bind _ _ b
                              (ensure_shard_initialized-keeps L program_id Nowhere rent_ok authority
                                treasury_shard system_program_account
                                (treasury_shard_seed ∷ to_le_bytes 2 treasury_shard_idx ∷ []) bump b
                                h)
                              λ _ b1 h1. Holds-lift _ _ b1 rent_ok (
                                Holds-bind _ _ b1
                                  (collect_fee_to_shard-keeps L program_id Nowhere rent_ok _
                                    authority treasury_shard b1 h1)
                                  λ _ b2 h2.
                                    Holds-bind _ _ b2
                                      (create_pda_account-keeps L program_id Nowhere rent_ok
                                        authority access_account system_program_account _ _ b2 h2)
                                      λ _ b3 h3.
                                        write_gate L program_id
                                          (gate_of thread_account.key authority.key enabled)
                                          access_account b3 refl h3)

  module _ (accounts : List AccountInfo) (keyed : All (λ a. Fits 32 a.key) accounts) (b : Bank)
      (h : SoundBank R program_id b) where
    pub process_set_thread_access-keeps :
        (enabled : Bool)
        → Holds
            (λ _ b'. SoundBank R program_id b')
            (process_set_thread_access R program_id accounts enabled b)
    unfolding process_set_thread_access
    process_set_thread_access-keeps enabled = Holds-take accounts _ b keyed λ authority r1 _ k1.
        Holds-take r1 _ b k1 λ access_account r2 _ _. Holds-check _ _ b λ a e.
          write_gate L program_id _ access_account b
            (admin_tag L program_id authority access_account a b e).1 h

    pub process_set_entry_fee-keeps :
        (fee : ℕ)
        → Holds
            (λ _ b'. SoundBank R program_id b')
            (process_set_entry_fee R program_id accounts fee b)
    unfolding process_set_entry_fee
    process_set_entry_fee-keeps fee = Holds-take accounts _ b keyed λ authority r1 _ k1.
        Holds-take r1 _ b k1 λ access_account r2 _ _. Holds-check _ _ b λ a e.
          write_gate L program_id _ access_account b
            (admin_tag L program_id authority access_account a b e).1 h
