-- ===== src/System/Handlers/Follows.antt =====
-- The registries and the follower counts (src/processor/subscribe.rs, unsubscribe.rs).
use txtcel_program.Base.{ℕ, ◌-◌, ◌≡◌, refl, ltb, List, All, length, arith}
use txtcel_program.Error.{ok}
use txtcel_program.Borsh.Laws.{Fits}
use txtcel_program.Runtime.{Pubkey, Bank, AccountInfo, Runtime, set_lamports}
use txtcel_program.Runtime.Laws.{IsRuntime}
use txtcel_program.Runtime.Tx.{serialize}
use txtcel_program.Runtime.Hoare.{
  Holds, held, Holds-bind, Holds-check, Holds-fail_if, Holds-gets, Holds-if, Holds-lift,
  Holds-modify, Holds-mono, Holds-pure, Holds-run, Holds-take,
}
use txtcel_program.Runtime.Storage.{try_from_slice-some}
use txtcel_program.State.Constants.{tag_follower_shard}
use txtcel_program.State.Accounts.{FollowRegistry, FollowerShard, follow_registry_size}
use txtcel_program.State.Codecs.{follow_registry_codec, follower_shard_codec}
use txtcel_program.State.Codecs.Canonical.{follow_registry_codec-Canonical}
use txtcel_program.State.Asserts.{is_uninitialized}
use txtcel_program.State.Asserts.Facts.{assert_owned_by_ok}
use txtcel_program.State.Loaders.{load_follow_registry}
use txtcel_program.State.Loaders.Facts.{load_follow_registry_iff, load_bound_follower_shard_iff}
use txtcel_program.State.Fees.Payment.{SameData, SameData-refl, SameData-trans}
use txtcel_program.Processor.Follow.{
  swap_remove, create_registry, load_own_registry, create_follower_shard, bump_follower_shard,
  refund_rent, process_subscribe, process_unsubscribe,
}
use txtcel_program.System.Handlers.Registries.{
  IsGood, empty_registry, empty_registry-IsGood, followed, followed-IsGood, unfollowed-IsGood,
}
use txtcel_program.System.Handlers.Sweeps.{set_lamports-SameData, credit-SameData}
use txtcel_program.System.Sound.{SoundBut, SoundBank, Nowhere}
use txtcel_program.System.Writes.{follow_registry_codec-Sound, follower_shard_codec-Sound}
use txtcel_program.System.Keeps.{
  create_pda_account-keeps, ensure_rent_exempt-keeps, resize-skips, serialize-keeps,
  serialize-closes,
}
use txtcel_program.System.Frames.{SameData-SoundBut}

module _ {R : Runtime} (L : IsRuntime R) (program_id : Pubkey) where
  pub loaded-IsGood :
      (account : AccountInfo) (x : FollowRegistry) (b : Bank)
      → SoundBank R program_id b
      → (b account.key).owner ≡ program_id
      → load_follow_registry R account b ≡ ok x
      → IsGood x
  loaded-IsGood account x b h owned e =
      let (decoded, tagged) = (load_follow_registry_iff R program_id account b x).0 e in
      let (_, range) =
        try_from_slice-some (follow_registry_codec R.borsh)
          (follow_registry_codec-Canonical L.is_borsh) _ x decoded in
      record {
        range = range;
        tagged = tagged;
        distinct = (h account.key (λ t. t) owned).registry x decoded tagged;
      }

  close_registry :
      (x : FollowRegistry) (account : AccountInfo) (b : Bank)
      → IsGood x
      → SoundBut R program_id (λ k. k ≡ account.key) b
      → Holds
          (λ _ b'. SoundBank R program_id b')
          (serialize (follow_registry_codec R.borsh) x account b)
  close_registry x account b g h =
      serialize-closes R program_id (follow_registry_codec R.borsh) x account
        (λ rest. follow_registry_codec-Sound L.is_borsh x rest g.range g.tagged g.distinct) b h

  write_shard :
      (x : FollowerShard) (account : AccountInfo) (b : Bank)
      → x.tag ≡ tag_follower_shard
      → SoundBank R program_id b
      → Holds
          (λ _ b'. SoundBank R program_id b')
          (serialize (follower_shard_codec R.borsh) x account b)
  write_shard x account b tagged h =
      serialize-keeps R program_id (follower_shard_codec R.borsh) x account
        (λ rest. follower_shard_codec-Sound L.is_borsh x rest tagged) b h

  load_own_registry-IsGood :
      (user account : AccountInfo) (b : Bank)
      → SoundBank R program_id b
      → Holds
          (λ x b'. IsGood x × SoundBank R program_id b')
          (load_own_registry R program_id user account b)
  unfolding load_own_registry
  load_own_registry-IsGood user account b h = Holds-check _ _ b λ _ owned. Holds-check _ _ b λ x e.
      Holds-fail_if _ _ _ b λ _.
        Holds-pure x b
          (loaded-IsGood account x b h (assert_owned_by_ok account b program_id owned) e, h)

  bump_follower_shard-keeps :
      (account : AccountInfo) (thread_key : Pubkey) (shard_idx : ℕ) (b : Bank)
      → SoundBank R program_id b
      → Holds
          (λ _ b'. SoundBank R program_id b')
          (bump_follower_shard R program_id account thread_key shard_idx b)
  unfolding bump_follower_shard
  bump_follower_shard-keeps account thread_key shard_idx b h = Holds-check _ _ b λ x e.
      Holds-check _ _ b λ count _.
        let (_, _, tagged, _, _) =
          (load_bound_follower_shard_iff R program_id account b thread_key shard_idx x).0 e in
        write_shard (record x { count = count }) account b tagged h

  module _ {rent : ℕ → ℕ} (rent_ok : R.rent ≡ ok rent) where
    create_registry-IsGood :
        (user account system_program_account : AccountInfo) (bump : ℕ) (b : Bank)
        → Fits 32 user.key
        → SoundBank R program_id b
        → Holds
            (λ x b'. IsGood x × SoundBank R program_id b')
            (create_registry R program_id user account system_program_account bump b)
    unfolding create_registry
    create_registry-IsGood user account system_program_account bump b fits h =
        let new = empty_registry user.key in
        let good = empty_registry-IsGood user.key fits in
        Holds-bind _ _ b
          (create_pda_account-keeps L program_id Nowhere rent_ok user account system_program_account
            _ _ b h)
          λ _ b1 h1.
            Holds-bind _ _ b1
              (close_registry new account b1 good (λ k _ owned. h1 k (λ t. t) owned))
              λ _ b2 h2. Holds-pure new b2 (good, h2)

    create_follower_shard-keeps :
        (user account system_program_account : AccountInfo) (thread_key : Pubkey)
        (shard_idx bump : ℕ) (b : Bank)
        → SoundBank R program_id b
        → Holds
            (λ _ b'. SoundBank R program_id b')
            (create_follower_shard R program_id user account system_program_account thread_key
              shard_idx bump b)
    unfolding create_follower_shard
    create_follower_shard-keeps user account system_program_account thread_key shard_idx bump b h =
        Holds-bind _ _ b
          (create_pda_account-keeps L program_id Nowhere rent_ok user account system_program_account
            _ _ b h)
          λ _ b1 h1. write_shard _ account b1 refl h1

    pub refund_rent-SameData :
        (user account : AccountInfo) (new_size : ℕ) (b : Bank)
        → Holds (λ _ b'. SameData b b') (refund_rent R program_id user account new_size b)
    unfolding refund_rent
    refund_rent-SameData user account new_size b = Holds-lift _ _ b rent_ok (
        Holds-gets _ _ b (
          let required = rent new_size in
          let current = (b account.key).lamports in
          let b1 = set_lamports b account.key required in
          Holds-if (ltb required current) _ _ b
            (λ _. Holds-modify _ _ b (
              Holds-mono (credit-SameData user (current - required) b1) λ _ b2 s.
                held (SameData-trans b b1 b2 (set_lamports-SameData b account.key required) s)))
            (λ _. Holds-pure tt b (SameData-refl b))))

    module _ (accounts : List AccountInfo) (keyed : All (λ a. Fits 32 a.key) accounts) (b : Bank)
        (h : SoundBank R program_id b) where
      pub process_subscribe-keeps :
          Holds (λ _ b'. SoundBank R program_id b') (process_subscribe R program_id accounts b)
      unfolding process_subscribe
      process_subscribe-keeps = Holds-take accounts _ b keyed λ user r1 fits_user k1.
          Holds-take r1 _ b k1 λ follow_registry r2 _ k2.
            Holds-take r2 _ b k2 λ follower_shard r3 _ k3.
              Holds-take r3 _ b k3 λ thread_account r4 fits_thread k4.
                Holds-take r4 _ b k4 λ system_program_account r5 _ _. Holds-check _ _ b λ _ _.
                  Holds-check _ _ b λ _ _. Holds-check _ _ b λ _ _. Holds-check _ _ b λ _ _.
                    Holds-check _ _ b λ _ _. Holds-check _ _ b λ _ _. Holds-check _ _ b λ _ _.
                      Holds-check _ _ b λ _ _. Holds-gets _ _ b (
                        Holds-bind {P = λ x b'. IsGood x × SoundBank R program_id b'} _ _ b
                          (Holds-if (is_uninitialized R follow_registry b) _ _ b
                            (λ _.
                              create_registry-IsGood user follow_registry system_program_account _ b
                                fits_user h)
                            (λ _. load_own_registry-IsGood user follow_registry b h))
                          λ x b1 (g, h1). Holds-fail_if _ _ _ b1 λ absent.
                            Holds-fail_if _ _ _ b1 λ room.
                              let new = followed x thread_account.key in
                              let size = follow_registry_size (length new.channels) in
                              Holds-bind _ _ b1 (Holds-run (R.resize follow_registry size) b1)
                                λ _ b2 e2.
                                  Holds-bind _ _ b2
                                    (ensure_rent_exempt-keeps L program_id
                                      (λ k. k ≡ follow_registry.key) rent_ok user follow_registry
                                      size b2
                                      (resize-skips L program_id follow_registry size b1 b2 e2 h1))
                                    λ _ b3 h3.
                                      Holds-bind _ _ b3
                                        (close_registry new follow_registry b3
                                          (followed-IsGood x thread_account.key g fits_thread absent
                                            (ground arith))
                                          h3)
                                        λ _ b4 h4. Holds-gets _ _ b4 (
                                          Holds-if (is_uninitialized R follower_shard b4) _ _ b4
                                            (λ _.
                                              create_follower_shard-keeps user follower_shard
                                                system_program_account thread_account.key _ _ b4 h4)
                                            (λ _.
                                              bump_follower_shard-keeps follower_shard
                                                thread_account.key _ b4 h4)))

      pub process_unsubscribe-keeps :
          Holds (λ _ b'. SoundBank R program_id b') (process_unsubscribe R program_id accounts b)
      unfolding process_unsubscribe
      process_unsubscribe-keeps = Holds-take accounts _ b keyed λ user r1 _ k1.
          Holds-take r1 _ b k1 λ follow_registry r2 _ k2.
            Holds-take r2 _ b k2 λ follower_shard r3 _ k3.
              Holds-take r3 _ b k3 λ thread_account r4 _ k4.
                Holds-take r4 _ b k4 λ system_program_account r5 _ _. Holds-check _ _ b λ _ _.
                  Holds-check _ _ b λ _ _. Holds-check _ _ b λ _ _. Holds-check _ _ b λ _ _.
                    Holds-check _ _ b λ _ _. Holds-check _ _ b λ _ owned. Holds-check _ _ b λ _ _.
                      Holds-check _ _ b λ _ _. Holds-check _ _ b λ _ _. Holds-check _ _ b λ x e.
                        Holds-fail_if _ _ _ b λ _. Holds-check _ _ b λ pos found.
                          let new : FollowRegistry = record x {
                            channels = swap_remove pos x.channels;
                          } in
                          let size = follow_registry_size (length new.channels) in
                          let g =
                            loaded-IsGood follow_registry x b h
                              (assert_owned_by_ok follow_registry b program_id owned) e in
                          Holds-bind _ _ b (Holds-run (R.resize follow_registry size) b) λ _ b1 e1.
                            Holds-bind _ _ b1
                              (close_registry new follow_registry b1
                                (unfollowed-IsGood x thread_account.key pos g (ground arith))
                                (resize-skips L program_id follow_registry size b b1 e1 h))
                              λ _ b2 h2.
                                Holds-bind _ _ b2
                                  (refund_rent-SameData user follow_registry size b2)
                                  λ _ b3 s.
                                    let h3 = SameData-SoundBut R program_id Nowhere b2 b3 s h2 in
                                    Holds-gets _ _ b3 (
                                      Holds-fail_if _ _ _ b3 λ _. Holds-check _ _ b3 λ y e'.
                                        let (_, _, tagged, _, _) =
                                          (load_bound_follower_shard_iff R program_id follower_shard
                                              b3 thread_account.key _ y).0
                                            e' in
                                        write_shard (record y { count = y.count - 1 })
                                          follower_shard b3 tagged h3)
