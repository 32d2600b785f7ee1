-- ===== src/System/Following/Obtained.antt =====
-- The registry that a subscription writes to, a new one or the user's own (src/processor/subscribe.rs).
use txtcel_program.Base.{ℕ, ◌≡◌, refl, ap, ◌∙◌, true, [], length, length-replicate}
use txtcel_program.Error.{ok}
use txtcel_program.Runtime.{Pubkey, Bank, AccountInfo, Runtime}
use txtcel_program.Runtime.Views.{value_of}
use txtcel_program.Runtime.Laws.{IsRuntime}
use txtcel_program.Runtime.Hoare.{Holds, Holds-bind, Holds-check, Holds-fail_if, Holds-pure}
use txtcel_program.State.Accounts.{FollowRegistry, follow_registry_size}
use txtcel_program.State.AccountUtils.Effects.{Frame, create_pda_account-Created}
use txtcel_program.State.Asserts.Facts.{is_uninitialized-bytes, assert_owned_by_ok}
use txtcel_program.System.Sound.{SoundBank}
use txtcel_program.System.Handlers.Registries.{IsGood, empty_registry, empty_registry-IsGood}
use txtcel_program.System.Handlers.Follows.{loaded-IsGood}
use txtcel_program.System.Following.{following, serialize-Stored, following-empty}
use txtcel_program.Borsh.Laws.{Fits}
use txtcel_program.State.Asserts.{is_uninitialized}
use txtcel_program.Processor.Follow.{create_registry, load_own_registry}

-- The registry that the channel is added to, which may be new.
pub record Obtained (R : Runtime) (registry : AccountInfo) (b : Bank) (x : FollowRegistry)
    (b1 : Bank) : Type 0 where
  pub good : IsGood x
  pub channels : following R registry b ≡ x.channels
  pub frame : Frame registry.key b b1

module _ {R : Runtime} (L : IsRuntime R) (program_id : Pubkey)
    (user registry system_program_account : AccountInfo) {rent : ℕ → ℕ} (rent_ok : R.rent ≡ ok rent)
    (fits_user : Fits 32 user.key) (b : Bank) where
  pub created :
      (bump : ℕ)
      → is_uninitialized R registry b ≡ true
      → Holds
          (Obtained R registry b)
          (create_registry R program_id user registry system_program_account bump b)
  unfolding create_registry
  created bump fresh =
      let new = empty_registry user.key in
      let g = empty_registry-IsGood user.key fits_user in
      Holds-bind _ _ b
        (create_pda_account-Created L program_id user registry system_program_account _ _ b rent_ok)
        λ _ b1 c.
          Holds-bind _ _ b1
            (serialize-Stored L registry new b1 g.range g.tagged
              (ap length c.bytes ∙ length-replicate (follow_registry_size 0) 0))
            λ _ b2 st. Holds-pure new b2 (record {
              good = g;
              channels = following-empty L registry b (is_uninitialized-bytes R registry b fresh);
              frame = record {
                bytes = λ k ne. st.frame.bytes k ne ∙ c.frame.bytes k ne;
                owner = λ k ne. st.frame.owner k ne ∙ c.frame.owner k ne;
              };
            })

  pub loaded :
      SoundBank R program_id b
      → Holds (Obtained R registry b) (load_own_registry R program_id user registry b)
  unfolding load_own_registry
  loaded h = Holds-check _ _ b λ _ owned. Holds-check _ _ b λ x e. Holds-fail_if _ _ _ b λ _.
      Holds-pure x b (record {
        good =
            loaded-IsGood L program_id registry x b h
              (assert_owned_by_ok registry b program_id owned) e;
        channels = ap (value_of (λ (t : FollowRegistry). t.channels) []) e;
        frame = record { bytes = λ k ne. refl; owner = λ k ne. refl };
      })
