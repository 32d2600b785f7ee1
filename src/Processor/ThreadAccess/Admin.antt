-- ===== src/Processor/ThreadAccess/Admin.antt =====
-- Only the admin of a thread's gate changes it, and each setter changes its field alone
-- (src/processor/set_thread_access.rs, set_entry_fee.rs).
use txtcel_program.Base.{ℕ, Bool, ◌≡◌, refl, ◌∙◌, List, ◌∷◌, arith}
use txtcel_program.Error.{ok}
use txtcel_program.Borsh.Laws.{Fits, IsBorsh}
use txtcel_program.Runtime.{Pubkey, Bank, AccountInfo, Runtime}
use txtcel_program.Runtime.Tx.{Tx, check, serialize, ◌>>=◌}
use txtcel_program.Runtime.Hoare.{Holds, held, at_ok, Holds-mono, Holds-check, Holds-next}
use txtcel_program.Runtime.Storage.{rewrite-Rewritten_prefix, deserialize-some}
use txtcel_program.Runtime.Editing.{Edited}
use txtcel_program.State.Accounts.{ThreadAccess, thread_access_size}
use txtcel_program.State.Codecs.{thread_access_codec}
use txtcel_program.State.Codecs.Sizes.{thread_access_codec-HasSize}
use txtcel_program.State.Codecs.RoundTrip.{ThreadAccessInRange, thread_access_codec-RoundTrips}
use txtcel_program.State.Codecs.Canonical.{thread_access_codec-Canonical}
use txtcel_program.State.Codecs.Fronts.{thread_access_codec-IsFront}
use txtcel_program.State.Loaders.{load_thread_access, load_admin_access}
use txtcel_program.State.Loaders.Facts.{load_thread_access_iff, load_admin_access_iff}
use txtcel_program.Processor.ThreadAccess.{process_set_thread_access, process_set_entry_fee}

-- An edit that keeps the tag and the ranges.
pub record IsEdit (edit : ThreadAccess → ThreadAccess) : Type 0 where
  pub tag : (a : ThreadAccess) → (edit a).tag ≡ a.tag
  pub in_range : (a : ThreadAccess) → ThreadAccessInRange a → ThreadAccessInRange (edit a)

-- The two settings of a gate with their values, the setter of each and the field that it sets.
pub data GateSetting : Type 0 where
  enabled : Bool → GateSetting
  entry_fee : ℕ → GateSetting

abbrev pub set_gate : GateSetting → Runtime → Pubkey → List AccountInfo → Tx (Unit {0})
set_gate (enabled on) R program_id accounts = process_set_thread_access R program_id accounts on
set_gate (entry_fee fee) R program_id accounts = process_set_entry_fee R program_id accounts fee

abbrev pub with_setting : GateSetting → ThreadAccess → ThreadAccess
with_setting (enabled on) a = record a { enabled = on }
with_setting (entry_fee fee) a = record a { entry_fee = fee }

abbrev pub FitsSetting : GateSetting → Type 0
FitsSetting (enabled on) = Unit
FitsSetting (entry_fee fee) = Fits 8 fee

module _ (R : Runtime) (program_id : Pubkey) where
  abbrev pub EditedAccess :
      AccountInfo → AccountInfo → (ThreadAccess → ThreadAccess) → Bank → Bank → Type 0
  EditedAccess = Edited (load_thread_access R) (λ a. a.admin)

  module _ (l : IsBorsh R.borsh) (authority account : AccountInfo)
      {edit : ThreadAccess → ThreadAccess} (is_edit : IsEdit edit) where
    store-Edited :
        (a : ThreadAccess) (b : Bank)
        → load_admin_access R program_id authority account b ≡ ok a
        → Holds
            (λ _ b'. EditedAccess authority account edit b b')
            (serialize (thread_access_codec R.borsh) (edit a) account b)
    store-Edited a b e =
        let (signed, _, _, loaded, by_admin, _) =
          (load_admin_access_iff R program_id account b authority a).0 e in
        let (decoded, tagged) = (load_thread_access_iff R program_id account b a).0 loaded in
        let c = thread_access_codec R.borsh in
        let canonical = thread_access_codec-Canonical l in
        let (_, _, range) = deserialize-some c canonical (b account.key).bytes a decoded in
        let in_range = is_edit.in_range a range in
        Holds-mono
          (rewrite-Rewritten_prefix c canonical a (edit a) thread_access_size account b
            (thread_access_codec-HasSize l a) (thread_access_codec-HasSize l (edit a))
            (thread_access_codec-IsFront l (edit a))
            (thread_access_codec-RoundTrips l (edit a) in_range) decoded)
          λ _ b' w. held (record {
            old = a;
            signed = signed;
            loaded = loaded;
            by_controller = by_admin;
            stored =
                (load_thread_access_iff R program_id account b' (edit a)).1
                  (w.decoded, is_edit.tag a ∙ tagged);
            lamports = w.lamports;
            others = w.others;
          })

    edit_access-Edited :
        (b : Bank)
        → Holds
            (λ _ b'. EditedAccess authority account edit b b')
            ((check (load_admin_access R program_id authority account) >>= λ a.
                serialize (thread_access_codec R.borsh) (edit a) account)
              b)
    edit_access-Edited b = Holds-check _ _ b λ a e. store-Edited a b e

  -- For a `u64` entry fee, each of the two setters of a thread's gate succeeds only for its admin,
  -- sets its own field to the value, and changes nothing else in the gate or in any other account.
  pub set_gate-Edited :
      (l : IsBorsh R.borsh) (authority account : AccountInfo) (rest : List AccountInfo)
      (setting : GateSetting) (b b' : Bank)
      → FitsSetting setting
      → set_gate setting R program_id (authority ∷ account ∷ rest) b ≡ ok (tt, b')
      → EditedAccess authority account (with_setting setting) b b'
  unfolding process_set_thread_access process_set_entry_fee
  set_gate-Edited l authority account rest setting b b' fits e = at_ok (go setting fits) e
    where
      go :
          (setting : GateSetting)
          → FitsSetting setting
          → Holds
              (λ _ b'. EditedAccess authority account (with_setting setting) b b')
              (set_gate setting R program_id (authority ∷ account ∷ rest) b)
      go (enabled on) fits = Holds-next _ _ _ b (
          Holds-next _ _ _ b (
            edit_access-Edited l authority account
              (record { tag = λ a. refl; in_range = λ a h. omega arith }) b))
      go (entry_fee fee) fits = Holds-next _ _ _ b (
          Holds-next _ _ _ b (
            edit_access-Edited l authority account
              (record { tag = λ a. refl; in_range = λ a h. omega arith }) b))
