-- ===== src/Processor/FillSlot/Admission.antt =====
-- Who may post (src/processor/fill_slot.rs), against a table of the policy.
use txtcel_program.Base.{ℕ, ◌≡◌, Bool, true, false, not, ◌&&◌, ◌||◌, ◌==◌, Option, none, some}
use txtcel_program.Error.{access_denied, ok}
use txtcel_program.Runtime.{Pubkey, Bank, AccountInfo, Runtime}
use txtcel_program.State.Constants
use txtcel_program.State.Constants.{access_allowed, access_fee_exempt}
use txtcel_program.State.Accounts.{ThreadAccess}
use txtcel_program.State.Asserts.{is_uninitialized}
use txtcel_program.State.Loaders.{load_thread_access}
use txtcel_program.Processor.FillSlot.Gate.{gate}

-- Whether a thread is gated: without a gate account it is open.
pub data IsGated (R : Runtime) (program_id : Pubkey) (account : AccountInfo) (thread : Pubkey)
    (b : Bank) : Bool → Type 0 where
  open_thread : is_uninitialized R account b ≡ true → IsGated R program_id account thread b false
  gated_thread :
      (a : ThreadAccess)
      → is_uninitialized R account b ≡ false
      → (b account.key).owner ≡ program_id
      → load_thread_access R account b ≡ ok a
      → a.thread ≡ thread
      → IsGated R program_id account thread b (gate a.enabled a.whitelist_count a.entry_fee)

-- The policy: a wallet with the denied status never posts; on a gated thread its author and the
-- wallets with one of the other two statuses do, and on an open thread everybody else too.
abbrev pub may_post : Bool → Bool → Option ℕ → Bool
may_post gated is_author none = not gated || is_author
may_post gated is_author (some s) =
    not (s == Constants.access_denied)
    && (not gated || (is_author || (s == access_allowed || s == access_fee_exempt)))

-- Who pays no author's fee.
abbrev pub posts_free : Bool → Option ℕ → Bool
posts_free is_author none = is_author
posts_free is_author (some s) = is_author || s == access_fee_exempt
