-- ===== src/Processor/FillSlot/Gate.antt =====
-- Who may post, and who posts free of the author's fee (src/processor/fill_slot.rs).
use txtcel_program.Base.{ℕ, ◌==◌, ltb, if◌then◌else◌, not, Bool, true, false, ◌&&◌, ◌||◌}
use txtcel_program.Error.{thread_mismatch, access_denied}
use txtcel_program.Runtime.{Pubkey, AccountInfo, Runtime}
use txtcel_program.Runtime.Check.{Check, pure, fail_if, gets, ◌>>=◌, ◌>>◌}
use txtcel_program.State.Constants
use txtcel_program.State.Constants.{access_allowed, access_fee_exempt}
use txtcel_program.State.Asserts.{assert_owned_by, is_uninitialized}
use txtcel_program.State.Loaders.{load_thread_access, load_bound_access_entry}

-- `access.enabled && (access.whitelist_count > 0 || access.entry_fee > 0)`
abbrev pub gate : Bool → ℕ → ℕ → Bool
gate enabled whitelist_count entry_fee = enabled && (ltb 0 whitelist_count || ltb 0 entry_fee)

module _ (R : Runtime) (program_id : Pubkey) where
  -- `gating_enabled`, from the thread's access account if there is one.
  unfoldable pub load_gate : AccountInfo → Pubkey → Check Bool
  unfolding is_uninitialized assert_owned_by load_thread_access
  load_gate access_account thread_key = do
    fresh ← gets (is_uninitialized R access_account)
    if fresh then pure false else do
      assert_owned_by access_account program_id
      access ← load_thread_access R access_account
      fail_if (not (access.thread == thread_key)) thread_mismatch
      pure (gate access.enabled access.whitelist_count access.entry_fee)

  -- `(allowed, fee_exempt)`, from the poster's entry if there is one.
  unfoldable pub load_standing : AccountInfo → Pubkey → Pubkey → Pubkey → Check (Bool × Bool)
  unfolding is_uninitialized load_bound_access_entry
  load_standing entry_account thread_key payer_key author = do
    fresh ← gets (is_uninitialized R entry_account)
    let is_author = payer_key == author
    if fresh then pure (is_author, is_author) else do
      entry ← load_bound_access_entry R program_id entry_account thread_key payer_key
      fail_if (entry.status == Constants.access_denied) access_denied
      pure (
        if (entry.status == access_allowed) || (entry.status == access_fee_exempt)
            then true
            else is_author,
        if entry.status == access_fee_exempt then true else is_author,
      )

  -- Both, then the refusal; the result is `fee_exempt`.
  unfoldable pub admission : AccountInfo → AccountInfo → Pubkey → Pubkey → Pubkey → Check Bool
  unfolding load_gate load_standing
  admission access_account entry_account thread_key payer_key author = do
    gating_enabled ← load_gate access_account thread_key
    (allowed, fee_exempt) ← load_standing entry_account thread_key payer_key author
    fail_if (gating_enabled && not allowed) access_denied
    pure fee_exempt
