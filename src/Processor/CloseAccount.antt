-- ===== src/Processor/CloseAccount.antt =====
-- Deleting a message and refunding its rent (src/processor/close_account.rs).
pub mod Deleted
use txtcel_program.Base.{ℕ, ◌==◌, ltb, if◌then◌else◌, not, List, [], ◌∷◌, length, set}
use txtcel_program.Error.{invalid_tag, unauthorized, invalid_alloc_seq, panicked}
use txtcel_program.Runtime.{Pubkey, AccountInfo, Runtime}
use txtcel_program.Runtime.Check.{Check, gets, raise, pure}
use txtcel_program.Runtime.Tx.{
  Tx, check, fail_if, when, done, next_account_info, serialize, ◌>>=◌, ◌>>◌,
}
use txtcel_program.State.Constants.{tag_content}
use txtcel_program.State.Codecs.{alloc_likes_codec}
use txtcel_program.State.Pda.{derive_likes_pda}
use txtcel_program.State.Asserts.{
  assert_signer, assert_writable, assert_owned_by, assert_pda, is_uninitialized, read_tag,
}
use txtcel_program.State.AccountUtils.{close_program_account}
use txtcel_program.State.Loaders.{load_alloc_likes}
use txtcel_program.Content.{load_content}
use txtcel_program.Content.Node.{ContentNode}

-- `counts[i] = v`, which aborts out of range.
abbrev pub set_count : List ℕ → ℕ → ℕ → Check (List ℕ)
set_count counts i v = if ltb i (length counts) then pure (set counts i v) else raise panicked

module _ (R : Runtime) (program_id : Pubkey) where
  -- The slot's like counter is reset.
  unfoldable pub write_reset : AccountInfo → ContentNode → Tx (Unit {0})
  unfolding assert_writable assert_owned_by load_alloc_likes serialize
  write_reset likes_account content = do
    check (assert_writable likes_account)
    check (assert_owned_by likes_account program_id)
    likes ← check (load_alloc_likes R likes_account)
    fail_if (not (likes.alloc_seq == content.header.alloc_seq)) invalid_alloc_seq
    counts ← check (set_count likes.counts content.header.slot 0)
    serialize (alloc_likes_codec R.borsh) (record likes { counts = counts }) likes_account

  -- `account_info_iter.next()` is the likes account, if it was passed.
  unfoldable pub reset_likes : List AccountInfo → ContentNode → Tx (Unit {0})
  unfolding assert_pda is_uninitialized write_reset
  reset_likes [] content = done
  reset_likes (likes_account ∷ rest) content = do
    let expected_likes =
        (derive_likes_pda R program_id content.header.thread content.header.alloc_seq).0
    check (assert_pda likes_account expected_likes)
    fresh ← check (gets (is_uninitialized R likes_account))
    when (not fresh) (write_reset likes_account content)

  unfoldable pub process_close_account : List AccountInfo → Tx (Unit {0})
  unfolding assert_signer assert_writable assert_owned_by read_tag load_content reset_likes
      close_program_account
  process_close_account accounts = do
    (payer, r1) ← next_account_info accounts
    (target_account, likes_accounts) ← next_account_info r1
    check (assert_signer payer)
    check (assert_writable target_account)
    check (assert_owned_by target_account program_id)
    tag ← check (read_tag target_account)
    fail_if (not (tag == tag_content)) invalid_tag
    content ← check (load_content R program_id target_account)
    fail_if (not (content.header.author == payer.key)) unauthorized
    reset_likes likes_accounts content
    close_program_account R target_account payer
