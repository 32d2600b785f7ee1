-- ===== src/State/Loaders.antt =====
-- The account loaders (src/state/loaders.rs; the mutations are in `Access`).
pub mod Facts
use txtcel_program.Base.{ℕ, ◌==◌, not, ◌||◌, Option}
use txtcel_program.Error.{
  invalid_account_data, invalid_tag, thread_mismatch, unauthorized, account_owner_mismatch,
}
use txtcel_program.Borsh.{Bytes, try_from_slice, deserialize}
use txtcel_program.Runtime.{Pubkey, AccountInfo, Runtime}
use txtcel_program.Runtime.Check.{Check, pure, fail_if, gets, or_fail, ◌>>=◌, ◌>>◌}
use txtcel_program.State.Constants.{
  tag_alloc, tag_thread, tag_settings, tag_access, tag_likes, tag_access_entry, tag_follow_registry,
  tag_follower_shard,
}
use txtcel_program.State.Accounts.{
  AllocNode, ThreadNode, ProgramSettings, ThreadAccess, AccessEntry, AllocLikes, FollowRegistry,
  FollowerShard,
}
use txtcel_program.State.Codecs.{
  alloc_node_codec, thread_node_codec, program_settings_codec, thread_access_codec,
  access_entry_codec, alloc_likes_codec, follow_registry_codec, follower_shard_codec,
}
use txtcel_program.State.Pda.{derive_settings_pda, derive_alloc_pda, derive_access_pda}
use txtcel_program.State.Asserts.{assert_signer, assert_writable, assert_owned_by, assert_pda}

-- `T::…(&account.data.borrow()).map_err(|_| ProtocolError::InvalidAccountData)?`
abbrev pub decoded : {A : Type 0} → (Bytes → Option A) → AccountInfo → Check A
decoded decode account b = or_fail (decode (b account.key).bytes) invalid_account_data b

module _ (R : Runtime) where
  unfoldable pub load_thread_access : AccountInfo → Check ThreadAccess
  load_thread_access account = do
    access ← decoded (deserialize (thread_access_codec R.borsh)) account
    fail_if (not (access.tag == tag_access)) invalid_tag
    pure access

  unfoldable pub load_access_entry : AccountInfo → Check AccessEntry
  load_access_entry account = do
    entry ← decoded (deserialize (access_entry_codec R.borsh)) account
    fail_if (not (entry.tag == tag_access_entry)) invalid_tag
    pure entry

  unfoldable pub load_bound_access_entry :
      Pubkey → AccountInfo → Pubkey → Pubkey → Check AccessEntry
  unfolding assert_owned_by load_access_entry
  load_bound_access_entry program_id entry_account thread wallet = do
    assert_owned_by entry_account program_id
    entry ← load_access_entry entry_account
    fail_if (not (entry.thread == thread) || not (entry.wallet == wallet)) thread_mismatch
    pure entry

  unfoldable pub load_alloc_likes : AccountInfo → Check AllocLikes
  load_alloc_likes account = do
    likes ← decoded (try_from_slice (alloc_likes_codec R.borsh)) account
    fail_if (not (likes.tag == tag_likes)) invalid_tag
    pure likes

  unfoldable pub load_follow_registry : AccountInfo → Check FollowRegistry
  load_follow_registry account = do
    registry ← decoded (try_from_slice (follow_registry_codec R.borsh)) account
    fail_if (not (registry.tag == tag_follow_registry)) invalid_tag
    pure registry

  unfoldable pub load_follower_shard : AccountInfo → Check FollowerShard
  load_follower_shard account = do
    shard ← decoded (try_from_slice (follower_shard_codec R.borsh)) account
    fail_if (not (shard.tag == tag_follower_shard)) invalid_tag
    pure shard

  unfoldable pub load_bound_follower_shard : Pubkey → AccountInfo → Pubkey → ℕ → Check FollowerShard
  unfolding assert_owned_by load_follower_shard
  load_bound_follower_shard program_id shard_account thread shard_idx = do
    assert_owned_by shard_account program_id
    shard ← load_follower_shard shard_account
    fail_if (not (shard.thread == thread) || not (shard.shard == shard_idx)) thread_mismatch
    pure shard

  unfoldable pub load_thread : Pubkey → AccountInfo → Check ThreadNode
  unfolding assert_owned_by
  load_thread program_id account = do
    assert_owned_by account program_id
    thread ← decoded (try_from_slice (thread_node_codec R.borsh)) account
    fail_if (not (thread.tag == tag_thread)) invalid_tag
    pure thread

  unfoldable pub load_author_thread : Pubkey → AccountInfo → AccountInfo → Check ThreadNode
  unfolding assert_signer assert_writable load_thread
  load_author_thread program_id authority thread_account = do
    assert_signer authority
    assert_writable thread_account
    thread ← load_thread program_id thread_account
    fail_if (not (authority.key == thread.author)) unauthorized
    pure thread

  unfoldable pub load_alloc : Pubkey → AccountInfo → Check AllocNode
  unfolding assert_owned_by assert_pda
  load_alloc program_id account = do
    assert_owned_by account program_id
    alloc ← decoded (try_from_slice (alloc_node_codec R.borsh)) account
    fail_if (not (alloc.tag == tag_alloc)) invalid_tag
    let expected = (derive_alloc_pda R program_id alloc.thread alloc.alloc_seq).0
    assert_pda account expected
    pure alloc

  unfoldable pub load_admin_access : Pubkey → AccountInfo → AccountInfo → Check ThreadAccess
  unfolding assert_signer assert_writable assert_owned_by assert_pda load_thread_access
  load_admin_access program_id authority access_account = do
    assert_signer authority
    assert_writable access_account
    assert_owned_by access_account program_id
    access ← load_thread_access access_account
    fail_if (not (access.admin == authority.key)) unauthorized
    let expected = (derive_access_pda R program_id access.thread).0
    assert_pda access_account expected
    pure access

  unfoldable pub load_settings : Pubkey → AccountInfo → Check ProgramSettings
  unfolding assert_pda
  load_settings program_id settings_account = do
    let expected_settings = (derive_settings_pda R program_id).0
    assert_pda settings_account expected_settings
    owner ← gets (λ b. (b settings_account.key).owner)
    fail_if (not (owner == program_id)) account_owner_mismatch
    settings ← decoded (try_from_slice (program_settings_codec R.borsh)) settings_account
    fail_if (not (settings.tag == tag_settings)) invalid_tag
    pure settings

  unfoldable pub load_admin_settings : Pubkey → AccountInfo → AccountInfo → Check ProgramSettings
  unfolding assert_signer assert_writable load_settings
  load_admin_settings program_id authority settings_account = do
    assert_signer authority
    assert_writable settings_account
    settings ← load_settings program_id settings_account
    fail_if (not (settings.admin == authority.key)) unauthorized
    pure settings
