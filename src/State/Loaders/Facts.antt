-- ===== src/State/Loaders/Facts.antt =====
-- What each loader of src/state/loaders.rs has checked when it returns, and when it returns.
use txtcel_program.Base.{ℕ, ◌≡◌, ◌↔◌, true, some, arith}
use txtcel_program.Error.{ok}
use txtcel_program.Borsh.{try_from_slice, deserialize}
use txtcel_program.Runtime.{Pubkey, Bank, AccountInfo, Runtime}
use txtcel_program.State.Constants.{
  tag_alloc, tag_thread, tag_settings, tag_access, tag_likes, tag_access_entry, tag_follow_registry,
  tag_follower_shard,
}
use txtcel_program.State.Accounts.{
  AllocNode, ThreadNode, ProgramSettings, ThreadAccess, AccessEntry, AllocLikes, FollowRegistry,
  FollowerShard,
}
use txtcel_program.State.Codecs.{
  alloc_node_codec, thread_node_codec, program_settings_codec, thread_access_codec,
  access_entry_codec, alloc_likes_codec, follow_registry_codec, follower_shard_codec,
}
use txtcel_program.State.Pda.{derive_settings_pda, derive_alloc_pda, derive_access_pda}
use txtcel_program.State.Loaders.{
  load_thread_access, load_bound_access_entry, load_alloc_likes, load_follow_registry,
  load_bound_follower_shard, load_thread, load_author_thread, load_alloc, load_admin_access,
  load_settings, load_admin_settings,
}

module _ (R : Runtime) (program_id : Pubkey) (account : AccountInfo) (b : Bank) where
  pub load_thread_iff :
      (t : ThreadNode)
      → (load_thread R program_id account b ≡ ok t) ↔ (
          ((b account.key).owner ≡ program_id)
          × (try_from_slice (thread_node_codec R.borsh) (b account.key).bytes ≡ some t)
          × (t.tag ≡ tag_thread))
  unfolding load_thread
  load_thread_iff t = (ground arith, ground arith)

  pub load_settings_iff :
      (s : ProgramSettings)
      → (load_settings R program_id account b ≡ ok s) ↔ (
          (account.key ≡ (derive_settings_pda R program_id).0)
          × ((b account.key).owner ≡ program_id)
          × (try_from_slice (program_settings_codec R.borsh) (b account.key).bytes ≡ some s)
          × (s.tag ≡ tag_settings))
  unfolding load_settings
  load_settings_iff s = (ground arith, ground arith)

  pub load_alloc_iff :
      (a : AllocNode)
      → (load_alloc R program_id account b ≡ ok a) ↔ (
          ((b account.key).owner ≡ program_id)
          × (try_from_slice (alloc_node_codec R.borsh) (b account.key).bytes ≡ some a)
          × (a.tag ≡ tag_alloc)
          × (account.key ≡ (derive_alloc_pda R program_id a.thread a.alloc_seq).0))
  unfolding load_alloc
  load_alloc_iff a = (ground arith, ground arith)

  pub load_thread_access_iff :
      (a : ThreadAccess)
      → (load_thread_access R account b ≡ ok a) ↔ (
          (deserialize (thread_access_codec R.borsh) (b account.key).bytes ≡ some a)
          × (a.tag ≡ tag_access))
  unfolding load_thread_access
  load_thread_access_iff a = (ground arith, ground arith)

  pub load_alloc_likes_iff :
      (x : AllocLikes)
      → (load_alloc_likes R account b ≡ ok x) ↔ (
          (try_from_slice (alloc_likes_codec R.borsh) (b account.key).bytes ≡ some x)
          × (x.tag ≡ tag_likes))
  unfolding load_alloc_likes
  load_alloc_likes_iff x = (ground arith, ground arith)

  pub load_follow_registry_iff :
      (x : FollowRegistry)
      → (load_follow_registry R account b ≡ ok x) ↔ (
          (try_from_slice (follow_registry_codec R.borsh) (b account.key).bytes ≡ some x)
          × (x.tag ≡ tag_follow_registry))
  unfolding load_follow_registry
  load_follow_registry_iff x = (ground arith, ground arith)

  pub load_bound_access_entry_iff :
      (thread wallet : Pubkey) (x : AccessEntry)
      → (load_bound_access_entry R program_id account thread wallet b ≡ ok x) ↔ (
          ((b account.key).owner ≡ program_id)
          × (deserialize (access_entry_codec R.borsh) (b account.key).bytes ≡ some x)
          × (x.tag ≡ tag_access_entry)
          × (x.thread ≡ thread)
          × (x.wallet ≡ wallet))
  unfolding load_bound_access_entry
  load_bound_access_entry_iff thread wallet x = (ground arith, ground arith)

  pub load_bound_follower_shard_iff :
      (thread : Pubkey) (shard_idx : ℕ) (x : FollowerShard)
      → (load_bound_follower_shard R program_id account thread shard_idx b ≡ ok x) ↔ (
          ((b account.key).owner ≡ program_id)
          × (try_from_slice (follower_shard_codec R.borsh) (b account.key).bytes ≡ some x)
          × (x.tag ≡ tag_follower_shard)
          × (x.thread ≡ thread)
          × (x.shard ≡ shard_idx))
  unfolding load_bound_follower_shard
  load_bound_follower_shard_iff thread shard_idx x = (ground arith, ground arith)

  module _ (authority : AccountInfo) where
    pub load_admin_settings_iff :
        (s : ProgramSettings)
        → (load_admin_settings R program_id authority account b ≡ ok s) ↔ (
            (authority.is_signer ≡ true)
            × (account.is_writable ≡ true)
            × (load_settings R program_id account b ≡ ok s)
            × (s.admin ≡ authority.key))
    unfolding load_admin_settings
    load_admin_settings_iff s = (ground arith, ground arith)

    pub load_author_thread_iff :
        (t : ThreadNode)
        → (load_author_thread R program_id authority account b ≡ ok t) ↔ (
            (authority.is_signer ≡ true)
            × (account.is_writable ≡ true)
            × (load_thread R program_id account b ≡ ok t)
            × (authority.key ≡ t.author))
    unfolding load_author_thread
    load_author_thread_iff t = (ground arith, ground arith)

    pub load_admin_access_iff :
        (a : ThreadAccess)
        → (load_admin_access R program_id authority account b ≡ ok a) ↔ (
            (authority.is_signer ≡ true)
            × (account.is_writable ≡ true)
            × ((b account.key).owner ≡ program_id)
            × (load_thread_access R account b ≡ ok a)
            × (a.admin ≡ authority.key)
            × (account.key ≡ (derive_access_pda R program_id a.thread).0))
    unfolding load_admin_access
    load_admin_access_iff a = (ground arith, ground arith)
