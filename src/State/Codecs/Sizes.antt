-- ===== src/State/Codecs/Sizes.antt =====
-- The `size` helpers of src/state/accounts.rs are exactly the lengths of the encodings.
use txtcel_program.Base.{◌≡◌, length, arith}
use txtcel_program.Borsh.{Borsh}
use txtcel_program.Borsh.Laws.{IsBorsh, HasSize}
use txtcel_program.State.Constants.{content_slots}
use txtcel_program.State.Accounts.{
  AllocNode, ThreadNode, ProgramSettings, ThreadAccess, AccessEntry, AllocLikes, FollowRegistry,
  FollowerShard, alloc_node_size, thread_node_size, program_settings_size, thread_access_size,
  access_entry_size, alloc_likes_size, follow_registry_size, follower_shard_size,
}
use txtcel_program.State.Codecs.{
  alloc_node_codec, thread_node_codec, program_settings_codec, thread_access_codec,
  access_entry_codec, alloc_likes_codec, follow_registry_codec, follower_shard_codec,
}

module _ {b : Borsh} (l : IsBorsh b) where
  pub alloc_node_codec-HasSize : (x : AllocNode) → HasSize (alloc_node_codec b) x alloc_node_size
  unfolding alloc_node_codec alloc_node_size
  alloc_node_codec-HasSize x rest =
      rw (l.int_size 1 x.tag _, l.int_size 32 x.thread _, l.int_size 4 x.alloc_seq _) (omega arith)

  pub thread_node_codec-HasSize :
      (x : ThreadNode) → HasSize (thread_node_codec b) x (thread_node_size (length x.title))
  unfolding thread_node_codec thread_node_size
  thread_node_codec-HasSize x rest =
      rw
        (
          l.int_size 1 x.tag _,
          l.int_size 4 x.alloc_count _,
          l.int_size 4 x.last_alloc_seq _,
          l.int_size 32 x.author _,
          l.int_size 8 x.message_fee _,
          l.int_size 8 x.like_fee _,
          l.vec_size 1 x.title _,
        )
        (omega arith)

  pub program_settings_codec-HasSize :
      (x : ProgramSettings) → HasSize (program_settings_codec b) x program_settings_size
  unfolding program_settings_codec program_settings_size
  program_settings_codec-HasSize x rest =
      rw
        (
          l.int_size 1 x.tag _,
          l.int_size 32 x.admin _,
          l.int_size 32 x.treasury _,
          l.int_size 4 x.base_fee_bps _,
          l.int_size 4 x.author_fee_cut_bps _,
          l.int_size 4 x.entry_cut_bps _,
          l.int_size 4 x.like_cut_bps _,
        )
        (omega arith)

  pub thread_access_codec-HasSize :
      (x : ThreadAccess) → HasSize (thread_access_codec b) x thread_access_size
  unfolding thread_access_codec thread_access_size
  thread_access_codec-HasSize x rest =
      rw
        (
          l.int_size 1 x.tag _,
          l.int_size 32 x.thread _,
          l.bool_size x.enabled _,
          l.int_size 32 x.admin _,
          l.int_size 8 x.entry_fee _,
          l.int_size 4 x.whitelist_count _,
        )
        (omega arith)

  pub access_entry_codec-HasSize :
      (x : AccessEntry) → HasSize (access_entry_codec b) x access_entry_size
  unfolding access_entry_codec access_entry_size
  access_entry_codec-HasSize x rest =
      rw
        (
          l.int_size 1 x.tag _,
          l.int_size 32 x.thread _,
          l.int_size 32 x.wallet _,
          l.int_size 1 x.status _,
        )
        (omega arith)

  pub alloc_likes_codec-HasSize :
      (x : AllocLikes)
      → length x.counts ≡ content_slots
      → HasSize (alloc_likes_codec b) x alloc_likes_size
  unfolding alloc_likes_codec alloc_likes_size
  alloc_likes_codec-HasSize x h rest =
      rw
        (
          l.int_size 1 x.tag _,
          l.int_size 4 x.alloc_seq _,
          l.array_size content_slots 4 x.counts h _,
        )
        (omega arith)

  pub follow_registry_codec-HasSize :
      (x : FollowRegistry)
      → HasSize (follow_registry_codec b) x (follow_registry_size (length x.channels))
  unfolding follow_registry_codec follow_registry_size
  follow_registry_codec-HasSize x rest =
      rw (l.int_size 1 x.tag _, l.int_size 32 x.owner _, l.vec_size 32 x.channels _) (omega arith)

  pub follower_shard_codec-HasSize :
      (x : FollowerShard) → HasSize (follower_shard_codec b) x follower_shard_size
  unfolding follower_shard_codec follower_shard_size
  follower_shard_codec-HasSize x rest =
      rw
        (
          l.int_size 1 x.tag _,
          l.int_size 32 x.thread _,
          l.int_size 1 x.shard _,
          l.int_size 8 x.count _,
        )
        (omega arith)
