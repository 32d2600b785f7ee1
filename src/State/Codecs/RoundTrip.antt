-- ===== src/State/Codecs/RoundTrip.antt =====
-- A value whose fields are in the range of their types is read back from its encoding.
use txtcel_program.Base.{◌<◌, ◌≡◌, length, All, u32_mod}
use txtcel_program.Borsh.{Borsh}
use txtcel_program.Borsh.Laws.{Fits, IsBorsh, RoundTrips}
use txtcel_program.State.Constants.{content_slots}
use txtcel_program.State.Accounts.{
  AllocNode, ThreadNode, ProgramSettings, ThreadAccess, AccessEntry, AllocLikes, FollowRegistry,
  FollowerShard,
}
use txtcel_program.State.Codecs.{
  alloc_node_codec, thread_node_codec, program_settings_codec, thread_access_codec,
  access_entry_codec, alloc_likes_codec, follow_registry_codec, follower_shard_codec,
}

pub record AllocNodeInRange (x : AllocNode) : Type 0 where
  pub tag : Fits 1 x.tag
  pub thread : Fits 32 x.thread
  pub alloc_seq : Fits 4 x.alloc_seq

pub record ThreadNodeInRange (x : ThreadNode) : Type 0 where
  pub tag : Fits 1 x.tag
  pub alloc_count : Fits 4 x.alloc_count
  pub last_alloc_seq : Fits 4 x.last_alloc_seq
  pub author : Fits 32 x.author
  pub message_fee : Fits 8 x.message_fee
  pub like_fee : Fits 8 x.like_fee
  pub title_length : length x.title < u32_mod
  pub title : All (Fits 1) x.title

pub record ProgramSettingsInRange (x : ProgramSettings) : Type 0 where
  pub tag : Fits 1 x.tag
  pub admin : Fits 32 x.admin
  pub treasury : Fits 32 x.treasury
  pub base_fee_bps : Fits 4 x.base_fee_bps
  pub author_fee_cut_bps : Fits 4 x.author_fee_cut_bps
  pub entry_cut_bps : Fits 4 x.entry_cut_bps
  pub like_cut_bps : Fits 4 x.like_cut_bps

pub record ThreadAccessInRange (x : ThreadAccess) : Type 0 where
  pub tag : Fits 1 x.tag
  pub thread : Fits 32 x.thread
  pub admin : Fits 32 x.admin
  pub entry_fee : Fits 8 x.entry_fee
  pub whitelist_count : Fits 4 x.whitelist_count

pub record AccessEntryInRange (x : AccessEntry) : Type 0 where
  pub tag : Fits 1 x.tag
  pub thread : Fits 32 x.thread
  pub wallet : Fits 32 x.wallet
  pub status : Fits 1 x.status

pub record AllocLikesInRange (x : AllocLikes) : Type 0 where
  pub tag : Fits 1 x.tag
  pub alloc_seq : Fits 4 x.alloc_seq
  pub counts_length : length x.counts ≡ content_slots
  pub counts : All (Fits 4) x.counts

pub record FollowRegistryInRange (x : FollowRegistry) : Type 0 where
  pub tag : Fits 1 x.tag
  pub owner : Fits 32 x.owner
  pub channels_length : length x.channels < u32_mod
  pub channels : All (Fits 32) x.channels

pub record FollowerShardInRange (x : FollowerShard) : Type 0 where
  pub tag : Fits 1 x.tag
  pub thread : Fits 32 x.thread
  pub shard : Fits 1 x.shard
  pub count : Fits 8 x.count

module _ {b : Borsh} (l : IsBorsh b) where
  pub alloc_node_codec-RoundTrips :
      (x : AllocNode) → AllocNodeInRange x → RoundTrips (alloc_node_codec b) x
  unfolding alloc_node_codec
  alloc_node_codec-RoundTrips x h rest = rw (
    l.int_round 1 x.tag h.tag _,
    l.int_round 32 x.thread h.thread _,
    l.int_round 4 x.alloc_seq h.alloc_seq _,
  )

  pub thread_node_codec-RoundTrips :
      (x : ThreadNode) → ThreadNodeInRange x → RoundTrips (thread_node_codec b) x
  unfolding thread_node_codec
  thread_node_codec-RoundTrips x h rest = rw (
    l.int_round 1 x.tag h.tag _,
    l.int_round 4 x.alloc_count h.alloc_count _,
    l.int_round 4 x.last_alloc_seq h.last_alloc_seq _,
    l.int_round 32 x.author h.author _,
    l.int_round 8 x.message_fee h.message_fee _,
    l.int_round 8 x.like_fee h.like_fee _,
    l.vec_round 1 x.title h.title_length h.title _,
  )

  pub program_settings_codec-RoundTrips :
      (x : ProgramSettings) → ProgramSettingsInRange x → RoundTrips (program_settings_codec b) x
  unfolding program_settings_codec
  program_settings_codec-RoundTrips x h rest = rw (
    l.int_round 1 x.tag h.tag _,
    l.int_round 32 x.admin h.admin _,
    l.int_round 32 x.treasury h.treasury _,
    l.int_round 4 x.base_fee_bps h.base_fee_bps _,
    l.int_round 4 x.author_fee_cut_bps h.author_fee_cut_bps _,
    l.int_round 4 x.entry_cut_bps h.entry_cut_bps _,
    l.int_round 4 x.like_cut_bps h.like_cut_bps _,
  )

  pub thread_access_codec-RoundTrips :
      (x : ThreadAccess) → ThreadAccessInRange x → RoundTrips (thread_access_codec b) x
  unfolding thread_access_codec
  thread_access_codec-RoundTrips x h rest = rw (
    l.int_round 1 x.tag h.tag _,
    l.int_round 32 x.thread h.thread _,
    l.bool_round x.enabled _,
    l.int_round 32 x.admin h.admin _,
    l.int_round 8 x.entry_fee h.entry_fee _,
    l.int_round 4 x.whitelist_count h.whitelist_count _,
  )

  pub access_entry_codec-RoundTrips :
      (x : AccessEntry) → AccessEntryInRange x → RoundTrips (access_entry_codec b) x
  unfolding access_entry_codec
  access_entry_codec-RoundTrips x h rest = rw (
    l.int_round 1 x.tag h.tag _,
    l.int_round 32 x.thread h.thread _,
    l.int_round 32 x.wallet h.wallet _,
    l.int_round 1 x.status h.status _,
  )

  pub alloc_likes_codec-RoundTrips :
      (x : AllocLikes) → AllocLikesInRange x → RoundTrips (alloc_likes_codec b) x
  unfolding alloc_likes_codec
  alloc_likes_codec-RoundTrips x h rest = rw (
    l.int_round 1 x.tag h.tag _,
    l.int_round 4 x.alloc_seq h.alloc_seq _,
    l.array_round content_slots 4 x.counts h.counts_length h.counts _,
  )

  pub follow_registry_codec-RoundTrips :
      (x : FollowRegistry) → FollowRegistryInRange x → RoundTrips (follow_registry_codec b) x
  unfolding follow_registry_codec
  follow_registry_codec-RoundTrips x h rest = rw (
    l.int_round 1 x.tag h.tag _,
    l.int_round 32 x.owner h.owner _,
    l.vec_round 32 x.channels h.channels_length h.channels _,
  )

  pub follower_shard_codec-RoundTrips :
      (x : FollowerShard) → FollowerShardInRange x → RoundTrips (follower_shard_codec b) x
  unfolding follower_shard_codec
  follower_shard_codec-RoundTrips x h rest = rw (
    l.int_round 1 x.tag h.tag _,
    l.int_round 32 x.thread h.thread _,
    l.int_round 1 x.shard h.shard _,
    l.int_round 8 x.count h.count _,
  )
