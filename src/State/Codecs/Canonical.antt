-- ===== src/State/Codecs/Canonical.antt =====
-- What is decoded from an account is in the range of its fields' types, and its bytes are the
-- encoding of it, so that an account is as long as the encoding.
use txtcel_program.Base.{arith}
use txtcel_program.Borsh.{Borsh}
use txtcel_program.Borsh.Laws.{IsBorsh, Canonical, bind-some}
use txtcel_program.State.Constants.{content_slots}
use txtcel_program.State.Codecs.{
  alloc_node_codec, thread_node_codec, program_settings_codec, thread_access_codec,
  access_entry_codec, alloc_likes_codec, follow_registry_codec, follower_shard_codec,
}
use txtcel_program.State.Codecs.RoundTrip.{
  AllocNodeInRange, ThreadNodeInRange, ProgramSettingsInRange, ThreadAccessInRange,
  AccessEntryInRange, AllocLikesInRange, FollowRegistryInRange, FollowerShardInRange,
}

module _ {b : Borsh} (l : IsBorsh b) where
  pub alloc_node_codec-Canonical : Canonical (alloc_node_codec b) AllocNodeInRange
  unfolding alloc_node_codec
  alloc_node_codec-Canonical bytes x rest e =
      let (p0, e0, k0) = bind-some ((b.int 1).get bytes) _ e in
      let (p1, e1, k1) = bind-some ((b.int 32).get p0.1) _ k0 in
      let (p2, e2, k2) = bind-some ((b.int 4).get p1.1) _ k1 in
      ground (
        arith,
        l.int_canonical 1 bytes p0.0 p0.1 e0,
        l.int_canonical 32 p0.1 p1.0 p1.1 e1,
        l.int_canonical 4 p1.1 p2.0 p2.1 e2,
      )

  pub thread_node_codec-Canonical : Canonical (thread_node_codec b) ThreadNodeInRange
  unfolding thread_node_codec
  thread_node_codec-Canonical bytes x rest e =
      let (p0, e0, k0) = bind-some ((b.int 1).get bytes) _ e in
      let (p1, e1, k1) = bind-some ((b.int 4).get p0.1) _ k0 in
      let (p2, e2, k2) = bind-some ((b.int 4).get p1.1) _ k1 in
      let (p3, e3, k3) = bind-some ((b.int 32).get p2.1) _ k2 in
      let (p4, e4, k4) = bind-some ((b.int 8).get p3.1) _ k3 in
      let (p5, e5, k5) = bind-some ((b.int 8).get p4.1) _ k4 in
      let (p6, e6, k6) = bind-some ((b.vec 1).get p5.1) _ k5 in
      ground (
        arith,
        l.int_canonical 1 bytes p0.0 p0.1 e0,
        l.int_canonical 4 p0.1 p1.0 p1.1 e1,
        l.int_canonical 4 p1.1 p2.0 p2.1 e2,
        l.int_canonical 32 p2.1 p3.0 p3.1 e3,
        l.int_canonical 8 p3.1 p4.0 p4.1 e4,
        l.int_canonical 8 p4.1 p5.0 p5.1 e5,
        l.vec_canonical 1 p5.1 p6.0 p6.1 e6,
      )

  pub program_settings_codec-Canonical : Canonical (program_settings_codec b) ProgramSettingsInRange
  unfolding program_settings_codec
  program_settings_codec-Canonical bytes x rest e =
      let (p0, e0, k0) = bind-some ((b.int 1).get bytes) _ e in
      let (p1, e1, k1) = bind-some ((b.int 32).get p0.1) _ k0 in
      let (p2, e2, k2) = bind-some ((b.int 32).get p1.1) _ k1 in
      let (p3, e3, k3) = bind-some ((b.int 4).get p2.1) _ k2 in
      let (p4, e4, k4) = bind-some ((b.int 4).get p3.1) _ k3 in
      let (p5, e5, k5) = bind-some ((b.int 4).get p4.1) _ k4 in
      let (p6, e6, k6) = bind-some ((b.int 4).get p5.1) _ k5 in
      ground (
        arith,
        l.int_canonical 1 bytes p0.0 p0.1 e0,
        l.int_canonical 32 p0.1 p1.0 p1.1 e1,
        l.int_canonical 32 p1.1 p2.0 p2.1 e2,
        l.int_canonical 4 p2.1 p3.0 p3.1 e3,
        l.int_canonical 4 p3.1 p4.0 p4.1 e4,
        l.int_canonical 4 p4.1 p5.0 p5.1 e5,
        l.int_canonical 4 p5.1 p6.0 p6.1 e6,
      )

  pub thread_access_codec-Canonical : Canonical (thread_access_codec b) ThreadAccessInRange
  unfolding thread_access_codec
  thread_access_codec-Canonical bytes x rest e =
      let (p0, e0, k0) = bind-some ((b.int 1).get bytes) _ e in
      let (p1, e1, k1) = bind-some ((b.int 32).get p0.1) _ k0 in
      let (p2, e2, k2) = bind-some (b.bool.get p1.1) _ k1 in
      let (p3, e3, k3) = bind-some ((b.int 32).get p2.1) _ k2 in
      let (p4, e4, k4) = bind-some ((b.int 8).get p3.1) _ k3 in
      let (p5, e5, k5) = bind-some ((b.int 4).get p4.1) _ k4 in
      ground (
        arith,
        l.int_canonical 1 bytes p0.0 p0.1 e0,
        l.int_canonical 32 p0.1 p1.0 p1.1 e1,
        l.bool_canonical p1.1 p2.0 p2.1 e2,
        l.int_canonical 32 p2.1 p3.0 p3.1 e3,
        l.int_canonical 8 p3.1 p4.0 p4.1 e4,
        l.int_canonical 4 p4.1 p5.0 p5.1 e5,
      )

  pub access_entry_codec-Canonical : Canonical (access_entry_codec b) AccessEntryInRange
  unfolding access_entry_codec
  access_entry_codec-Canonical bytes x rest e =
      let (p0, e0, k0) = bind-some ((b.int 1).get bytes) _ e in
      let (p1, e1, k1) = bind-some ((b.int 32).get p0.1) _ k0 in
      let (p2, e2, k2) = bind-some ((b.int 32).get p1.1) _ k1 in
      let (p3, e3, k3) = bind-some ((b.int 1).get p2.1) _ k2 in
      ground (
        arith,
        l.int_canonical 1 bytes p0.0 p0.1 e0,
        l.int_canonical 32 p0.1 p1.0 p1.1 e1,
        l.int_canonical 32 p1.1 p2.0 p2.1 e2,
        l.int_canonical 1 p2.1 p3.0 p3.1 e3,
      )

  pub alloc_likes_codec-Canonical : Canonical (alloc_likes_codec b) AllocLikesInRange
  unfolding alloc_likes_codec
  alloc_likes_codec-Canonical bytes x rest e =
      let (p0, e0, k0) = bind-some ((b.int 1).get bytes) _ e in
      let (p1, e1, k1) = bind-some ((b.int 4).get p0.1) _ k0 in
      let (p2, e2, k2) = bind-some ((b.array content_slots 4).get p1.1) _ k1 in
      ground (
        arith,
        l.int_canonical 1 bytes p0.0 p0.1 e0,
        l.int_canonical 4 p0.1 p1.0 p1.1 e1,
        l.array_canonical content_slots 4 p1.1 p2.0 p2.1 e2,
      )

  pub follow_registry_codec-Canonical : Canonical (follow_registry_codec b) FollowRegistryInRange
  unfolding follow_registry_codec
  follow_registry_codec-Canonical bytes x rest e =
      let (p0, e0, k0) = bind-some ((b.int 1).get bytes) _ e in
      let (p1, e1, k1) = bind-some ((b.int 32).get p0.1) _ k0 in
      let (p2, e2, k2) = bind-some ((b.vec 32).get p1.1) _ k1 in
      ground (
        arith,
        l.int_canonical 1 bytes p0.0 p0.1 e0,
        l.int_canonical 32 p0.1 p1.0 p1.1 e1,
        l.vec_canonical 32 p1.1 p2.0 p2.1 e2,
      )

  pub follower_shard_codec-Canonical : Canonical (follower_shard_codec b) FollowerShardInRange
  unfolding follower_shard_codec
  follower_shard_codec-Canonical bytes x rest e =
      let (p0, e0, k0) = bind-some ((b.int 1).get bytes) _ e in
      let (p1, e1, k1) = bind-some ((b.int 32).get p0.1) _ k0 in
      let (p2, e2, k2) = bind-some ((b.int 1).get p1.1) _ k1 in
      let (p3, e3, k3) = bind-some ((b.int 8).get p2.1) _ k2 in
      ground (
        arith,
        l.int_canonical 1 bytes p0.0 p0.1 e0,
        l.int_canonical 32 p0.1 p1.0 p1.1 e1,
        l.int_canonical 1 p1.1 p2.0 p2.1 e2,
        l.int_canonical 8 p2.1 p3.0 p3.1 e3,
      )
