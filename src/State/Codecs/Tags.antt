-- ===== src/State/Codecs/Tags.antt =====
-- The tag is the first byte of every account structure, so that an account is not read as two.
use txtcel_program.Base.{ℕ, ◌≡◌, some, ap, ◌∙◌}
use txtcel_program.Borsh.{Bytes, Borsh, try_from_slice, deserialize}
use txtcel_program.Borsh.Laws.{IsBorsh}
use txtcel_program.Runtime.Storage.{try_from_slice-some, deserialize-some}
use txtcel_program.State.Accounts.{
  AllocNode, ThreadNode, ProgramSettings, ThreadAccess, AccessEntry, AllocLikes, FollowRegistry,
  FollowerShard,
}
use txtcel_program.State.Codecs.{
  alloc_node_codec, thread_node_codec, program_settings_codec, thread_access_codec,
  access_entry_codec, alloc_likes_codec, follow_registry_codec, follower_shard_codec,
}
use txtcel_program.State.Codecs.Canonical.{
  alloc_node_codec-Canonical, thread_node_codec-Canonical, program_settings_codec-Canonical,
  thread_access_codec-Canonical, access_entry_codec-Canonical, alloc_likes_codec-Canonical,
  follow_registry_codec-Canonical, follower_shard_codec-Canonical,
}

-- The first byte of the data.
abbrev pub HasTag : Borsh → Bytes → ℕ → Type 0
HasTag b bytes tag = (r : Bytes) × ((b.int 1).get bytes ≡ some (tag, r))

pub HasTag-unique :
    (b : Borsh) (bytes : Bytes) (m n : ℕ) → HasTag b bytes m → HasTag b bytes n → m ≡ n
HasTag-unique b bytes m n (r, p) (s, q) = cc

module _ {b : Borsh} (l : IsBorsh b) (bytes : Bytes) where
  pub alloc_node_codec-tag :
      (x : AllocNode) → try_from_slice (alloc_node_codec b) bytes ≡ some x → HasTag b bytes x.tag
  unfolding alloc_node_codec
  alloc_node_codec-tag x e =
      let (same, range) =
        try_from_slice-some (alloc_node_codec b) (alloc_node_codec-Canonical l) bytes x e in
      (_, ap (b.int 1).get same ∙ l.int_round 1 x.tag range.tag _)

  pub thread_node_codec-tag :
      (x : ThreadNode) → try_from_slice (thread_node_codec b) bytes ≡ some x → HasTag b bytes x.tag
  unfolding thread_node_codec
  thread_node_codec-tag x e =
      let (same, range) =
        try_from_slice-some (thread_node_codec b) (thread_node_codec-Canonical l) bytes x e in
      (_, ap (b.int 1).get same ∙ l.int_round 1 x.tag range.tag _)

  pub program_settings_codec-tag :
      (x : ProgramSettings)
      → try_from_slice (program_settings_codec b) bytes ≡ some x
      → HasTag b bytes x.tag
  unfolding program_settings_codec
  program_settings_codec-tag x e =
      let (same, range) =
        try_from_slice-some (program_settings_codec b) (program_settings_codec-Canonical l) bytes x
          e in
      (_, ap (b.int 1).get same ∙ l.int_round 1 x.tag range.tag _)

  pub thread_access_codec-tag :
      (x : ThreadAccess) → deserialize (thread_access_codec b) bytes ≡ some x → HasTag b bytes x.tag
  unfolding thread_access_codec
  thread_access_codec-tag x e =
      let (_, same, range) =
        deserialize-some (thread_access_codec b) (thread_access_codec-Canonical l) bytes x e in
      (_, ap (b.int 1).get same ∙ l.int_round 1 x.tag range.tag _)

  pub access_entry_codec-tag :
      (x : AccessEntry) → deserialize (access_entry_codec b) bytes ≡ some x → HasTag b bytes x.tag
  unfolding access_entry_codec
  access_entry_codec-tag x e =
      let (_, same, range) =
        deserialize-some (access_entry_codec b) (access_entry_codec-Canonical l) bytes x e in
      (_, ap (b.int 1).get same ∙ l.int_round 1 x.tag range.tag _)

  pub alloc_likes_codec-tag :
      (x : AllocLikes) → try_from_slice (alloc_likes_codec b) bytes ≡ some x → HasTag b bytes x.tag
  unfolding alloc_likes_codec
  alloc_likes_codec-tag x e =
      let (same, range) =
        try_from_slice-some (alloc_likes_codec b) (alloc_likes_codec-Canonical l) bytes x e in
      (_, ap (b.int 1).get same ∙ l.int_round 1 x.tag range.tag _)

  pub follow_registry_codec-tag :
      (x : FollowRegistry)
      → try_from_slice (follow_registry_codec b) bytes ≡ some x
      → HasTag b bytes x.tag
  unfolding follow_registry_codec
  follow_registry_codec-tag x e =
      let (same, range) =
        try_from_slice-some (follow_registry_codec b) (follow_registry_codec-Canonical l) bytes x
          e in
      (_, ap (b.int 1).get same ∙ l.int_round 1 x.tag range.tag _)

  pub follower_shard_codec-tag :
      (x : FollowerShard)
      → try_from_slice (follower_shard_codec b) bytes ≡ some x
      → HasTag b bytes x.tag
  unfolding follower_shard_codec
  follower_shard_codec-tag x e =
      let (same, range) =
        try_from_slice-some (follower_shard_codec b) (follower_shard_codec-Canonical l) bytes x e in
      (_, ap (b.int 1).get same ∙ l.int_round 1 x.tag range.tag _)
