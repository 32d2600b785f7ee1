-- ===== src/System/Writes.antt =====
-- The data after a value was written over its front is sound where the value is.
use mathlib.Core.Path.{subst}
use txtcel_program.Base.{ℕ, ◌≤◌, ◌≡◌, ◌≢◌, ap, sym, ◌∙◌, some, [], ◌∷◌, ◌++◌, arith}
use txtcel_program.Borsh.{Bytes, Borsh, Codec, try_from_slice, deserialize, whole, prefix}
use txtcel_program.Borsh.Laws.{IsBorsh, Fits, RoundTrips}
use txtcel_program.State.Constants.{
  tag_settings, tag_thread, tag_content, tag_access_entry, tag_follow_registry, tag_alloc,
  tag_access, tag_likes, tag_follower_shard, access_fee_exempt,
}
use txtcel_program.State.Accounts.{
  AllocNode, ThreadNode, ProgramSettings, ThreadAccess, AccessEntry, AllocLikes, FollowRegistry,
  FollowerShard,
}
use txtcel_program.State.Codecs.{
  alloc_node_codec, thread_node_codec, program_settings_codec, thread_access_codec,
  access_entry_codec, alloc_likes_codec, follow_registry_codec, follower_shard_codec,
}
use txtcel_program.State.Codecs.RoundTrip.{
  ProgramSettingsInRange, ThreadNodeInRange, AccessEntryInRange, FollowRegistryInRange,
  program_settings_codec-RoundTrips, thread_node_codec-RoundTrips, access_entry_codec-RoundTrips,
  follow_registry_codec-RoundTrips,
}
use txtcel_program.State.Codecs.Fronts.{
  program_settings_codec-IsFront, thread_node_codec-IsFront, access_entry_codec-IsFront,
  follow_registry_codec-IsFront,
}
use txtcel_program.Content.Node.{ContentNode, content_node_codec, content_header_codec}
use txtcel_program.Content.Node.Laws.{
  ContentNodeInRange, content_node_codec-RoundTrips, content_node_codec-IsFront,
}
use txtcel_program.System.Sound.{tagged-Sound, Sound, IsCapped, IsDense, IsPlaced, IsDistinct}

module _ {A : Type 0} (c : Codec A) (x y : A) (rest : Bytes) (round : RoundTrips c x) where
  whole-put : try_from_slice c (c.put x rest) ≡ some y → x ≡ y
  whole-put e = go rest (sym (ap whole (round rest)) ∙ e)
    where
      go : (r : Bytes) → whole (some (x, r)) ≡ some y → x ≡ y
      go [] q = cc
      go (d ∷ ds) q = cc

  prefix-put : deserialize c (c.put x rest) ≡ some y → x ≡ y
  prefix-put e = let q : some x ≡ some y = sym (ap prefix (round rest)) ∙ e in cc

module _ {b : Borsh} (l : IsBorsh b) where
  pub program_settings_codec-Sound :
      (x : ProgramSettings) (rest : Bytes)
      → ProgramSettingsInRange x
      → x.tag ≡ tag_settings
      → IsCapped x
      → Sound b ((program_settings_codec b).put x [] ++ rest)
  unfolding program_settings_codec
  program_settings_codec-Sound x rest range tagged good =
      let c = program_settings_codec b in
      let bytes = c.put x [] ++ rest in
      let front : bytes ≡ c.put x rest = sym (program_settings_codec-IsFront l x rest) in
      let start = front ∙ l.int_byte x.tag _ range.tag in
      tagged-Sound l bytes x.tag _ start
        (λ _ y e.
          subst IsCapped
            (whole-put c x y rest (program_settings_codec-RoundTrips l x range)
              (sym (ap (λ t. try_from_slice c t) front) ∙ e))
            good)
        (λ q. absurd (omega (arith, tagged, q))) (λ q. absurd (omega (arith, tagged, q)))
        (λ q. absurd (omega (arith, tagged, q))) (λ q. absurd (omega (arith, tagged, q)))

  pub thread_node_codec-Sound :
      (x : ThreadNode) (rest : Bytes)
      → ThreadNodeInRange x
      → x.tag ≡ tag_thread
      → IsDense x
      → Sound b ((thread_node_codec b).put x [] ++ rest)
  unfolding thread_node_codec
  thread_node_codec-Sound x rest range tagged good =
      let c = thread_node_codec b in
      let bytes = c.put x [] ++ rest in
      let front : bytes ≡ c.put x rest = sym (thread_node_codec-IsFront l x rest) in
      let start = front ∙ l.int_byte x.tag _ range.tag in
      tagged-Sound l bytes x.tag _ start (λ q. absurd (omega (arith, tagged, q)))
        (λ _ y e.
          subst IsDense
            (whole-put c x y rest (thread_node_codec-RoundTrips l x range)
              (sym (ap (λ t. try_from_slice c t) front) ∙ e))
            good)
        (λ q. absurd (omega (arith, tagged, q))) (λ q. absurd (omega (arith, tagged, q)))
        (λ q. absurd (omega (arith, tagged, q)))

  pub content_node_codec-Sound :
      (x : ContentNode) (rest : Bytes)
      → ContentNodeInRange x
      → x.header.tag ≡ tag_content
      → IsPlaced x
      → Sound b ((content_node_codec b).put x [] ++ rest)
  unfolding content_node_codec content_header_codec
  content_node_codec-Sound x rest range tagged good =
      let c = content_node_codec b in
      let bytes = c.put x [] ++ rest in
      let front : bytes ≡ c.put x rest = sym (content_node_codec-IsFront l x rest) in
      let start = front ∙ l.int_byte x.header.tag _ range.header.tag in
      tagged-Sound l bytes x.header.tag _ start (λ q. absurd (omega (arith, tagged, q)))
        (λ q. absurd (omega (arith, tagged, q)))
        (λ _ y e.
          subst IsPlaced
            (whole-put c x y rest (content_node_codec-RoundTrips l x range)
              (sym (ap (λ t. try_from_slice c t) front) ∙ e))
            good)
        (λ q. absurd (omega (arith, tagged, q))) (λ q. absurd (omega (arith, tagged, q)))

  pub access_entry_codec-Sound :
      (x : AccessEntry) (rest : Bytes)
      → AccessEntryInRange x
      → x.tag ≡ tag_access_entry
      → x.status ≤ access_fee_exempt
      → Sound b ((access_entry_codec b).put x [] ++ rest)
  unfolding access_entry_codec
  access_entry_codec-Sound x rest range tagged good =
      let c = access_entry_codec b in
      let bytes = c.put x [] ++ rest in
      let front : bytes ≡ c.put x rest = sym (access_entry_codec-IsFront l x rest) in
      let start = front ∙ l.int_byte x.tag _ range.tag in
      tagged-Sound l bytes x.tag _ start (λ q. absurd (omega (arith, tagged, q)))
        (λ q. absurd (omega (arith, tagged, q))) (λ q. absurd (omega (arith, tagged, q)))
        (λ _ y e.
          subst (λ (z : AccessEntry). z.status ≤ access_fee_exempt)
            (prefix-put c x y rest (access_entry_codec-RoundTrips l x range)
              (sym (ap (λ t. deserialize c t) front) ∙ e))
            good)
        (λ q. absurd (omega (arith, tagged, q)))

  pub follow_registry_codec-Sound :
      (x : FollowRegistry) (rest : Bytes)
      → FollowRegistryInRange x
      → x.tag ≡ tag_follow_registry
      → IsDistinct x
      → Sound b ((follow_registry_codec b).put x [] ++ rest)
  unfolding follow_registry_codec
  follow_registry_codec-Sound x rest range tagged good =
      let c = follow_registry_codec b in
      let bytes = c.put x [] ++ rest in
      let front : bytes ≡ c.put x rest = sym (follow_registry_codec-IsFront l x rest) in
      let start = front ∙ l.int_byte x.tag _ range.tag in
      tagged-Sound l bytes x.tag _ start (λ q. absurd (omega (arith, tagged, q)))
        (λ q. absurd (omega (arith, tagged, q))) (λ q. absurd (omega (arith, tagged, q)))
        (λ q. absurd (omega (arith, tagged, q)))
        (λ _ y e.
          subst IsDistinct
            (whole-put c x y rest (follow_registry_codec-RoundTrips l x range)
              (sym (ap (λ t. try_from_slice c t) front) ∙ e))
            good)

  -- The other structures.
  other_tag-Sound :
      (n : ℕ) (r rest : Bytes)
      → Fits 1 n
      → n ≢ tag_settings
      → n ≢ tag_thread
      → n ≢ tag_content
      → n ≢ tag_access_entry
      → n ≢ tag_follow_registry
      → Sound b ((b.int 1).put n r ++ rest)
  other_tag-Sound n r rest fits h0 h1 h2 h3 h4 =
      tagged-Sound l _ n (r ++ rest) (ap (λ t. t ++ rest) (l.int_byte n r fits))
        (λ q. absurd (h0 q)) (λ q. absurd (h1 q)) (λ q. absurd (h2 q)) (λ q. absurd (h3 q))
        (λ q. absurd (h4 q))

  pub alloc_node_codec-Sound :
      (x : AllocNode) (rest : Bytes)
      → x.tag ≡ tag_alloc
      → Sound b ((alloc_node_codec b).put x [] ++ rest)
  unfolding alloc_node_codec
  alloc_node_codec-Sound x rest tagged =
      other_tag-Sound x.tag _ rest (omega (arith, tagged)) (λ q. omega (arith, tagged, q))
        (λ q. omega (arith, tagged, q)) (λ q. omega (arith, tagged, q))
        (λ q. omega (arith, tagged, q)) (λ q. omega (arith, tagged, q))

  pub thread_access_codec-Sound :
      (x : ThreadAccess) (rest : Bytes)
      → x.tag ≡ tag_access
      → Sound b ((thread_access_codec b).put x [] ++ rest)
  unfolding thread_access_codec
  thread_access_codec-Sound x rest tagged =
      other_tag-Sound x.tag _ rest (omega (arith, tagged)) (λ q. omega (arith, tagged, q))
        (λ q. omega (arith, tagged, q)) (λ q. omega (arith, tagged, q))
        (λ q. omega (arith, tagged, q)) (λ q. omega (arith, tagged, q))

  pub alloc_likes_codec-Sound :
      (x : AllocLikes) (rest : Bytes)
      → x.tag ≡ tag_likes
      → Sound b ((alloc_likes_codec b).put x [] ++ rest)
  unfolding alloc_likes_codec
  alloc_likes_codec-Sound x rest tagged =
      other_tag-Sound x.tag _ rest (omega (arith, tagged)) (λ q. omega (arith, tagged, q))
        (λ q. omega (arith, tagged, q)) (λ q. omega (arith, tagged, q))
        (λ q. omega (arith, tagged, q)) (λ q. omega (arith, tagged, q))

  pub follower_shard_codec-Sound :
      (x : FollowerShard) (rest : Bytes)
      → x.tag ≡ tag_follower_shard
      → Sound b ((follower_shard_codec b).put x [] ++ rest)
  unfolding follower_shard_codec
  follower_shard_codec-Sound x rest tagged =
      other_tag-Sound x.tag _ rest (omega (arith, tagged)) (λ q. omega (arith, tagged, q))
        (λ q. omega (arith, tagged, q)) (λ q. omega (arith, tagged, q))
        (λ q. omega (arith, tagged, q)) (λ q. omega (arith, tagged, q))
