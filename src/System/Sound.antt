-- ===== src/System/Sound.antt =====
-- What every account of the program holds, whichever instructions have run: the limits that the
-- handlers of src/processor check, and the relations that they keep.
use txtcel_program.Base.{
  ℕ, zero, suc, ◌+◌, ◌≤◌, ◌<◌, ◌≡◌, ap, ◌∙◌, some, refl, [], ◌∷◌, length, replicate, arith,
}
use txtcel_program.Borsh.{Bytes, Borsh, try_from_slice, deserialize}
use txtcel_program.Borsh.Laws.{IsBorsh}
use txtcel_program.Runtime.{Pubkey, Bank, Runtime}
use txtcel_program.Runtime.Storage.{try_from_slice-some}
use txtcel_program.State.Constants.{
  tag_settings, tag_thread, tag_content, tag_access_entry, tag_follow_registry, max_fee_cut_bps,
  max_title_len, max_body_len, max_follows, content_slots, access_fee_exempt,
}
use txtcel_program.State.Accounts.{ProgramSettings, ThreadNode, AccessEntry, FollowRegistry}
use txtcel_program.State.Codecs.{
  program_settings_codec, thread_node_codec, access_entry_codec, follow_registry_codec,
}
use txtcel_program.State.Codecs.Tags.{
  HasTag, program_settings_codec-tag, thread_node_codec-tag, access_entry_codec-tag,
  follow_registry_codec-tag,
}
use txtcel_program.Content.Node.{ContentNode, content_node_codec, content_header_codec}
use txtcel_program.Content.Node.Laws.{content_node_codec-Canonical}
use txtcel_program.Processor.Follow.Channels.{occurrences}

-- Every cut is at most half.
pub record IsCapped (s : ProgramSettings) : Type 0 where
  pub base : s.base_fee_bps ≤ max_fee_cut_bps
  pub author : s.author_fee_cut_bps ≤ max_fee_cut_bps
  pub entry : s.entry_cut_bps ≤ max_fee_cut_bps
  pub like : s.like_cut_bps ≤ max_fee_cut_bps

-- The nodes are numbered from 0 without a gap, and the title is short.
pub record IsDense (t : ThreadNode) : Type 0 where
  pub count : t.alloc_count ≡ t.last_alloc_seq + 1
  pub title : length t.title ≤ max_title_len

-- The message stands in a slot of its node, and its body is short.
pub record IsPlaced (c : ContentNode) : Type 0 where
  pub slot : c.header.slot < content_slots
  pub body : length c.body ≤ max_body_len

-- No channel is followed twice, and there are not too many.
pub record IsDistinct (r : FollowRegistry) : Type 0 where
  pub once : (channel : Pubkey) → occurrences channel r.channels ≤ 1
  pub bounded : length r.channels ≤ max_follows

-- The data of an account of the program, by the structure that its tag announces.
pub record Sound (b : Borsh) (bytes : Bytes) : Type 0 where
  pub settings :
      (s : ProgramSettings)
      → try_from_slice (program_settings_codec b) bytes ≡ some s
      → s.tag ≡ tag_settings
      → IsCapped s
  pub thread :
      (t : ThreadNode)
      → try_from_slice (thread_node_codec b) bytes ≡ some t
      → t.tag ≡ tag_thread
      → IsDense t
  pub content :
      (c : ContentNode)
      → try_from_slice (content_node_codec b) bytes ≡ some c
      → c.header.tag ≡ tag_content
      → IsPlaced c
  pub entry :
      (e : AccessEntry)
      → deserialize (access_entry_codec b) bytes ≡ some e
      → e.tag ≡ tag_access_entry
      → e.status ≤ access_fee_exempt
  pub registry :
      (r : FollowRegistry)
      → try_from_slice (follow_registry_codec b) bytes ≡ some r
      → r.tag ≡ tag_follow_registry
      → IsDistinct r

-- Every account that the program owns is sound, but for those that are skipped.
abbrev pub SoundBut : Runtime → Pubkey → (Pubkey → Type 0) → Bank → Type 0
SoundBut R program_id skip b =
    (k : Pubkey) → ¬ skip k → (b k).owner ≡ program_id → Sound R.borsh (b k).bytes

abbrev pub Nowhere : Pubkey → Type 0
Nowhere k = ⊥

abbrev pub SoundBank : Runtime → Pubkey → Bank → Type 0
SoundBank R program_id b = SoundBut R program_id Nowhere b

module _ {b : Borsh} (l : IsBorsh b) (bytes : Bytes) where
  HasTag-cons : (n : ℕ) → HasTag b bytes n → (r : Bytes) × (bytes ≡ n ∷ r)
  HasTag-cons n (r, e) =
      let (same, fits) = l.int_canonical 1 bytes n r e in (r, same ∙ l.int_byte n r fits)

  content_node_codec-tag :
      (x : ContentNode)
      → try_from_slice (content_node_codec b) bytes ≡ some x
      → HasTag b bytes x.header.tag
  unfolding content_node_codec content_header_codec
  content_node_codec-tag x e =
      let (same, range) =
        try_from_slice-some (content_node_codec b) (content_node_codec-Canonical l) bytes x e in
      (_, ap (b.int 1).get same ∙ l.int_round 1 x.header.tag range.header.tag _)

  tag_at_front : (n tag : ℕ) (r : Bytes) → bytes ≡ n ∷ r → HasTag b bytes tag → n ≡ tag
  tag_at_front n tag r start h = let (r', same) = HasTag-cons tag h in cc

  -- Data with a tag in front is sound by what holds of the structure of that tag.
  pub tagged-Sound :
      (n : ℕ) (r : Bytes)
      → bytes ≡ n ∷ r
      → (n ≡ tag_settings
          → (s : ProgramSettings) → try_from_slice (program_settings_codec b) bytes ≡ some s
          → IsCapped s)
      → (n ≡ tag_thread
          → (t : ThreadNode) → try_from_slice (thread_node_codec b) bytes ≡ some t
          → IsDense t)
      → (n ≡ tag_content
          → (c : ContentNode) → try_from_slice (content_node_codec b) bytes ≡ some c
          → IsPlaced c)
      → (n ≡ tag_access_entry
          → (e : AccessEntry) → deserialize (access_entry_codec b) bytes ≡ some e
          → e.status ≤ access_fee_exempt)
      → (n ≡ tag_follow_registry
          → (x : FollowRegistry) → try_from_slice (follow_registry_codec b) bytes ≡ some x
          → IsDistinct x)
      → Sound b bytes
  tagged-Sound n r start settings thread content entry registry = record {
    settings = λ s e t.
        settings (tag_at_front n s.tag r start (program_settings_codec-tag l bytes s e) ∙ t) s e;
    thread =
        λ x e t. thread (tag_at_front n x.tag r start (thread_node_codec-tag l bytes x e) ∙ t) x e;
    content =
        λ x e t. content (tag_at_front n x.header.tag r start (content_node_codec-tag x e) ∙ t) x e;
    entry =
        λ x e t. entry (tag_at_front n x.tag r start (access_entry_codec-tag l bytes x e) ∙ t) x e;
    registry = λ x e t.
        registry (tag_at_front n x.tag r start (follow_registry_codec-tag l bytes x e) ∙ t) x e;
  }

module _ {b : Borsh} (l : IsBorsh b) where
  -- There is no tag in empty data.
  no_tag : (n : ℕ) → HasTag b [] n → ⊥
  no_tag n h = let (r, same) = HasTag-cons l [] n h in cc

  -- New data is zero, and announces nothing.
  pub zeros-Sound : (n : ℕ) → Sound b (replicate n 0)
  zeros-Sound zero = record {
    settings = λ s e _. absurd (no_tag s.tag (program_settings_codec-tag l [] s e));
    thread = λ x e _. absurd (no_tag x.tag (thread_node_codec-tag l [] x e));
    content = λ x e _. absurd (no_tag x.header.tag (content_node_codec-tag l [] x e));
    entry = λ x e _. absurd (no_tag x.tag (access_entry_codec-tag l [] x e));
    registry = λ x e _. absurd (no_tag x.tag (follow_registry_codec-tag l [] x e));
  }
  zeros-Sound (suc n) =
      tagged-Sound l _ 0 (replicate n 0) refl (λ q. absurd (omega (arith, q)))
        (λ q. absurd (omega (arith, q))) (λ q. absurd (omega (arith, q)))
        (λ q. absurd (omega (arith, q))) (λ q. absurd (omega (arith, q)))
