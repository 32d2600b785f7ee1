-- ===== src/State/Codecs/Fronts.antt =====
-- The encodings of the structures stand in front of what follows.
use txtcel_program.Borsh.{Borsh}
use txtcel_program.Borsh.Laws.{IsBorsh, IsFront, IsFront-then}
use txtcel_program.State.Accounts.{
  ThreadNode, ProgramSettings, ThreadAccess, AccessEntry, FollowRegistry,
}
use txtcel_program.State.Codecs.{
  thread_node_codec, program_settings_codec, thread_access_codec, access_entry_codec,
  follow_registry_codec,
}

module _ {b : Borsh} (l : IsBorsh b) where
  pub thread_access_codec-IsFront : (x : ThreadAccess) → IsFront ((thread_access_codec b).put x)
  unfolding thread_access_codec
  thread_access_codec-IsFront x = IsFront-then (l.int_front 1 x.tag) (
      IsFront-then (l.int_front 32 x.thread) (
        IsFront-then (l.bool_front x.enabled) (
          IsFront-then (l.int_front 32 x.admin)
            (IsFront-then (l.int_front 8 x.entry_fee) (l.int_front 4 x.whitelist_count)))))

  pub access_entry_codec-IsFront : (x : AccessEntry) → IsFront ((access_entry_codec b).put x)
  unfolding access_entry_codec
  access_entry_codec-IsFront x = IsFront-then (l.int_front 1 x.tag) (
      IsFront-then (l.int_front 32 x.thread)
        (IsFront-then (l.int_front 32 x.wallet) (l.int_front 1 x.status)))

  pub program_settings_codec-IsFront :
      (x : ProgramSettings) → IsFront ((program_settings_codec b).put x)
  unfolding program_settings_codec
  program_settings_codec-IsFront x = IsFront-then (l.int_front 1 x.tag) (
      IsFront-then (l.int_front 32 x.admin) (
        IsFront-then (l.int_front 32 x.treasury) (
          IsFront-then (l.int_front 4 x.base_fee_bps) (
            IsFront-then (l.int_front 4 x.author_fee_cut_bps)
              (IsFront-then (l.int_front 4 x.entry_cut_bps) (l.int_front 4 x.like_cut_bps))))))

  pub thread_node_codec-IsFront : (x : ThreadNode) → IsFront ((thread_node_codec b).put x)
  unfolding thread_node_codec
  thread_node_codec-IsFront x = IsFront-then (l.int_front 1 x.tag) (
      IsFront-then (l.int_front 4 x.alloc_count) (
        IsFront-then (l.int_front 4 x.last_alloc_seq) (
          IsFront-then (l.int_front 32 x.author) (
            IsFront-then (l.int_front 8 x.message_fee)
              (IsFront-then (l.int_front 8 x.like_fee) (l.vec_front 1 x.title))))))

  pub follow_registry_codec-IsFront :
      (x : FollowRegistry) → IsFront ((follow_registry_codec b).put x)
  unfolding follow_registry_codec
  follow_registry_codec-IsFront x =
      IsFront-then (l.int_front 1 x.tag)
        (IsFront-then (l.int_front 32 x.owner) (l.vec_front 32 x.channels))
