-- ===== src/Tests/Reached.antt =====
-- What the program has written since its deployment, as an instruction reads it.
use txtcel_program.Base.{◌≤◌, ◌<◌, refl, [], ◌∷◌, to_le_bytes, from_le_bytes, length, arith}
use txtcel_program.Base.Int.{pos}
use txtcel_program.Runtime.Tx.{◌>>=◌, serialize}
use txtcel_program.State.Accounts.{
  ThreadNode, FollowRegistry, AccessEntry, program_settings_size, alloc_node_size, thread_node_size,
  thread_access_size, access_entry_size, follow_registry_size, follower_shard_size,
}
use txtcel_program.State.Constants.{
  tag_thread, tag_content, tag_follow_registry, tag_access_entry, access_allowed, access_fee_exempt,
  max_fee_cut_bps, max_body_len, max_follows, content_slots,
}
use txtcel_program.State.Pda.{
  derive_settings_pda, derive_treasury_shard_pda, derive_author_fee_pda, derive_alloc_pda,
  derive_content_pda, derive_access_pda, derive_access_entry_pda, derive_follow_registry_pda,
  derive_follower_shard_pda, follower_shard_index,
}
use txtcel_program.State.Codecs.{
  program_settings_codec, thread_node_codec, alloc_node_codec, thread_access_codec,
  access_entry_codec, follow_registry_codec, follower_shard_codec,
}
use txtcel_program.State.Asserts.{assert_owned_by, is_uninitialized}
use txtcel_program.State.AccountUtils.{ensure_rent_exempt}
use txtcel_program.State.Loaders.{
  load_settings, load_thread, load_thread_access, load_admin_access, load_access_entry,
  load_bound_access_entry, load_follow_registry,
}
use txtcel_program.State.Access.{
  apply_access_entry_status, set_access_entry_status, create_access_entry, adjust_whitelist_count,
}
use txtcel_program.Content.{load_content}
use txtcel_program.Content.Node.{
  ContentNode, content_node_codec, content_header_codec, content_node_size,
}
use txtcel_program.Entrypoint.{dispatch}
use txtcel_program.Processor.Settings.{process_init_settings}
use txtcel_program.Processor.Alloc.{process_create_root_alloc}
use txtcel_program.Processor.FillSlot.{process_fill_slot}
use txtcel_program.Processor.ThreadAccess.{process_init_thread_access}
use txtcel_program.Processor.AccessLists.{process_add_to_whitelist}
use txtcel_program.Processor.Follow.{create_registry, create_follower_shard, process_subscribe}
use txtcel_program.Processor.Follow.Channels.{occurrences}
use txtcel_program.System.Reached.{
  PaysAuthorFirst, Reach-load_settings, Reach-load_content, Reach-load_bound_access_entry,
  Reach-load_follow_registry,
}
use txtcel_program.Tests.LittleEndian.{put_le, get_le, put_all, get_all}
use txtcel_program.Tests.World.{world_laws}
use txtcel_program.Tests.Scene.{program, author, reader, settings_key, settings, writable}
use txtcel_program.Tests.Reaching.{
  root, message, entry, registry, after_deployment-Reach, after_post-Reach, after_listing-Reach,
  after_following-Reach,
}

abbrev new_thread : ThreadNode
new_thread = record {
  tag = tag_thread;
  alloc_count = 1;
  last_alloc_seq = 0;
  author = author;
  message_fee = 5000;
  like_fee = 0;
  title = 104 ∷ [];
}

abbrev posted : ContentNode
posted = record {
  header = record {
    tag = tag_content;
    alloc_seq = 0;
    slot = 2;
    thread = root;
    author = author;
    created_at = pos 1000;
    reply_alloc_seq = 0;
    reply_slot = 0;
  };
  kind = 0;
  body = 104 ∷ 101 ∷ [];
}

abbrev guest : AccessEntry
guest = record { tag = tag_access_entry; thread = root; wallet = reader; status = access_allowed }

abbrev follows : FollowRegistry
follows = record { tag = tag_follow_registry; owner = reader; channels = root ∷ [] }

Reach-load_settings_example :
    (settings.base_fee_bps ≤ max_fee_cut_bps)
    × (settings.author_fee_cut_bps ≤ max_fee_cut_bps)
    × (settings.entry_cut_bps ≤ max_fee_cut_bps)
    × (settings.like_cut_bps ≤ max_fee_cut_bps)
    × PaysAuthorFirst 12345 settings.author_fee_cut_bps
    × PaysAuthorFirst 12345 settings.entry_cut_bps
    × PaysAuthorFirst 12345 settings.like_cut_bps
unfolding ◌>>=◌ serialize dispatch derive_settings_pda derive_treasury_shard_pda
    derive_author_fee_pda derive_alloc_pda derive_content_pda derive_access_pda
    derive_access_entry_pda put_le get_le put_all get_all to_le_bytes from_le_bytes is_uninitialized
    program_settings_codec program_settings_size thread_node_size alloc_node_size thread_node_codec
    alloc_node_codec content_node_size content_node_codec content_header_codec thread_access_size
    access_entry_size thread_access_codec process_init_settings process_create_root_alloc
    load_settings
Reach-load_settings_example =
    Reach-load_settings world_laws program (λ e. omega (arith, e)) after_deployment-Reach
      (writable settings_key) settings 12345 refl (omega arith)

Reach-load_content_example :
    (posted.header.slot < content_slots) × (length posted.body ≤ max_body_len)
unfolding ◌>>=◌ serialize dispatch derive_settings_pda derive_treasury_shard_pda
    derive_author_fee_pda derive_alloc_pda derive_content_pda derive_access_pda
    derive_access_entry_pda put_le get_le put_all get_all to_le_bytes from_le_bytes is_uninitialized
    program_settings_codec program_settings_size thread_node_size alloc_node_size thread_node_codec
    alloc_node_codec content_node_size content_node_codec content_header_codec thread_access_size
    access_entry_size thread_access_codec process_init_settings process_create_root_alloc
    load_settings process_fill_slot load_thread load_content
Reach-load_content_example =
    Reach-load_content world_laws program (λ e. omega (arith, e)) after_post-Reach message posted
      refl

Reach-load_bound_access_entry_example : guest.status ≤ access_fee_exempt
unfolding ◌>>=◌ serialize dispatch derive_settings_pda derive_treasury_shard_pda
    derive_author_fee_pda derive_alloc_pda derive_content_pda derive_access_pda
    derive_access_entry_pda put_le get_le put_all get_all to_le_bytes from_le_bytes is_uninitialized
    program_settings_codec program_settings_size thread_node_size alloc_node_size thread_node_codec
    alloc_node_codec content_node_size content_node_codec content_header_codec thread_access_size
    access_entry_size thread_access_codec process_init_settings process_create_root_alloc
    load_settings process_fill_slot load_thread process_init_thread_access process_add_to_whitelist
    apply_access_entry_status load_admin_access load_thread_access set_access_entry_status
    create_access_entry load_bound_access_entry load_access_entry adjust_whitelist_count
    access_entry_codec
Reach-load_bound_access_entry_example =
    Reach-load_bound_access_entry world_laws program (λ e. omega (arith, e)) after_listing-Reach
      entry root reader guest refl

Reach-load_follow_registry_example :
    (occurrences root follows.channels ≤ 1) × (length follows.channels ≤ max_follows)
unfolding ◌>>=◌ serialize dispatch derive_settings_pda derive_treasury_shard_pda
    derive_author_fee_pda derive_alloc_pda derive_content_pda derive_access_pda
    derive_access_entry_pda put_le get_le put_all get_all to_le_bytes from_le_bytes is_uninitialized
    program_settings_codec program_settings_size thread_node_size alloc_node_size thread_node_codec
    alloc_node_codec content_node_size content_node_codec content_header_codec thread_access_size
    access_entry_size thread_access_codec process_init_settings process_create_root_alloc
    load_settings load_thread process_subscribe create_registry create_follower_shard
    follow_registry_codec follower_shard_codec follow_registry_size follower_shard_size
    derive_follow_registry_pda derive_follower_shard_pda follower_shard_index ensure_rent_exempt
    assert_owned_by load_follow_registry
Reach-load_follow_registry_example =
    Reach-load_follow_registry world_laws program (λ e. omega (arith, e)) after_following-Reach
      registry follows root refl refl
