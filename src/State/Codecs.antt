-- ===== src/State/Codecs.antt =====
-- The derived Borsh encodings of the account structures (the `derive` lines of
-- src/state/accounts.rs): the fields in the order of their declaration.
pub mod Sizes
pub mod RoundTrip
pub mod Canonical
pub mod Fronts
pub mod Tags
use txtcel_program.Base.{ℕ, some}
use txtcel_program.Borsh.{Codec, Borsh, ◌>>=◌}
use txtcel_program.State.Constants.{content_slots}
use txtcel_program.State.Accounts.{
  AllocNode, ThreadNode, ProgramSettings, ThreadAccess, AccessEntry, AllocLikes, FollowRegistry,
  FollowerShard,
}

module _ (b : Borsh) where
  unfoldable pub alloc_node_codec : Codec AllocNode
  alloc_node_codec = record {
    put = λ x rest. (b.int 1).put x.tag ((b.int 32).put x.thread ((b.int 4).put x.alloc_seq rest));
    get = λ bytes. do
      (x_tag, r0) ← (b.int 1).get bytes
      (x_thread, r1) ← (b.int 32).get r0
      (x_alloc_seq, rest) ← (b.int 4).get r1
      some (record { tag = x_tag; thread = x_thread; alloc_seq = x_alloc_seq }, rest);
  }

  unfoldable pub thread_node_codec : Codec ThreadNode
  thread_node_codec = record {
    put = λ x rest. (b.int 1).put x.tag (
        (b.int 4).put x.alloc_count (
          (b.int 4).put x.last_alloc_seq (
            (b.int 32).put x.author (
              (b.int 8).put x.message_fee
                ((b.int 8).put x.like_fee ((b.vec 1).put x.title rest))))));
    get = λ bytes. do
      (x_tag, r0) ← (b.int 1).get bytes
      (x_alloc_count, r1) ← (b.int 4).get r0
      (x_last_alloc_seq, r2) ← (b.int 4).get r1
      (x_author, r3) ← (b.int 32).get r2
      (x_message_fee, r4) ← (b.int 8).get r3
      (x_like_fee, r5) ← (b.int 8).get r4
      (x_title, rest) ← (b.vec 1).get r5
      some (
        record {
          tag = x_tag;
          alloc_count = x_alloc_count;
          last_alloc_seq = x_last_alloc_seq;
          author = x_author;
          message_fee = x_message_fee;
          like_fee = x_like_fee;
          title = x_title;
        },
        rest,
      );
  }

  unfoldable pub program_settings_codec : Codec ProgramSettings
  program_settings_codec = record {
    put = λ x rest. (b.int 1).put x.tag (
        (b.int 32).put x.admin (
          (b.int 32).put x.treasury (
            (b.int 4).put x.base_fee_bps (
              (b.int 4).put x.author_fee_cut_bps
                ((b.int 4).put x.entry_cut_bps ((b.int 4).put x.like_cut_bps rest))))));
    get = λ bytes. do
      (x_tag, r0) ← (b.int 1).get bytes
      (x_admin, r1) ← (b.int 32).get r0
      (x_treasury, r2) ← (b.int 32).get r1
      (x_base_fee_bps, r3) ← (b.int 4).get r2
      (x_author_fee_cut_bps, r4) ← (b.int 4).get r3
      (x_entry_cut_bps, r5) ← (b.int 4).get r4
      (x_like_cut_bps, rest) ← (b.int 4).get r5
      some (
        record {
          tag = x_tag;
          admin = x_admin;
          treasury = x_treasury;
          base_fee_bps = x_base_fee_bps;
          author_fee_cut_bps = x_author_fee_cut_bps;
          entry_cut_bps = x_entry_cut_bps;
          like_cut_bps = x_like_cut_bps;
        },
        rest,
      );
  }

  unfoldable pub thread_access_codec : Codec ThreadAccess
  thread_access_codec = record {
    put = λ x rest. (b.int 1).put x.tag (
        (b.int 32).put x.thread (
          b.bool.put x.enabled (
            (b.int 32).put x.admin
              ((b.int 8).put x.entry_fee ((b.int 4).put x.whitelist_count rest)))));
    get = λ bytes. do
      (x_tag, r0) ← (b.int 1).get bytes
      (x_thread, r1) ← (b.int 32).get r0
      (x_enabled, r2) ← b.bool.get r1
      (x_admin, r3) ← (b.int 32).get r2
      (x_entry_fee, r4) ← (b.int 8).get r3
      (x_whitelist_count, rest) ← (b.int 4).get r4
      some (
        record {
          tag = x_tag;
          thread = x_thread;
          enabled = x_enabled;
          admin = x_admin;
          entry_fee = x_entry_fee;
          whitelist_count = x_whitelist_count;
        },
        rest,
      );
  }

  unfoldable pub access_entry_codec : Codec AccessEntry
  access_entry_codec = record {
    put = λ x rest.
        (b.int 1).put x.tag
          ((b.int 32).put x.thread ((b.int 32).put x.wallet ((b.int 1).put x.status rest)));
    get = λ bytes. do
      (x_tag, r0) ← (b.int 1).get bytes
      (x_thread, r1) ← (b.int 32).get r0
      (x_wallet, r2) ← (b.int 32).get r1
      (x_status, rest) ← (b.int 1).get r2
      some (record { tag = x_tag; thread = x_thread; wallet = x_wallet; status = x_status }, rest);
  }

  unfoldable pub alloc_likes_codec : Codec AllocLikes
  alloc_likes_codec = record {
    put = λ x rest.
        (b.int 1).put x.tag
          ((b.int 4).put x.alloc_seq ((b.array content_slots 4).put x.counts rest));
    get = λ bytes. do
      (x_tag, r0) ← (b.int 1).get bytes
      (x_alloc_seq, r1) ← (b.int 4).get r0
      (x_counts, rest) ← (b.array content_slots 4).get r1
      some (record { tag = x_tag; alloc_seq = x_alloc_seq; counts = x_counts }, rest);
  }

  unfoldable pub follow_registry_codec : Codec FollowRegistry
  follow_registry_codec = record {
    put = λ x rest. (b.int 1).put x.tag ((b.int 32).put x.owner ((b.vec 32).put x.channels rest));
    get = λ bytes. do
      (x_tag, r0) ← (b.int 1).get bytes
      (x_owner, r1) ← (b.int 32).get r0
      (x_channels, rest) ← (b.vec 32).get r1
      some (record { tag = x_tag; owner = x_owner; channels = x_channels }, rest);
  }

  unfoldable pub follower_shard_codec : Codec FollowerShard
  follower_shard_codec = record {
    put = λ x rest.
        (b.int 1).put x.tag
          ((b.int 32).put x.thread ((b.int 1).put x.shard ((b.int 8).put x.count rest)));
    get = λ bytes. do
      (x_tag, r0) ← (b.int 1).get bytes
      (x_thread, r1) ← (b.int 32).get r0
      (x_shard, r2) ← (b.int 1).get r1
      (x_count, rest) ← (b.int 8).get r2
      some (record { tag = x_tag; thread = x_thread; shard = x_shard; count = x_count }, rest);
  }
