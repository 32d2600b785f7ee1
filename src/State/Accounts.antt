-- ===== src/State/Accounts.antt =====
-- The account structures (src/state/accounts.rs; the content node is in `Content`) and their sizes.
-- A `Pubkey` is the number of its 32 bytes, an integer field a number below its type's modulus.
use txtcel_program.Base.{ℕ, ◌+◌, ◌*◌, Bool, List}
use txtcel_program.Runtime.{Pubkey}
use txtcel_program.State.Constants.{content_slots}

pub record AllocNode : Type 0 where
  pub tag : ℕ
  pub thread : Pubkey
  pub alloc_seq : ℕ

pub record ThreadNode : Type 0 where
  pub tag : ℕ
  pub alloc_count : ℕ
  pub last_alloc_seq : ℕ
  pub author : Pubkey
  pub message_fee : ℕ
  pub like_fee : ℕ
  pub title : List ℕ

pub record ProgramSettings : Type 0 where
  pub tag : ℕ
  pub admin : Pubkey
  pub treasury : Pubkey
  pub base_fee_bps : ℕ
  pub author_fee_cut_bps : ℕ
  pub entry_cut_bps : ℕ
  pub like_cut_bps : ℕ

pub record ThreadAccess : Type 0 where
  pub tag : ℕ
  pub thread : Pubkey
  pub enabled : Bool
  pub admin : Pubkey
  pub entry_fee : ℕ
  pub whitelist_count : ℕ

pub record AccessEntry : Type 0 where
  pub tag : ℕ
  pub thread : Pubkey
  pub wallet : Pubkey
  pub status : ℕ

pub record AllocLikes : Type 0 where
  pub tag : ℕ
  pub alloc_seq : ℕ
  pub counts : List ℕ

pub record FollowRegistry : Type 0 where
  pub tag : ℕ
  pub owner : Pubkey
  pub channels : List Pubkey

pub record FollowerShard : Type 0 where
  pub tag : ℕ
  pub thread : Pubkey
  pub shard : ℕ
  pub count : ℕ

pub record CandidateSlot : Type 0 where
  pub alloc_seq : ℕ
  pub slot : ℕ

unfoldable pub alloc_node_size : ℕ
alloc_node_size = 1 + 32 + 4

unfoldable pub thread_node_size : ℕ → ℕ
thread_node_size title_len = 1 + 4 + 4 + 32 + 8 + 8 + 4 + title_len

unfoldable pub program_settings_size : ℕ
program_settings_size = 1 + 32 + 32 + 4 * 4

unfoldable pub thread_access_size : ℕ
thread_access_size = 1 + 32 + 1 + 32 + 8 + 4

unfoldable pub access_entry_size : ℕ
access_entry_size = 1 + 32 + 32 + 1

unfoldable pub alloc_likes_size : ℕ
alloc_likes_size = 1 + 4 + 4 * content_slots

unfoldable pub follow_registry_size : ℕ → ℕ
follow_registry_size channel_count = 1 + 32 + 4 + channel_count * 32

unfoldable pub follower_shard_size : ℕ
follower_shard_size = 1 + 32 + 1 + 8
