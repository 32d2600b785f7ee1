-- ===== src/State/Constants.antt =====
-- Protocol-wide constants (src/state/constants.rs, and those of src/content/mod.rs).
use txtcel_program.Base.{ℕ, ascii}
use txtcel_program.Borsh.{Bytes}

abbrev pub tag_content : ℕ
tag_content = 1

abbrev pub tag_alloc : ℕ
tag_alloc = 2

abbrev pub tag_thread : ℕ
tag_thread = 3

abbrev pub tag_settings : ℕ
tag_settings = 5

abbrev pub tag_access : ℕ
tag_access = 6

abbrev pub tag_likes : ℕ
tag_likes = 7

abbrev pub tag_access_entry : ℕ
tag_access_entry = 9

abbrev pub tag_follow_registry : ℕ
tag_follow_registry = 10

abbrev pub tag_follower_shard : ℕ
tag_follower_shard = 11

abbrev pub access_allowed : ℕ
access_allowed = 0

abbrev pub access_denied : ℕ
access_denied = 1

abbrev pub access_fee_exempt : ℕ
access_fee_exempt = 2

abbrev pub max_title_len : ℕ
max_title_len = 64

abbrev pub n_treasury_shards : ℕ
n_treasury_shards = 512

abbrev pub n_author_fee_shards : ℕ
n_author_fee_shards = 4

abbrev pub n_follower_shards : ℕ
n_follower_shards = 8

abbrev pub max_follows : ℕ
max_follows = 1000

abbrev pub max_fee_cut_bps : ℕ
max_fee_cut_bps = 5000

abbrev pub content_slots : ℕ
content_slots = 32

abbrev pub max_body_len : ℕ
max_body_len = 8192

abbrev pub settings_seed : Bytes
settings_seed = ascii "settings"

abbrev pub alloc_seed : Bytes
alloc_seed = ascii "alloc"

abbrev pub access_seed : Bytes
access_seed = ascii "access"

abbrev pub acl_seed : Bytes
acl_seed = ascii "acl"

abbrev pub likes_seed : Bytes
likes_seed = ascii "likes"

abbrev pub treasury_shard_seed : Bytes
treasury_shard_seed = ascii "treasury_shard"

abbrev pub author_fee_seed : Bytes
author_fee_seed = ascii "author_fee"

abbrev pub follows_seed : Bytes
follows_seed = ascii "follows"

abbrev pub follower_count_seed : Bytes
follower_count_seed = ascii "follower_count"

abbrev pub content_seed : Bytes
content_seed = ascii "content"
