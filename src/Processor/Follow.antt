-- ===== src/Processor/Follow.antt =====
-- Following a channel and unfollowing it (src/processor/subscribe.rs, unsubscribe.rs).
pub mod Channels
use txtcel_program.Base.{
  ℕ, suc, ◌-◌, ◌==◌, ltb, leb, if◌then◌else◌, not, Bool, false, ◌||◌, Option, none, some, List, [],
  ◌∷◌, ◌++◌, length, set, checked_add, u64_mod,
}
use mathlib.Core.Option
use txtcel_program.Error.{
  unauthorized, already_following, follow_list_full, invalid_account_data, not_following,
}
use txtcel_program.Runtime.{Pubkey, AccountInfo, set_lamports, Runtime}
use txtcel_program.Runtime.Check.{gets, lift, or_fail}
use txtcel_program.Runtime.Tx.{
  Tx, check, pure, run, modify, fail_if, when, next_account_info, serialize, ◌>>=◌, ◌>>◌,
}
use txtcel_program.State.Constants.{
  tag_follow_registry, tag_follower_shard, max_follows, follows_seed, follower_count_seed,
}
use txtcel_program.State.Accounts.{FollowRegistry, follow_registry_size, follower_shard_size}
use txtcel_program.State.Codecs.{follow_registry_codec, follower_shard_codec}
use txtcel_program.State.Pda.{
  key_bytes, derive_follow_registry_pda, derive_follower_shard_pda, follower_shard_index,
}
use txtcel_program.State.Asserts.{
  assert_signer, assert_writable, assert_system_program, assert_owned_by, assert_pda,
  is_uninitialized,
}
use txtcel_program.State.AccountUtils.{credit, create_pda_account, ensure_rent_exempt}
use txtcel_program.State.Loaders.{load_thread, load_follow_registry, load_bound_follower_shard}

-- `channels.iter().any(|c| c == key)`
unfoldable pub contains : Pubkey → List Pubkey → Bool
contains key [] = false
contains key (c ∷ cs) = c == key || contains key cs

-- `channels.iter().position(|c| c == key)`
unfoldable pub position : Pubkey → List Pubkey → Option ℕ
position key [] = none
position key (c ∷ cs) = if c == key then some 0 else Option.map suc (position key cs)

abbrev pub last_or : Pubkey → List Pubkey → Pubkey
last_or d [] = d
last_or d (c ∷ cs) = last_or c cs

abbrev pub drop_last : List Pubkey → List Pubkey
drop_last [] = []
drop_last (c ∷ []) = []
drop_last (c ∷ cs) = c ∷ drop_last cs

-- `Vec::swap_remove`: the last element takes the place of the one removed.
unfoldable pub swap_remove : ℕ → List Pubkey → List Pubkey
swap_remove i cs = drop_last (set cs i (last_or 0 cs))

module _ (R : Runtime) (program_id : Pubkey) where
  unfoldable pub create_registry : AccountInfo → AccountInfo → AccountInfo → ℕ → Tx FollowRegistry
  unfolding create_pda_account serialize
  create_registry user follow_registry system_program_account registry_bump = do
    create_pda_account R program_id user follow_registry system_program_account
        (follow_registry_size 0) (follows_seed ∷ key_bytes user.key ∷ (registry_bump ∷ []) ∷ [])
    let registry : FollowRegistry = record {
      tag = tag_follow_registry;
      owner = user.key;
      channels = [];
    }
    serialize (follow_registry_codec R.borsh) registry follow_registry
    pure registry

  unfoldable pub load_own_registry : AccountInfo → AccountInfo → Tx FollowRegistry
  unfolding assert_owned_by load_follow_registry
  load_own_registry user follow_registry = do
    check (assert_owned_by follow_registry program_id)
    registry ← check (load_follow_registry R follow_registry)
    fail_if (not (registry.owner == user.key)) unauthorized
    pure registry

  unfoldable pub create_follower_shard :
      AccountInfo → AccountInfo → AccountInfo → Pubkey → ℕ → ℕ → Tx (Unit {0})
  unfolding create_pda_account serialize
  create_follower_shard user follower_shard system_program_account thread_key shard_idx shard_bump =
      do
        create_pda_account R program_id user follower_shard system_program_account
            follower_shard_size
            (follower_count_seed ∷ key_bytes thread_key ∷ (shard_idx ∷ []) ∷ (shard_bump ∷ []) ∷ [])
        serialize (follower_shard_codec R.borsh)
            (record { tag = tag_follower_shard; thread = thread_key; shard = shard_idx; count = 1 })
            follower_shard

  unfoldable pub bump_follower_shard : AccountInfo → Pubkey → ℕ → Tx (Unit {0})
  unfolding load_bound_follower_shard serialize
  bump_follower_shard follower_shard thread_key shard_idx = do
    shard ← check (load_bound_follower_shard R program_id follower_shard thread_key shard_idx)
    count ← check (or_fail (checked_add u64_mod shard.count 1) invalid_account_data)
    serialize (follower_shard_codec R.borsh) (record shard { count = count }) follower_shard

  unfoldable pub process_subscribe : List AccountInfo → Tx (Unit {0})
  unfolding assert_signer assert_writable assert_system_program load_thread assert_pda
      is_uninitialized create_registry load_own_registry contains ensure_rent_exempt
      create_follower_shard bump_follower_shard follower_shard_index serialize
  process_subscribe accounts = do
    (user, r1) ← next_account_info accounts
    (follow_registry, r2) ← next_account_info r1
    (follower_shard, r3) ← next_account_info r2
    (thread_account, r4) ← next_account_info r3
    (system_program_account, r5) ← next_account_info r4
    check (assert_signer user)
    check (assert_writable user)
    check (assert_writable follow_registry)
    check (assert_writable follower_shard)
    check (assert_system_program R system_program_account)
    thread ← check (load_thread R program_id thread_account)
    let thread_key = thread_account.key
    let (expected_registry, registry_bump) = derive_follow_registry_pda R program_id user.key
    check (assert_pda follow_registry expected_registry)
    let shard_idx = follower_shard_index user.key
    let (expected_shard, shard_bump) = derive_follower_shard_pda R program_id thread_key shard_idx
    check (assert_pda follower_shard expected_shard)
    fresh ← check (gets (is_uninitialized R follow_registry))
    registry ←
        (if fresh
          then create_registry user follow_registry system_program_account registry_bump
          else load_own_registry user follow_registry)
    fail_if (contains thread_key registry.channels) already_following
    fail_if (leb max_follows (length registry.channels)) follow_list_full
    let channels = registry.channels ++ thread_key ∷ []
    let new_size = follow_registry_size (length channels)
    run (R.resize follow_registry new_size)
    ensure_rent_exempt R user follow_registry new_size
    serialize (follow_registry_codec R.borsh) (record registry { channels = channels })
        follow_registry
    fresh_shard ← check (gets (is_uninitialized R follower_shard))
    if fresh_shard
        then create_follower_shard user follower_shard system_program_account thread_key shard_idx
            shard_bump
        else bump_follower_shard follower_shard thread_key shard_idx

  -- The rent freed by the shrunken registry goes back to its owner.
  unfoldable pub refund_rent : AccountInfo → AccountInfo → ℕ → Tx (Unit {0})
  unfolding credit
  refund_rent user follow_registry new_size = do
    rent ← check (lift R.rent)
    let required = rent new_size
    current ← check (gets (λ b. (b follow_registry.key).lamports))
    when (ltb required current) (do
      modify (λ b. set_lamports b follow_registry.key required)
      credit user (current - required))

  unfoldable pub process_unsubscribe : List AccountInfo → Tx (Unit {0})
  unfolding assert_signer assert_writable assert_system_program assert_owned_by load_thread
      assert_pda load_follow_registry position swap_remove refund_rent is_uninitialized
      load_bound_follower_shard follower_shard_index serialize
  process_unsubscribe accounts = do
    (user, r1) ← next_account_info accounts
    (follow_registry, r2) ← next_account_info r1
    (follower_shard, r3) ← next_account_info r2
    (thread_account, r4) ← next_account_info r3
    (system_program_account, r5) ← next_account_info r4
    check (assert_signer user)
    check (assert_writable user)
    check (assert_writable follow_registry)
    check (assert_writable follower_shard)
    check (assert_system_program R system_program_account)
    check (assert_owned_by follow_registry program_id)
    thread ← check (load_thread R program_id thread_account)
    let thread_key = thread_account.key
    check (assert_pda follow_registry (derive_follow_registry_pda R program_id user.key).0)
    let shard_idx = follower_shard_index user.key
    check
        (assert_pda follower_shard (derive_follower_shard_pda R program_id thread_key shard_idx).0)
    registry ← check (load_follow_registry R follow_registry)
    fail_if (not (registry.owner == user.key)) unauthorized
    pos ← check (or_fail (position thread_key registry.channels) not_following)
    let channels = swap_remove pos registry.channels
    let new_size = follow_registry_size (length channels)
    run (R.resize follow_registry new_size)
    serialize (follow_registry_codec R.borsh) (record registry { channels = channels })
        follow_registry
    refund_rent user follow_registry new_size
    fresh_shard ← check (gets (is_uninitialized R follower_shard))
    fail_if fresh_shard not_following
    shard ← check (load_bound_follower_shard R program_id follower_shard thread_key shard_idx)
    serialize (follower_shard_codec R.borsh) (record shard { count = shard.count - 1 })
        follower_shard
