-- ===== src/System/Following/Subscribe.antt =====
-- Following a channel (src/processor/subscribe.rs) adds it to the set of the user's channels and adds one
-- to the count of the channel's followers.
use txtcel_program.Base.{◌+◌, ◌<◌, ◌≡◌, ◌≢◌, true, false, ◌||◌, ◌==◌, length}
use txtcel_program.Runtime.{Pubkey, Bank, AccountInfo, Runtime}
use txtcel_program.State.Pda.{follower_shard_index}
use txtcel_program.Processor.Follow.{contains}
use txtcel_program.System.Reach.{Reach}
use txtcel_program.System.Following.{following, followers}
use txtcel_program.State.Constants.{max_follows}
use txtcel_program.System.Following.Obtained.{Obtained}

-- The user has one channel more, and the shard one follower more.
pub record Subscribed (R : Runtime) (program_id : Pubkey) (user registry shard : AccountInfo)
    (thread_key : Pubkey) (b b' : Bank) : Type 0 where
  pub signed : user.is_signer ≡ true
  pub absent : contains thread_key (following R registry b) ≡ false
  pub room : length (following R registry b) < max_follows
  pub follows :
      (k : Pubkey)
      → contains k (following R registry b')
        ≡ (contains k (following R registry b) || (thread_key == k))
  pub followed_by :
      followers R program_id shard thread_key (follower_shard_index user.key) b'
      ≡ followers R program_id shard thread_key (follower_shard_index user.key) b + 1
  pub others : (k : Pubkey) → k ≢ registry.key → k ≢ shard.key → (b' k).bytes ≡ (b k).bytes
