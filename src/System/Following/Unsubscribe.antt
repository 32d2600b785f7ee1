-- ===== src/System/Following/Unsubscribe.antt =====
-- Unfollowing a channel (src/processor/unsubscribe.rs) takes it off the set of the user's channels and off
-- the count of the channel's followers.
use txtcel_program.Base.{◌-◌, ◌≡◌, ◌≢◌, true, ◌&&◌, not, ◌==◌}
use txtcel_program.Runtime.{Pubkey, Bank, AccountInfo, Runtime}
use txtcel_program.State.Pda.{follower_shard_index}
use txtcel_program.Processor.Follow.{contains}
use txtcel_program.System.Reach.{Reach}
use txtcel_program.System.Following.{following, followers}

-- The user has one channel less, and the shard one follower less.
pub record Unsubscribed (R : Runtime) (program_id : Pubkey) (user registry shard : AccountInfo)
    (thread_key : Pubkey) (b b' : Bank) : Type 0 where
  pub signed : user.is_signer ≡ true
  pub present : contains thread_key (following R registry b) ≡ true
  pub follows :
      (k : Pubkey)
      → contains k (following R registry b')
        ≡ (contains k (following R registry b) && not (thread_key == k))
  pub followed_by :
      followers R program_id shard thread_key (follower_shard_index user.key) b'
      ≡ followers R program_id shard thread_key (follower_shard_index user.key) b - 1
  pub others : (k : Pubkey) → k ≢ registry.key → k ≢ shard.key → (b' k).bytes ≡ (b k).bytes
