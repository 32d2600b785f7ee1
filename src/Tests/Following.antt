-- ===== src/Tests/Following.antt =====
-- A reader follows a channel, and unfollows it.
use txtcel_program.Base.{[], ◌∷◌}
use txtcel_program.Runtime.{Bank}
use txtcel_program.Processor.Follow.{process_unsubscribe}
use txtcel_program.Tests.World.{world}
use txtcel_program.Tests.Scene.{program, reader, signer, writable, bank_of}
use txtcel_program.Tests.Reaching.{root, registry, follower_shard, after_following}

abbrev after_unfollowing : Bank
after_unfollowing = bank_of (
    process_unsubscribe world program
      (signer reader ∷ registry ∷ follower_shard ∷ writable root ∷ writable 0 ∷ []) after_following)
