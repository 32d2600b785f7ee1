-- ===== src/System/Following/Counters.antt =====
-- The count of a thread's followers, one more at a time (src/processor/subscribe.rs).
use txtcel_program.Base.{
  ℕ, ◌+◌, ◌<◌, ◌≡◌, ◌≢◌, refl, sym, ap, ◌∙◌, true, arith, checked_add, u64_mod,
}
use txtcel_program.Error.{ok, invalid_account_data}
use txtcel_program.Runtime.{Pubkey, Bank, AccountInfo, Runtime}
use txtcel_program.Runtime.Views.{value_of, value_of-missing}
use txtcel_program.Runtime.Laws.{IsRuntime}
use txtcel_program.Runtime.Hoare.{Holds, held, Holds-bind, Holds-check, Holds-mono}
use txtcel_program.Runtime.Storage.{rewrite-Rewritten, try_from_slice-some, write_new-Rewritten}
use txtcel_program.State.Accounts.{FollowerShard, follower_shard_size}
use txtcel_program.State.AccountUtils.Effects.{
  Frame, Frame-others, Frame-of_others, create_pda_account-Created,
}
use txtcel_program.State.Codecs.{follower_shard_codec}
use txtcel_program.State.Codecs.Sizes.{follower_shard_codec-HasSize}
use txtcel_program.State.Codecs.RoundTrip.{follower_shard_codec-RoundTrips}
use txtcel_program.State.Codecs.Canonical.{follower_shard_codec-Canonical}
use txtcel_program.State.Loaders.{load_bound_follower_shard}
use txtcel_program.State.Loaders.Facts.{load_bound_follower_shard_iff}
use txtcel_program.State.Pda.{follower_shard_index}
use txtcel_program.System.Following.{followers}
use txtcel_program.Borsh.Laws.{Fits}
use txtcel_program.Runtime.Check.{or_fail}
use txtcel_program.State.Constants.{tag_follower_shard}
use txtcel_program.State.Asserts.{is_uninitialized}
use txtcel_program.State.Asserts.Facts.{is_uninitialized-owner}
use txtcel_program.Processor.Follow.{create_follower_shard, bump_follower_shard}

follower_shard_index-fits : (key : Pubkey) → Fits 1 (follower_shard_index key)
unfolding follower_shard_index
follower_shard_index-fits key = omega arith

-- There is no shard in an account of another program.
followers-foreign :
    (R : Runtime) (program_id : Pubkey) (account : AccountInfo) (thread_key : Pubkey)
    (shard_idx : ℕ) (b : Bank)
    → (b account.key).owner ≢ program_id
    → followers R program_id account thread_key shard_idx b ≡ 0
followers-foreign R program_id account thread_key shard_idx b foreign =
    value_of-missing _ _ (load_bound_follower_shard R program_id account thread_key shard_idx b)
      λ x e.
        foreign
          ((load_bound_follower_shard_iff R program_id account b thread_key shard_idx x).0 e).0

module _ {R : Runtime} (L : IsRuntime R) (program_id : Pubkey)
    (user shard thread_account system_program_account : AccountInfo) {rent : ℕ → ℕ}
    (rent_ok : R.rent ≡ ok rent) (ours : program_id ≢ R.system_id)
    (fits_thread : Fits 32 thread_account.key) where
  -- One more follower, in a new shard or in one that is loaded.
  abbrev pub Counted : Bank → Bank → Type 0
  Counted b4 b' =
      (followers R program_id shard thread_account.key (follower_shard_index user.key) b'
        ≡ followers R program_id shard thread_account.key (follower_shard_index user.key) b4 + 1)
      × Frame shard.key b4 b'

  pub first_follower :
      (bump : ℕ) (b4 : Bank)
      → is_uninitialized R shard b4 ≡ true
      → Holds
          (λ _ b'. Counted b4 b')
          (create_follower_shard R program_id user shard system_program_account thread_account.key
            (follower_shard_index user.key)
            bump
            b4)
  unfolding create_follower_shard
  first_follower bump b4 fresh =
      let c = follower_shard_codec R.borsh in
      let l = L.is_borsh in
      let idx = follower_shard_index user.key in
      let new : FollowerShard = record {
        tag = tag_follower_shard;
        thread = thread_account.key;
        shard = idx;
        count = 1;
      } in
      let none_yet : followers R program_id shard thread_account.key idx b4 ≡ 0 =
        followers-foreign R program_id shard thread_account.key idx b4
          (λ q. ours (sym q ∙ is_uninitialized-owner R shard b4 fresh)) in
      Holds-bind _ _ b4
        (create_pda_account-Created L program_id user shard system_program_account _ _ b4 rent_ok)
        λ _ b5 cr.
          Holds-mono
            (write_new-Rewritten c (follower_shard_codec-Canonical l) new follower_shard_size shard
              b5 (follower_shard_codec-HasSize l new)
              (follower_shard_codec-RoundTrips l new (record {
                tag = omega arith;
                thread = fits_thread;
                shard = follower_shard_index-fits user.key;
                count = omega arith;
              }))
              cr.bytes)
            λ _ b' w. held (
              ap (value_of (λ (t : FollowerShard). t.count) 0) (
                    (load_bound_follower_shard_iff R program_id shard b' thread_account.key idx
                        new).1
                      (w.owner ∙ cr.owner, w.decoded, refl, refl, refl))
                  ∙ ap (λ (n : ℕ). n + 1) (sym none_yet),
              Frame-others shard.key b4 b5 b' cr.frame w.others,
            )

  pub another_follower :
      (b4 : Bank)
      → Holds
          (λ _ b'. Counted b4 b')
          (bump_follower_shard R program_id shard thread_account.key
            (follower_shard_index user.key)
            b4)
  unfolding bump_follower_shard
  another_follower b4 = Holds-check _ _ b4 λ y e. Holds-check _ _ b4 λ count bumped.
      let c = follower_shard_codec R.borsh in
      let l = L.is_borsh in
      let idx = follower_shard_index user.key in
      let new : FollowerShard = record y { count = count } in
      let (small, value) : (count < u64_mod) × (count ≡ y.count + 1) = checked y count bumped in
      let (owned, decoded, tagged, of_thread, numbered) =
        (load_bound_follower_shard_iff R program_id shard b4 thread_account.key idx y).0 e in
      let known = (try_from_slice-some c (follower_shard_codec-Canonical l) _ y decoded).1 in
      let counted : followers R program_id shard thread_account.key idx b4 ≡ y.count =
        ap (value_of (λ (t : FollowerShard). t.count) 0) e in
      Holds-mono
        (rewrite-Rewritten c (follower_shard_codec-Canonical l) y new follower_shard_size shard b4
          (follower_shard_codec-HasSize l y) (follower_shard_codec-HasSize l new)
          (follower_shard_codec-RoundTrips l new (record {
            tag = known.tag;
            thread = known.thread;
            shard = known.shard;
            count = omega (arith, small);
          }))
          decoded)
        λ _ b' w. held (
          ap (value_of (λ (t : FollowerShard). t.count) 0) (
                (load_bound_follower_shard_iff R program_id shard b' thread_account.key idx new).1
                  (w.owner ∙ owned, w.decoded, tagged, of_thread, numbered))
              ∙ value
              ∙ ap (λ (n : ℕ). n + 1) (sym counted),
          Frame-of_others shard.key b4 b' w.others,
        )
    where
      checked :
          (y : FollowerShard) (count : ℕ)
          → or_fail (checked_add u64_mod y.count 1) invalid_account_data b4 ≡ ok count
          → (count < u64_mod) × (count ≡ y.count + 1)
      checked y count q = (ground arith, ground arith)
