-- ===== src/System/Following.antt =====
-- Who follows what, as an abstract state: the set of channels that a registry holds and the number that
-- a shard counts, whatever the order on the list and wherever an account is still missing
-- (src/processor/subscribe.rs and unsubscribe.rs).
pub mod Obtained
pub mod Counters
pub mod Subscribe
pub mod Unsubscribe
use txtcel_program.Base.{
  ℕ, zero, suc, ◌+◌, ◌-◌, ◌<◌, ◌≤◌, ◌≡◌, ◌≢◌, refl, sym, ap, ◌∙◌, Bool, true, false, ◌||◌, ◌&&◌,
  not, ltb, ◌==◌, Bool-cases, Option-cases, inl, inr, none, some, ==_refl, List, [], ◌∷◌, ◌++◌,
  length, arith,
}
use mathlib.Core.Path.{subst}
use txtcel_program.Error.{Result, ok, err}
use txtcel_program.Borsh.{Bytes, Borsh, try_from_slice}
use txtcel_program.Runtime.{Pubkey, Account, Bank, AccountInfo, Runtime}
use txtcel_program.Runtime.Laws.{IsRuntime}
use txtcel_program.Runtime.Tx.{serialize}
use txtcel_program.Runtime.Hoare.{Holds, held}
use txtcel_program.Runtime.Storage.{serialize_exact, try_from_slice-some, try_from_slice-put}
use txtcel_program.Runtime.Views.{value_of, value_of-same, value_of-missing}
use txtcel_program.State.Constants.{tag_follow_registry}
use txtcel_program.State.Accounts.{FollowRegistry, FollowerShard, follow_registry_size}
use txtcel_program.State.AccountUtils.Effects.{Frame, Frame-of_others}
use txtcel_program.State.Codecs.{follow_registry_codec}
use txtcel_program.State.Codecs.Sizes.{follow_registry_codec-HasSize}
use txtcel_program.State.Codecs.RoundTrip.{FollowRegistryInRange, follow_registry_codec-RoundTrips}
use txtcel_program.State.Codecs.Canonical.{follow_registry_codec-Canonical}
use txtcel_program.State.Loaders.{load_follow_registry, load_bound_follower_shard}
use txtcel_program.State.Loaders.Facts.{load_follow_registry_iff, load_bound_follower_shard_iff}
use txtcel_program.Processor.Follow.{contains}
use txtcel_program.Processor.Follow.Channels.{occurrences, one_if}

-- The channels that a registry holds, none where there is no registry.
abbrev pub following : Runtime → AccountInfo → Bank → List Pubkey
following R account b = value_of (λ x. x.channels) [] (load_follow_registry R account b)

-- The followers that a shard of a thread counts, none where there is no shard.
abbrev pub followers : Runtime → Pubkey → AccountInfo → Pubkey → ℕ → Bank → ℕ
followers R program_id account thread_key shard_idx b =
    value_of (λ x. x.count) 0
      (load_bound_follower_shard R program_id account thread_key shard_idx b)

-- Both are read off the account alone.
pub following-same :
    (R : Runtime) (account : AccountInfo) (b b' : Bank)
    → (b' account.key).bytes ≡ (b account.key).bytes
    → following R account b' ≡ following R account b
following-same R account b b' e =
    value_of-same _ _ _ _
      (λ x h.
        let (decoded, tagged) = (load_follow_registry_iff R 0 account b' x).0 h in
        (load_follow_registry_iff R 0 account b x).1 (rw (← e) decoded, tagged))
      (λ x h.
        let (decoded, tagged) = (load_follow_registry_iff R 0 account b x).0 h in
        (load_follow_registry_iff R 0 account b' x).1 (rw e decoded, tagged))

pub followers-same :
    (R : Runtime) (program_id : Pubkey) (account : AccountInfo) (thread_key : Pubkey)
    (shard_idx : ℕ) (b b' : Bank)
    → (b' account.key).bytes ≡ (b account.key).bytes
    → (b' account.key).owner ≡ (b account.key).owner
    → followers R program_id account thread_key shard_idx b'
      ≡ followers R program_id account thread_key shard_idx b
followers-same R program_id account thread_key shard_idx b b' e o =
    value_of-same _ _ _ _
      (λ x h.
        let (owned, decoded, tagged, of_thread, numbered) =
          (load_bound_follower_shard_iff R program_id account b' thread_key shard_idx x).0 h in
        (load_bound_follower_shard_iff R program_id account b thread_key shard_idx x).1
          (rw (← o) owned, rw (← e) decoded, tagged, of_thread, numbered))
      (λ x h.
        let (owned, decoded, tagged, of_thread, numbered) =
          (load_bound_follower_shard_iff R program_id account b thread_key shard_idx x).0 h in
        (load_bound_follower_shard_iff R program_id account b' thread_key shard_idx x).1
          (rw o owned, rw e decoded, tagged, of_thread, numbered))

pub resize-Frame :
    {R : Runtime} (L : IsRuntime R) (target : AccountInfo) (n : ℕ) (b b' : Bank)
    → R.resize target n b ≡ ok b'
    → Frame target.key b b'
resize-Frame L target n b b' e =
    subst (Frame target.key b) (sym (L.resize_ok target n b b' e))
      (record { bytes = λ k ne. ground arith; owner = λ k ne. ground arith })

pub contains-append :
    (k c : Pubkey) (cs : List Pubkey) → contains k (cs ++ c ∷ []) ≡ (contains k cs || (c == k))
unfolding contains
contains-append k c [] = ground arith
contains-append k c (e ∷ cs) = ground (arith, contains-append k c cs)

pub contains-occurrences :
    (k : Pubkey) (cs : List Pubkey) → contains k cs ≡ ltb 0 (occurrences k cs)
unfolding contains
contains-occurrences k [] = ground arith
contains-occurrences k (c ∷ cs) = elim (Bool-cases (c == k)) [
  | inl same ↦ rw same (ground arith)
  | inr differs ↦ rw differs (ground (arith, contains-occurrences k cs))
]

module _ {R : Runtime} (L : IsRuntime R) (account : AccountInfo) where
  -- There is no registry in an account without data.
  pub following-empty : (b : Bank) → (b account.key).bytes ≡ [] → following R account b ≡ []
  unfolding follow_registry_size
  following-empty b e = value_of-missing _ _ (load_follow_registry R account b) λ x loaded.
      let c = follow_registry_codec R.borsh in
      let (decoded, _) = (load_follow_registry_iff R 0 account b x).0 loaded in
      let (same, _) =
        try_from_slice-some c (follow_registry_codec-Canonical L.is_borsh) _ x decoded in
      let none_left =
        sym (follow_registry_codec-HasSize L.is_borsh x []) ∙ ap length (sym same ∙ e) in
      omega (arith, none_left)

  -- A registry that was written into data of its size.
  pub record Stored (channels : List Pubkey) (b b' : Bank) : Type 0 where
    pub stored : following R account b' ≡ channels
    pub owner : (b' account.key).owner ≡ (b account.key).owner
    pub frame : Frame account.key b b'

  pub serialize-Stored :
      (x : FollowRegistry) (b : Bank)
      → FollowRegistryInRange x
      → x.tag ≡ tag_follow_registry
      → length (b account.key).bytes ≡ follow_registry_size (length x.channels)
      → Holds
          (λ _ b'. Stored x.channels b b')
          (serialize (follow_registry_codec R.borsh) x account b)
  serialize-Stored x b range tagged size =
      let c = follow_registry_codec R.borsh in
      let l = L.is_borsh in
      rw (serialize_exact c x account b (omega (arith, follow_registry_codec-HasSize l x [], size)))
        (held (record {
          stored = ap (value_of (λ (t : FollowRegistry). t.channels) []) (
              (load_follow_registry_iff R 0 account _ x).1 (
                rw (==_refl account.key)
                    (try_from_slice-put c x (follow_registry_codec-RoundTrips l x range)),
                tagged,
              ));
          owner = rw (==_refl account.key);
          frame = record { bytes = λ k ne. ground arith; owner = λ k ne. ground arith };
        }))
