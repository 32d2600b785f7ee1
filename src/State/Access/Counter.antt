-- ===== src/State/Access/Counter.antt =====
-- The whitelist counter (`adjust_whitelist_count` of src/state/loaders.rs) counts the wallets that
-- are allowed.
use mathlib.Core.Path.{subst}
use txtcel_program.Base.{ℕ, ◌+◌, ◌-◌, ◌%◌, ◌≡◌, ◌≢◌, not, refl, Bool, true, false, u32_mod, arith}
use txtcel_program.Base.Int.{ℤ, pos, ◌-ℤ◌}
use txtcel_program.Error.{ok}
use txtcel_program.Borsh.Laws.{Fits}
use txtcel_program.Runtime.{Pubkey, Bank, AccountInfo, Runtime}
use txtcel_program.Runtime.Laws.{IsRuntime}
use txtcel_program.Runtime.Hoare.{Holds, held, Holds-checked, Holds-mono, Holds-pure}
use txtcel_program.Runtime.Tx.{when}
use txtcel_program.Runtime.Storage.{rewrite-Rewritten_prefix, deserialize-some}
use txtcel_program.State.Accounts.{ThreadAccess, thread_access_size}
use txtcel_program.State.Codecs.{thread_access_codec}
use txtcel_program.State.Codecs.Sizes.{thread_access_codec-HasSize}
use txtcel_program.State.Codecs.RoundTrip.{ThreadAccessInRange, thread_access_codec-RoundTrips}
use txtcel_program.State.Codecs.Canonical.{thread_access_codec-Canonical}
use txtcel_program.State.Codecs.Fronts.{thread_access_codec-IsFront}
use txtcel_program.State.Loaders.{load_thread_access}
use txtcel_program.State.Loaders.Facts.{load_thread_access_iff}
use txtcel_program.State.Access.{adjusted_count, count_of_bool, is_zero, adjust_whitelist_count}

-- The number of allowed wallets after one of them goes from `was` to `now`, as a `u32`.
abbrev pub counted : ℕ → Bool → Bool → ℕ
counted n false true = (n + 1) % u32_mod
counted n true false = n - 1
counted n _ _ = n

-- `i64::from(now_allowed) - i64::from(was_allowed)`
abbrev pub change : Bool → Bool → ℤ
change was now = pos (count_of_bool now) -ℤ pos (count_of_bool was)

u32-Fits : (n : ℕ) → Fits 4 (n % u32_mod)
u32-Fits n = omega arith

pub adjusted_count-counted :
    (n : ℕ) (was now : Bool) → Fits 4 n → adjusted_count n (change was now) ≡ counted n was now
adjusted_count-counted n false false h = ground arith
adjusted_count-counted n false true h = ground arith
adjusted_count-counted n true false h = ground arith
adjusted_count-counted n true true h = ground arith

abbrev pub recounted : Bool → Bool → ThreadAccess → ThreadAccess
recounted was now a = record a { whitelist_count = counted a.whitelist_count was now }

-- The gate in `account` counts the change, and nothing else has changed.
pub record Recounted (R : Runtime) (account : AccountInfo) (was now : Bool) (a : ThreadAccess)
    (b b' : Bank) : Type 0 where
  pub stored : load_thread_access R account b' ≡ ok (recounted was now a)
  pub lamports : (b' account.key).lamports ≡ (b account.key).lamports
  pub owner : (b' account.key).owner ≡ (b account.key).owner
  pub others : (k : Pubkey) → k ≢ account.key → b' k ≡ b k

module _ {R : Runtime} (L : IsRuntime R) (program_id : Pubkey) (account : AccountInfo)
    (a : ThreadAccess) (b : Bank) (loaded : load_thread_access R account b ≡ ok a) where
  in_range : ThreadAccessInRange a
  in_range =
      let (decoded, _) = (load_thread_access_iff R program_id account b a).0 loaded in
      let (_, _, range) =
        deserialize-some (thread_access_codec R.borsh) (thread_access_codec-Canonical L.is_borsh)
          (b account.key).bytes a decoded in
      range

  adjust_whitelist_count-Recounted :
      (was now : Bool)
      → Holds
          (λ _ b'. Recounted R account was now a b b')
          (adjust_whitelist_count R account (change was now) b)
  unfolding adjust_whitelist_count
  adjust_whitelist_count-Recounted was now =
      let (decoded, tagged) = (load_thread_access_iff R program_id account b a).0 loaded in
      let l = L.is_borsh in
      let c = thread_access_codec R.borsh in
      let store : ℕ → ThreadAccess = λ n. record a { whitelist_count = n } in
      let new = adjusted_count a.whitelist_count (change was now) in
      let same = adjusted_count-counted a.whitelist_count was now in_range.whitelist_count in
      Holds-checked _ _ b loaded (
        Holds-mono
          (rewrite-Rewritten_prefix c (thread_access_codec-Canonical l) a (store new)
            thread_access_size account b (thread_access_codec-HasSize l a)
            (thread_access_codec-HasSize l (store new)) (thread_access_codec-IsFront l (store new))
            (thread_access_codec-RoundTrips l (store new) (record {
              tag = in_range.tag;
              thread = in_range.thread;
              admin = in_range.admin;
              entry_fee = in_range.entry_fee;
              whitelist_count = u32-Fits _;
            }))
            decoded)
          λ _ b' w. held (record {
            stored =
                subst (λ n. load_thread_access R account b' ≡ ok (store n)) same
                  ((load_thread_access_iff R program_id account b' (store new)).1
                    (w.decoded, tagged));
            lamports = w.lamports;
            owner = w.owner;
            others = w.others;
          }))

  -- The call that is left out where the change is zero.
  pub recount-Recounted :
      (was now : Bool)
      → Holds
          (λ _ b'. Recounted R account was now a b b')
          (when
            (not (is_zero (change was now)))
            (adjust_whitelist_count R account (change was now))
            b)
  recount-Recounted false false =
      Holds-pure tt b
        (record { stored = loaded; lamports = refl; owner = refl; others = λ k ne. refl })
  recount-Recounted true true =
      Holds-pure tt b
        (record { stored = loaded; lamports = refl; owner = refl; others = λ k ne. refl })
  recount-Recounted false true = adjust_whitelist_count-Recounted false true
  recount-Recounted true false = adjust_whitelist_count-Recounted true false
