-- ===== src/System/Handlers/Registries.antt =====
-- Following and unfollowing a channel keep a registry without repetitions (the lists of
-- src/processor/subscribe.rs and unsubscribe.rs).
use txtcel_program.Base.{
  ℕ, ◌+◌, ◌≤◌, ◌<◌, ◌≡◌, refl, ◌==◌, true, false, ==_iff, Bool-cases, inl, inr, some, List, [], ◌∷◌,
  ◌++◌, All, length, length-append, length-set, set, arith,
}
use mathlib.Core.Path.{subst}
use txtcel_program.Borsh.Laws.{Fits}
use txtcel_program.Runtime.{Pubkey}
use txtcel_program.State.Constants.{tag_follow_registry, max_follows}
use txtcel_program.State.Accounts.{FollowRegistry}
use txtcel_program.State.Codecs.RoundTrip.{FollowRegistryInRange}
use txtcel_program.Processor.Follow.{contains, position, swap_remove, last_or, drop_last}
use txtcel_program.Processor.Follow.Channels.{occurrences, one_if, swap_remove-position}
use txtcel_program.Processor.AppendContent.Appended.{All-append}
use txtcel_program.Processor.LikeContent.Counts.{All-set}
use txtcel_program.System.Sound.{IsDistinct}

occurrences-append :
    (k c : Pubkey) (cs : List Pubkey)
    → occurrences k (cs ++ c ∷ []) ≡ occurrences k cs + one_if (c == k)
occurrences-append k c [] = omega arith
occurrences-append k c (e ∷ cs) = omega (arith, occurrences-append k c cs)

absent-occurrences : (k : Pubkey) (cs : List Pubkey) → contains k cs ≡ false → occurrences k cs ≡ 0
unfolding contains
absent-occurrences k [] e = refl
absent-occurrences k (c ∷ cs) e = ground (arith, absent-occurrences k cs)

one_if-same : (c k : Pubkey) → (c == k) ≡ true → c ≡ k
one_if-same c k e = (==_iff c k).0 e

-- A record of a registry that may be written.
pub record IsGood (x : FollowRegistry) : Type 0 where
  pub range : FollowRegistryInRange x
  pub tagged : x.tag ≡ tag_follow_registry
  pub distinct : IsDistinct x

abbrev pub empty_registry : Pubkey → FollowRegistry
empty_registry owner = record { tag = tag_follow_registry; owner = owner; channels = [] }

pub empty_registry-IsGood : (owner : Pubkey) → Fits 32 owner → IsGood (empty_registry owner)
empty_registry-IsGood owner fits = record {
  range = record { tag = omega arith; owner = fits; channels_length = omega arith; channels = tt };
  tagged = refl;
  distinct = record { once = λ k. omega arith; bounded = omega arith };
}

abbrev pub followed : FollowRegistry → Pubkey → FollowRegistry
followed x key = record x { channels = x.channels ++ key ∷ [] }

followed-once :
    (x : FollowRegistry) (key k : Pubkey)
    → contains key x.channels ≡ false
    → IsDistinct x
    → occurrences k (x.channels ++ key ∷ []) ≤ 1
followed-once x key k absent d = elim (Bool-cases (key == k)) [
  | inl same ↦
      let none : occurrences k x.channels ≡ 0 =
        subst (λ j. occurrences j x.channels ≡ 0) (one_if-same key k same)
          (absent-occurrences key x.channels absent) in
      let one : one_if (key == k) ≡ 1 = rw same in
      omega (arith, occurrences-append k key x.channels)
  | inr differs ↦
      let zero' : one_if (key == k) ≡ 0 = rw differs in
      omega (arith, occurrences-append k key x.channels, d.once k)
]

pub followed-IsGood :
    (x : FollowRegistry) (key : Pubkey)
    → IsGood x
    → Fits 32 key
    → contains key x.channels ≡ false
    → length x.channels < max_follows
    → IsGood (followed x key)
followed-IsGood x key g fits absent room =
    let size : length (x.channels ++ key ∷ []) ≡ length x.channels + 1 =
      length-append x.channels (key ∷ []) in
    record {
      range = record {
        tag = g.range.tag;
        owner = g.range.owner;
        channels_length = omega arith;
        channels = All-append 32 x.channels (key ∷ []) g.range.channels (fits, tt);
      };
      tagged = g.tagged;
      distinct = record {
        once = λ k. followed-once x key k absent g.distinct;
        bounded = omega arith;
      };
    }

length-drop_last : (cs : List Pubkey) → length (drop_last cs) ≤ length cs
length-drop_last [] = omega arith
length-drop_last (c ∷ []) = omega arith
length-drop_last (c ∷ e ∷ cs) = omega (arith, length-drop_last (e ∷ cs))

All-drop_last : (cs : List Pubkey) → All (Fits 32) cs → All (Fits 32) (drop_last cs)
All-drop_last [] h = h
All-drop_last (c ∷ []) h = tt
All-drop_last (c ∷ e ∷ cs) (hc, h) = (hc, All-drop_last (e ∷ cs) h)

last_or-fits :
    (d : Pubkey) (cs : List Pubkey) → Fits 32 d → All (Fits 32) cs → Fits 32 (last_or d cs)
last_or-fits d [] hd h = hd
last_or-fits d (c ∷ cs) hd (hc, h) = last_or-fits c cs hc h

pub unfollowed-IsGood :
    (x : FollowRegistry) (key : Pubkey) (i : ℕ)
    → IsGood x
    → position key x.channels ≡ some i
    → IsGood (record x { channels = swap_remove i x.channels })
unfolding swap_remove
unfollowed-IsGood x key i g found =
    let cs = x.channels in
    let v = last_or 0 cs in
    let shorter : length (drop_last (set cs i v)) ≤ length cs =
      omega (arith, length-drop_last (set cs i v), length-set cs i v) in
    record {
      range = record {
        tag = g.range.tag;
        owner = g.range.owner;
        channels_length = omega (arith, g.range.channels_length);
        channels = All-drop_last (set cs i v) (
            All-set (Fits 32) cs i v (last_or-fits 0 cs (omega arith) g.range.channels)
              g.range.channels);
      };
      tagged = g.tagged;
      distinct = record {
        once = λ k. omega (arith, swap_remove-position key i cs found k, g.distinct.once k);
        bounded = omega (arith, g.distinct.bounded);
      };
    }
