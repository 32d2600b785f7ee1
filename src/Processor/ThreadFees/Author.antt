-- ===== src/Processor/ThreadFees/Author.antt =====
-- Only the author changes a thread's fees, and each setter changes its field alone
-- (src/processor/set_message_fee.rs, set_like_fee.rs).
use txtcel_program.Base.{ℕ, ◌+◌, ◌≡◌, refl, sym, ap, ◌∙◌, List, ◌∷◌, length}
use txtcel_program.Error.{ok}
use txtcel_program.Borsh.Laws.{Fits, IsBorsh}
use txtcel_program.Runtime.{Pubkey, Bank, AccountInfo, Runtime}
use txtcel_program.Runtime.Tx.{Tx, check, serialize, ◌>>=◌}
use txtcel_program.Runtime.Hoare.{Holds, held, at_ok, Holds-mono, Holds-check, Holds-next}
use txtcel_program.Runtime.Storage.{rewrite-Rewritten, try_from_slice-some}
use txtcel_program.Runtime.Editing.{Edited}
use txtcel_program.State.Accounts.{ThreadNode, thread_node_size}
use txtcel_program.State.Codecs.{thread_node_codec}
use txtcel_program.State.Codecs.Sizes.{thread_node_codec-HasSize}
use txtcel_program.State.Codecs.RoundTrip.{ThreadNodeInRange, thread_node_codec-RoundTrips}
use txtcel_program.State.Codecs.Canonical.{thread_node_codec-Canonical}
use txtcel_program.State.Loaders.{load_thread, load_author_thread}
use txtcel_program.State.Loaders.Facts.{load_thread_iff, load_author_thread_iff}
use txtcel_program.Processor.ThreadFees.{process_set_message_fee, process_set_like_fee}

-- An edit that keeps the tag, the length of the title and the ranges.
pub record IsEdit (edit : ThreadNode → ThreadNode) : Type 0 where
  pub tag : (t : ThreadNode) → (edit t).tag ≡ t.tag
  pub title : (t : ThreadNode) → (edit t).title ≡ t.title
  pub in_range : (t : ThreadNode) → ThreadNodeInRange t → ThreadNodeInRange (edit t)

-- The two fees of a thread, the setter of each and the field that it sets.
pub data ThreadFee : Type 0 where
  message_fee : ThreadFee
  like_fee : ThreadFee

abbrev pub set_thread_fee : ThreadFee → Runtime → Pubkey → List AccountInfo → ℕ → Tx (Unit {0})
set_thread_fee message_fee = process_set_message_fee
set_thread_fee like_fee = process_set_like_fee

abbrev pub with_thread_fee : ThreadFee → ℕ → ThreadNode → ThreadNode
with_thread_fee message_fee fee t = record t { message_fee = fee }
with_thread_fee like_fee fee t = record t { like_fee = fee }

with_thread_fee-IsEdit :
    (which : ThreadFee) (fee : ℕ) → Fits 8 fee → IsEdit (with_thread_fee which fee)
with_thread_fee-IsEdit message_fee fee fits = record {
  tag = λ t. refl;
  title = λ t. refl;
  in_range = λ t h. record {
    tag = h.tag;
    alloc_count = h.alloc_count;
    last_alloc_seq = h.last_alloc_seq;
    author = h.author;
    message_fee = fits;
    like_fee = h.like_fee;
    title_length = h.title_length;
    title = h.title;
  };
}
with_thread_fee-IsEdit like_fee fee fits = record {
  tag = λ t. refl;
  title = λ t. refl;
  in_range = λ t h. record {
    tag = h.tag;
    alloc_count = h.alloc_count;
    last_alloc_seq = h.last_alloc_seq;
    author = h.author;
    message_fee = h.message_fee;
    like_fee = fits;
    title_length = h.title_length;
    title = h.title;
  };
}

module _ (R : Runtime) (program_id : Pubkey) where
  abbrev pub EditedThread :
      AccountInfo → AccountInfo → (ThreadNode → ThreadNode) → Bank → Bank → Type 0
  EditedThread = Edited (load_thread R program_id) (λ t. t.author)

  module _ (l : IsBorsh R.borsh) (authority account : AccountInfo) {edit : ThreadNode → ThreadNode}
      (is_edit : IsEdit edit) where
    store-Edited :
        (t : ThreadNode) (b : Bank)
        → load_author_thread R program_id authority account b ≡ ok t
        → Holds
            (λ _ b'. EditedThread authority account edit b b')
            (serialize (thread_node_codec R.borsh) (edit t) account b)
    store-Edited t b e =
        let (signed, writable, loaded, by_author) =
          (load_author_thread_iff R program_id account b authority t).0 e in
        let (owned, decoded, tagged) = (load_thread_iff R program_id account b t).0 loaded in
        let c = thread_node_codec R.borsh in
        let canonical = thread_node_codec-Canonical l in
        let in_range = is_edit.in_range t (try_from_slice-some c canonical _ t decoded).1 in
        Holds-mono
          (rewrite-Rewritten c canonical t (edit t) (thread_node_size (length t.title)) account b
            (thread_node_codec-HasSize l t)
            (λ rest.
              thread_node_codec-HasSize l (edit t) rest
              ∙ ap (λ s. thread_node_size (length s) + length rest) (is_edit.title t))
            (thread_node_codec-RoundTrips l (edit t) in_range) decoded)
          λ _ b' w. held (record {
            old = t;
            signed = signed;
            loaded = loaded;
            by_controller = sym by_author;
            stored =
                (load_thread_iff R program_id account b' (edit t)).1
                  (w.owner ∙ owned, w.decoded, is_edit.tag t ∙ tagged);
            lamports = w.lamports;
            others = w.others;
          })

    edit_thread-Edited :
        (b : Bank)
        → Holds
            (λ _ b'. EditedThread authority account edit b b')
            ((check (load_author_thread R program_id authority account) >>= λ t.
                serialize (thread_node_codec R.borsh) (edit t) account)
              b)
    edit_thread-Edited b = Holds-check _ _ b λ t e. store-Edited t b e

  -- For a `u64` fee, each of the two fee setters of a thread succeeds only for its author, sets its
  -- own field to the fee, and changes nothing else in the thread or in any other account.
  pub set_thread_fee-Edited :
      (l : IsBorsh R.borsh) (authority account : AccountInfo) (rest : List AccountInfo)
      (which : ThreadFee) (fee : ℕ) (b b' : Bank)
      → Fits 8 fee
      → set_thread_fee which R program_id (authority ∷ account ∷ rest) fee b ≡ ok (tt, b')
      → EditedThread authority account (with_thread_fee which fee) b b'
  unfolding process_set_message_fee process_set_like_fee
  set_thread_fee-Edited l authority account rest which fee b b' fits e = at_ok (go which) e
    where
      go :
          (which : ThreadFee)
          → Holds
              (λ _ b'. EditedThread authority account (with_thread_fee which fee) b b')
              (set_thread_fee which R program_id (authority ∷ account ∷ rest) fee b)
      go message_fee = Holds-next _ _ _ b (
          Holds-next _ _ _ b (
            edit_thread-Edited l authority account (with_thread_fee-IsEdit message_fee fee fits) b))
      go like_fee = Holds-next _ _ _ b (
          Holds-next _ _ _ b
            (edit_thread-Edited l authority account (with_thread_fee-IsEdit like_fee fee fits) b))
