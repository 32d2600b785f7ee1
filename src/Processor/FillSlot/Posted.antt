-- ===== src/Processor/FillSlot/Posted.antt =====
-- What a post that succeeds has done (src/processor/fill_slot.rs).
use txtcel_program.Base.{
  ℕ, ◌+◌, ◌≤◌, ◌<◌, ◌≡◌, true, Bool, List, ◌∷◌, length, take, get_elem?, some, All, arith,
}
use txtcel_program.Base.Int.{ℤ}
use txtcel_program.Error.{ok}
use txtcel_program.Borsh.Laws.{Fits, FitsI64}
use txtcel_program.Runtime.{Pubkey, Bank, AccountInfo, Runtime}
use txtcel_program.Runtime.Laws.{IsRuntime}
use txtcel_program.Runtime.Storage.{try_from_slice-some}
use txtcel_program.State.Constants.{max_body_len, content_slots}
use txtcel_program.State.Accounts.{ThreadNode, ProgramSettings, CandidateSlot}
use txtcel_program.State.Codecs.{thread_node_codec}
use txtcel_program.State.Codecs.Canonical.{thread_node_codec-Canonical}
use txtcel_program.State.Codecs.RoundTrip.{ThreadNodeInRange}
use txtcel_program.State.Loaders.{load_thread, load_settings}
use txtcel_program.State.Loaders.Facts.{load_thread_iff}
use txtcel_program.Content.Node.Laws.{ContentNodeInRange}
use txtcel_program.Processor.FillSlot.{Post, Posting}
use txtcel_program.Processor.FillSlot.Gate.{admission}
use txtcel_program.Processor.FillSlot.Filled.{message, FirstFilled}

-- The fields of the instruction are in the range of their types.
pub record PostInRange (post : Post) : Type 0 where
  pub kind : Fits 2 post.kind
  pub body : All (Fits 1) post.body
  pub reply_alloc_seq : Fits 4 post.reply_alloc_seq
  pub reply_slot : Fits 1 post.reply_slot

-- What the loop of a post starts from.
abbrev pub posting_of :
    AccountInfo
    → AccountInfo
    → AccountInfo
    → AccountInfo
    → AccountInfo
    → (ℕ → ℕ)
    → ℤ
    → ThreadNode
    → ProgramSettings
    → Bool
    → Posting
posting_of payer thread_account treasury_shard author_fee_shard system_program_account rent now
      thread settings fee_exempt =
    record {
      payer = payer;
      thread_key = thread_account.key;
      thread = thread;
      settings = settings;
      treasury_shard = treasury_shard;
      author_fee_shard = author_fee_shard;
      system_program_account = system_program_account;
      fee_exempt = fee_exempt;
      rent = rent;
      created_at = now;
    }

module _ (R : Runtime) (program_id : Pubkey)
    (payer thread_account settings_account treasury_shard author_fee_shard
      system_program_account : AccountInfo)
    (remaining : List AccountInfo) (post : Post) (candidates : List CandidateSlot) (rent : ℕ → ℕ)
    (now : ℤ) where
  -- The payer signed and was admitted, and the first free candidate holds the message; `ready` is the
  -- bank after the fee shards are set up.
  pub record Posted (b b' : Bank) : Type 0 where
    pub thread : ThreadNode
    pub settings : ProgramSettings
    pub fee_exempt : Bool
    pub access_account : AccountInfo
    pub entry_account : AccountInfo
    pub ready : Bank
    pub short : length post.body ≤ max_body_len
    pub signed : payer.is_signer ≡ true
    pub thread_loaded : load_thread R program_id thread_account b ≡ ok thread
    pub settings_loaded : load_settings R program_id settings_account b ≡ ok settings
    pub access_passed : get_elem? remaining (length candidates) ≡ some access_account
    pub entry_passed : get_elem? remaining (length candidates + 1) ≡ some entry_account
    pub admitted :
        admission R program_id access_account entry_account thread_account.key payer.key
          thread.author b
        ≡ ok fee_exempt
    pub filled :
        FirstFilled R program_id
          (posting_of payer thread_account treasury_shard author_fee_shard system_program_account
            rent now thread settings fee_exempt)
          post
          ready
          b'
          candidates
          (take (length candidates) remaining)

module _ {R : Runtime} (L : IsRuntime R) (program_id : Pubkey)
    (payer thread_account settings_account treasury_shard author_fee_shard
      system_program_account : AccountInfo)
    (remaining : List AccountInfo) (post : Post) (candidates : List CandidateSlot) where
  abbrev passed : List AccountInfo
  passed =
      payer ∷ thread_account ∷ settings_account ∷ treasury_shard ∷ author_fee_shard
      ∷ system_program_account ∷ remaining

  thread_in_range :
      (t : ThreadNode) (b : Bank)
      → load_thread R program_id thread_account b ≡ ok t
      → ThreadNodeInRange t
  thread_in_range t b loaded =
      let (_, decoded, _) = (load_thread_iff R program_id thread_account b t).0 loaded in
      (try_from_slice-some (thread_node_codec R.borsh) (thread_node_codec-Canonical L.is_borsh) _ t
        decoded).1

  module _ {rent : ℕ → ℕ} {now : ℤ} (rent_ok : R.rent ≡ ok rent)
      (time_ok : R.unix_timestamp ≡ ok now) (fits_now : FitsI64 now)
      (fits_payer : Fits 32 payer.key) (fits_thread : Fits 32 thread_account.key)
      (range : PostInRange post) where
    pub message_in_range :
        (thread : ThreadNode) (settings : ProgramSettings) (fee_exempt : Bool) (b : Bank)
        → load_thread R program_id thread_account b ≡ ok thread
        → length post.body ≤ max_body_len
        → (c : CandidateSlot) → c.alloc_seq ≤ thread.last_alloc_seq
        → c.slot < content_slots
        → ContentNodeInRange (
            message R program_id
              (posting_of payer thread_account treasury_shard author_fee_shard
                system_program_account rent now thread settings fee_exempt)
              post
              c)
    message_in_range thread settings fee_exempt b loaded short c hseq hslot =
        let known = thread_in_range thread b loaded in
        record {
          header = record {
            tag = omega arith;
            alloc_seq = omega (arith, known.last_alloc_seq);
            slot = omega arith;
            thread = fits_thread;
            author = fits_payer;
            created_at = fits_now;
            reply_alloc_seq = range.reply_alloc_seq;
            reply_slot = range.reply_slot;
          };
          kind = range.kind;
          body_length = omega arith;
          body = range.body;
        }
