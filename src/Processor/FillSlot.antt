-- ===== src/Processor/FillSlot.antt =====
-- Posting a message into the first free candidate slot (src/processor/fill_slot.rs).
pub mod Gate
pub mod Filled
pub mod Posted
pub mod Admission
use txtcel_program.Base.{
  ℕ, ◌+◌, ◌/◌, ◌%◌, ◌==◌, ltb, leb, if◌then◌else◌, not, Bool, ◌||◌, Option, none, some, List, [],
  ◌∷◌, length, take, get_elem?, to_le_bytes, checked_add, checked_mul, u64_mod, u128_mod,
}
use txtcel_program.Base.Int.{ℤ}
use txtcel_program.Error.{
  text_too_long, invalid_candidate_count, invalid_alloc_seq, invalid_slot, invalid_account_data,
  fee_exceeds_max, no_free_slot, panicked, Result, ok,
}
use txtcel_program.Borsh.{Bytes}
use txtcel_program.Runtime.{Pubkey, AccountInfo, Runtime}
use txtcel_program.Runtime.Check.{Check, pure, gets, lift, or_fail, raise, fail}
use txtcel_program.Runtime.Tx.{Tx, check, fail_if, when, next_account_info, serialize, ◌>>=◌, ◌>>◌}
use txtcel_program.State.Constants.{tag_content, max_body_len, content_slots, content_seed}
use txtcel_program.State.Accounts.{ThreadNode, ProgramSettings, CandidateSlot}
use txtcel_program.State.Pda.{
  key_bytes, derive_access_pda, derive_access_entry_pda, derive_content_pda,
}
use txtcel_program.State.Asserts.{assert_signer, assert_writable, assert_pda, is_uninitialized}
use txtcel_program.State.AccountUtils.{create_pda_account}
use txtcel_program.State.Fees.{
  assert_fee_shard_accounts, validate_fee_shards, ensure_fee_shards_initialized, collect_base_fee,
  transfer_fee_split,
}
use txtcel_program.State.Loaders.{load_thread, load_settings}
use txtcel_program.Content.Body.{ContentKind, text, unknown, from_u16, validate_text}
use txtcel_program.Content.Node.{content_node_size, content_node_codec}
use Gate.{admission}

-- The arguments that a candidate is filled with.
pub record Post : Type 0 where
  pub kind : ℕ
  pub body : Bytes
  pub reply_alloc_seq : ℕ
  pub reply_slot : ℕ
  pub max_fee : ℕ

-- `if ContentKind::from_u16(kind) == ContentKind::Text { TextBody::new(body).validate()?; }`
unfoldable pub validate_kind : ContentKind → Bytes → Result (Unit {0})
unfolding validate_text
validate_kind text body = validate_text (record { text = body })
validate_kind (unknown value) body = ok tt

-- `remaining[i]`, in range after the test of the length.
abbrev pub account_at : List AccountInfo → ℕ → Check AccountInfo
account_at accounts i = some_or_panic (get_elem? accounts i)
  where
    some_or_panic : Option AccountInfo → Check AccountInfo
    some_or_panic none = raise panicked
    some_or_panic (some account) = pure account

-- What the loop over the candidates does not change.
pub record Posting : Type 0 where
  pub payer : AccountInfo
  pub thread_key : Pubkey
  pub thread : ThreadNode
  pub settings : ProgramSettings
  pub treasury_shard : AccountInfo
  pub author_fee_shard : AccountInfo
  pub system_program_account : AccountInfo
  pub fee_exempt : Bool
  pub rent : ℕ → ℕ
  pub created_at : ℤ

module _ (R : Runtime) (program_id : Pubkey) (p : Posting) (post : Post) where
  -- The author's fee of a post.
  abbrev pub author_fee : ℕ
  author_fee = if p.fee_exempt then 0 else p.thread.message_fee

  -- The fees of the slot: computed, capped by `max_fee`, and collected.
  unfoldable pub charge_fees : ℕ → Tx (Unit {0})
  unfolding collect_base_fee transfer_fee_split
  charge_fees content_lamports = do
    product ← check (
        or_fail (checked_mul u128_mod content_lamports p.settings.base_fee_bps)
          invalid_account_data)
    let base_fee = (product / 10000) % u64_mod
    total_fee ← check (or_fail (checked_add u64_mod base_fee author_fee) invalid_account_data)
    fail_if (ltb post.max_fee total_fee) fee_exceeds_max
    collect_base_fee R content_lamports p.settings.base_fee_bps p.payer p.treasury_shard
    when (ltb 0 author_fee) (
        transfer_fee_split R author_fee p.settings.author_fee_cut_bps p.payer p.author_fee_shard
          p.treasury_shard)

  -- Creates and writes the content account of a free slot, and charges for it.
  unfoldable pub fill_candidate : CandidateSlot → AccountInfo → ℕ → Tx (Unit {0})
  unfolding assert_writable create_pda_account serialize charge_fees
  fill_candidate candidate content_account content_bump = do
    check (assert_writable content_account)
    let content_size = content_node_size (length post.body)
    let content_lamports = p.rent content_size
    create_pda_account R program_id p.payer content_account p.system_program_account content_size (
        content_seed
        ∷ key_bytes p.thread_key
        ∷ to_le_bytes 4 candidate.alloc_seq
        ∷ (candidate.slot ∷ [])
        ∷ (content_bump ∷ [])
        ∷ [])
    serialize (content_node_codec R.borsh)
        (record {
          header = record {
            tag = tag_content;
            alloc_seq = candidate.alloc_seq;
            slot = candidate.slot;
            thread = p.thread_key;
            author = p.payer.key;
            created_at = p.created_at;
            reply_alloc_seq = post.reply_alloc_seq;
            reply_slot = post.reply_slot;
          };
          kind = post.kind;
          body = post.body;
        })
        content_account
    charge_fees content_lamports

  -- `for (i, candidate) in candidates.iter().enumerate()`, up to the first slot that is filled; the
  -- accounts are `candidate_accounts`, as many as the candidates.
  unfoldable pub fill_first : List CandidateSlot → List AccountInfo → Tx (Unit {0})
  unfolding assert_pda is_uninitialized fill_candidate
  fill_first [] accounts = check (fail no_free_slot)
  fill_first (candidate ∷ candidates) [] = check (raise panicked)
  fill_first (candidate ∷ candidates) (content_account ∷ accounts) = do
    fail_if (ltb p.thread.last_alloc_seq candidate.alloc_seq) invalid_alloc_seq
    fail_if (leb content_slots candidate.slot) invalid_slot
    let (expected_content, content_bump) =
        derive_content_pda R program_id p.thread_key candidate.alloc_seq candidate.slot
    check (assert_pda content_account expected_content)
    fresh ← check (gets (is_uninitialized R content_account))
    if fresh
        then fill_candidate candidate content_account content_bump
        else fill_first candidates accounts

module _ (R : Runtime) (program_id : Pubkey) (accounts : List AccountInfo) where
  unfoldable pub process_fill_slot : Post → List CandidateSlot → ℕ → ℕ → Tx (Unit {0})
  unfolding validate_kind from_u16 assert_signer assert_fee_shard_accounts load_thread load_settings
      validate_fee_shards assert_pda admission ensure_fee_shards_initialized fill_first
  process_fill_slot post candidates treasury_shard_idx author_fee_shard_idx = do
    fail_if (ltb max_body_len (length post.body)) text_too_long
    check (lift (validate_kind (from_u16 post.kind) post.body))
    fail_if (length candidates == 0) invalid_candidate_count
    (payer, r1) ← next_account_info accounts
    (thread_account, r2) ← next_account_info r1
    (settings_account, r3) ← next_account_info r2
    (treasury_shard, r4) ← next_account_info r3
    (author_fee_shard, r5) ← next_account_info r4
    (system_program_account, remaining) ← next_account_info r5
    check (assert_signer payer)
    check (assert_fee_shard_accounts R treasury_shard author_fee_shard system_program_account)
    thread ← check (load_thread R program_id thread_account)
    let thread_key = thread_account.key
    settings ← check (load_settings R program_id settings_account)
    (treasury_shard_bump, author_fee_shard_bump) ← check (
        validate_fee_shards R program_id treasury_shard author_fee_shard thread_key
          treasury_shard_idx author_fee_shard_idx)
    let n_candidates = length candidates
    fail_if (ltb (length remaining) (n_candidates + 2)) invalid_candidate_count
    access_account ← check (account_at remaining n_candidates)
    entry_account ← check (account_at remaining (n_candidates + 1))
    check (assert_pda access_account (derive_access_pda R program_id thread_key).0)
    check (assert_pda entry_account (derive_access_entry_pda R program_id thread_key payer.key).0)
    fee_exempt ←
        check
          (admission R program_id access_account entry_account thread_key payer.key thread.author)
    ensure_fee_shards_initialized R program_id payer treasury_shard author_fee_shard
        system_program_account thread_key treasury_shard_idx author_fee_shard_idx
        treasury_shard_bump author_fee_shard_bump
    rent ← check (lift R.rent)
    created_at ← check (lift R.unix_timestamp)
    fill_first R program_id
        (record {
          payer = payer;
          thread_key = thread_key;
          thread = thread;
          settings = settings;
          treasury_shard = treasury_shard;
          author_fee_shard = author_fee_shard;
          system_program_account = system_program_account;
          fee_exempt = fee_exempt;
          rent = rent;
          created_at = created_at;
        })
        post candidates (take n_candidates remaining)
