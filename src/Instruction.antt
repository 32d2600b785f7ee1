-- ===== src/Instruction.antt =====
-- The instructions and their wire format (src/instruction.rs). A `CandidateSlot` is here the pair of
-- its fields, and the number of a variant is its place in the enumeration.
pub mod RoundTrip
pub mod Decoding
pub mod Canonical
use txtcel_program.Base.{ℕ, ◌==◌, if◌then◌else◌, Bool, Option, none, some, List}
use txtcel_program.Borsh.{Bytes, Codec, Borsh, ◌>>=◌}

pub data ProgramInstruction : Type 0 where
  create_root_alloc :
      (message_fee : ℕ) → (treasury_shard_idx : ℕ) → (title : Bytes) → ProgramInstruction
  fill_slot :
      (kind : ℕ)
      → (body : Bytes) → (candidates : List (ℕ × ℕ)) → (treasury_shard_idx : ℕ)
      → (author_fee_shard_idx : ℕ) → (reply_alloc_seq : ℕ) → (reply_slot : ℕ) → (max_fee : ℕ)
      → ProgramInstruction
  prepare_alloc : (alloc_seq : ℕ) → ProgramInstruction
  sweep_treasury : (shard_indices : List ℕ) → ProgramInstruction
  sweep_author_fees : (shard_indices : Bytes) → ProgramInstruction
  close_account : ProgramInstruction
  init_settings : (treasury : ℕ) → ProgramInstruction
  set_treasury : (treasury : ℕ) → ProgramInstruction
  init_thread_access : (enabled : Bool) → (treasury_shard_idx : ℕ) → ProgramInstruction
  set_thread_access : (enabled : Bool) → ProgramInstruction
  add_to_whitelist : (wallet : ℕ) → ProgramInstruction
  remove_from_whitelist : (wallet : ℕ) → ProgramInstruction
  set_message_fee : (fee : ℕ) → ProgramInstruction
  set_base_fee : (fee_bps : ℕ) → ProgramInstruction
  set_author_fee_cut : (fee_bps : ℕ) → ProgramInstruction
  set_entry_cut : (fee_bps : ℕ) → ProgramInstruction
  set_like_cut : (fee_bps : ℕ) → ProgramInstruction
  set_like_fee : (fee : ℕ) → ProgramInstruction
  set_entry_fee : (fee : ℕ) → ProgramInstruction
  request_access : (treasury_shard_idx : ℕ) → (author_fee_shard_idx : ℕ) → ProgramInstruction
  like_content :
      (alloc_seq : ℕ)
      → (slot : ℕ) → (treasury_shard_idx : ℕ) → (author_fee_shard_idx : ℕ) → (max_fee : ℕ)
      → ProgramInstruction
  add_to_blacklist : (wallet : ℕ) → ProgramInstruction
  remove_from_blacklist : (wallet : ℕ) → ProgramInstruction
  append_content :
      (chunk : Bytes) → (treasury_shard_idx : ℕ) → (author_fee_shard_idx : ℕ) → ProgramInstruction
  set_admin : (new_admin : ℕ) → ProgramInstruction
  add_to_fee_whitelist : (wallet : ℕ) → ProgramInstruction
  remove_from_fee_whitelist : (wallet : ℕ) → ProgramInstruction
  subscribe : ProgramInstruction
  unsubscribe : ProgramInstruction

module _ (b : Borsh) where
  -- The fields of a variant behind its number.
  abbrev variant : ℕ → Bytes → Bytes
  variant n rest = (b.int 1).put n rest

  unfoldable pub put_instruction : ProgramInstruction → Bytes → Bytes
  put_instruction (create_root_alloc message_fee treasury_shard_idx title) rest =
      variant 0
        ((b.int 8).put message_fee ((b.int 2).put treasury_shard_idx ((b.vec 1).put title rest)))
  put_instruction
        (fill_slot kind body candidates treasury_shard_idx author_fee_shard_idx reply_alloc_seq
          reply_slot max_fee)
        rest =
      variant 1 (
        (b.int 2).put kind (
          (b.vec 1).put body (
            (b.vec_pair 4 1).put candidates (
              (b.int 2).put treasury_shard_idx (
                (b.int 1).put author_fee_shard_idx (
                  (b.int 4).put reply_alloc_seq
                    ((b.int 1).put reply_slot ((b.int 8).put max_fee rest))))))))
  put_instruction (prepare_alloc alloc_seq) rest = variant 2 ((b.int 4).put alloc_seq rest)
  put_instruction (sweep_treasury shard_indices) rest = variant 3 ((b.vec 2).put shard_indices rest)
  put_instruction (sweep_author_fees shard_indices) rest =
      variant 4 ((b.vec 1).put shard_indices rest)
  put_instruction close_account rest = variant 5 rest
  put_instruction (init_settings treasury) rest = variant 6 ((b.int 32).put treasury rest)
  put_instruction (set_treasury treasury) rest = variant 7 ((b.int 32).put treasury rest)
  put_instruction (init_thread_access enabled treasury_shard_idx) rest =
      variant 8 (b.bool.put enabled ((b.int 2).put treasury_shard_idx rest))
  put_instruction (set_thread_access enabled) rest = variant 9 (b.bool.put enabled rest)
  put_instruction (add_to_whitelist wallet) rest = variant 10 ((b.int 32).put wallet rest)
  put_instruction (remove_from_whitelist wallet) rest = variant 11 ((b.int 32).put wallet rest)
  put_instruction (set_message_fee fee) rest = variant 12 ((b.int 8).put fee rest)
  put_instruction (set_base_fee fee_bps) rest = variant 13 ((b.int 4).put fee_bps rest)
  put_instruction (set_author_fee_cut fee_bps) rest = variant 14 ((b.int 4).put fee_bps rest)
  put_instruction (set_entry_cut fee_bps) rest = variant 15 ((b.int 4).put fee_bps rest)
  put_instruction (set_like_cut fee_bps) rest = variant 16 ((b.int 4).put fee_bps rest)
  put_instruction (set_like_fee fee) rest = variant 17 ((b.int 8).put fee rest)
  put_instruction (set_entry_fee fee) rest = variant 18 ((b.int 8).put fee rest)
  put_instruction (request_access treasury_shard_idx author_fee_shard_idx) rest =
      variant 19 ((b.int 2).put treasury_shard_idx ((b.int 1).put author_fee_shard_idx rest))
  put_instruction (like_content alloc_seq slot treasury_shard_idx author_fee_shard_idx max_fee)
        rest =
      variant 20 (
        (b.int 4).put alloc_seq (
          (b.int 1).put slot (
            (b.int 2).put treasury_shard_idx
              ((b.int 1).put author_fee_shard_idx ((b.int 8).put max_fee rest)))))
  put_instruction (add_to_blacklist wallet) rest = variant 21 ((b.int 32).put wallet rest)
  put_instruction (remove_from_blacklist wallet) rest = variant 22 ((b.int 32).put wallet rest)
  put_instruction (append_content chunk treasury_shard_idx author_fee_shard_idx) rest = variant 23 (
      (b.vec 1).put chunk
        ((b.int 2).put treasury_shard_idx ((b.int 1).put author_fee_shard_idx rest)))
  put_instruction (set_admin new_admin) rest = variant 24 ((b.int 32).put new_admin rest)
  put_instruction (add_to_fee_whitelist wallet) rest = variant 25 ((b.int 32).put wallet rest)
  put_instruction (remove_from_fee_whitelist wallet) rest = variant 26 ((b.int 32).put wallet rest)
  put_instruction subscribe rest = variant 27 rest
  put_instruction unsubscribe rest = variant 28 rest

  abbrev get_create_root_alloc : Bytes → Option (ProgramInstruction × Bytes)
  get_create_root_alloc bytes = do
    (message_fee, r0) ← (b.int 8).get bytes
    (treasury_shard_idx, r1) ← (b.int 2).get r0
    (title, rest) ← (b.vec 1).get r1
    some (create_root_alloc message_fee treasury_shard_idx title, rest)

  abbrev get_fill_slot : Bytes → Option (ProgramInstruction × Bytes)
  get_fill_slot bytes = do
    (kind, r0) ← (b.int 2).get bytes
    (body, r1) ← (b.vec 1).get r0
    (candidates, r2) ← (b.vec_pair 4 1).get r1
    (treasury_shard_idx, r3) ← (b.int 2).get r2
    (author_fee_shard_idx, r4) ← (b.int 1).get r3
    (reply_alloc_seq, r5) ← (b.int 4).get r4
    (reply_slot, r6) ← (b.int 1).get r5
    (max_fee, rest) ← (b.int 8).get r6
    some (
      fill_slot kind body candidates treasury_shard_idx author_fee_shard_idx reply_alloc_seq
          reply_slot max_fee,
      rest,
    )

  abbrev get_prepare_alloc : Bytes → Option (ProgramInstruction × Bytes)
  get_prepare_alloc bytes = do
    (alloc_seq, rest) ← (b.int 4).get bytes
    some (prepare_alloc alloc_seq, rest)

  abbrev get_sweep_treasury : Bytes → Option (ProgramInstruction × Bytes)
  get_sweep_treasury bytes = do
    (shard_indices, rest) ← (b.vec 2).get bytes
    some (sweep_treasury shard_indices, rest)

  abbrev get_sweep_author_fees : Bytes → Option (ProgramInstruction × Bytes)
  get_sweep_author_fees bytes = do
    (shard_indices, rest) ← (b.vec 1).get bytes
    some (sweep_author_fees shard_indices, rest)

  abbrev get_init_settings : Bytes → Option (ProgramInstruction × Bytes)
  get_init_settings bytes = do
    (treasury, rest) ← (b.int 32).get bytes
    some (init_settings treasury, rest)

  abbrev get_set_treasury : Bytes → Option (ProgramInstruction × Bytes)
  get_set_treasury bytes = do
    (treasury, rest) ← (b.int 32).get bytes
    some (set_treasury treasury, rest)

  abbrev get_init_thread_access : Bytes → Option (ProgramInstruction × Bytes)
  get_init_thread_access bytes = do
    (enabled, r0) ← b.bool.get bytes
    (treasury_shard_idx, rest) ← (b.int 2).get r0
    some (init_thread_access enabled treasury_shard_idx, rest)

  abbrev get_set_thread_access : Bytes → Option (ProgramInstruction × Bytes)
  get_set_thread_access bytes = do
    (enabled, rest) ← b.bool.get bytes
    some (set_thread_access enabled, rest)

  abbrev get_add_to_whitelist : Bytes → Option (ProgramInstruction × Bytes)
  get_add_to_whitelist bytes = do
    (wallet, rest) ← (b.int 32).get bytes
    some (add_to_whitelist wallet, rest)

  abbrev get_remove_from_whitelist : Bytes → Option (ProgramInstruction × Bytes)
  get_remove_from_whitelist bytes = do
    (wallet, rest) ← (b.int 32).get bytes
    some (remove_from_whitelist wallet, rest)

  abbrev get_set_message_fee : Bytes → Option (ProgramInstruction × Bytes)
  get_set_message_fee bytes = do (fee, rest) ← (b.int 8).get bytes; some (set_message_fee fee, rest)

  abbrev get_set_base_fee : Bytes → Option (ProgramInstruction × Bytes)
  get_set_base_fee bytes = do
    (fee_bps, rest) ← (b.int 4).get bytes
    some (set_base_fee fee_bps, rest)

  abbrev get_set_author_fee_cut : Bytes → Option (ProgramInstruction × Bytes)
  get_set_author_fee_cut bytes = do
    (fee_bps, rest) ← (b.int 4).get bytes
    some (set_author_fee_cut fee_bps, rest)

  abbrev get_set_entry_cut : Bytes → Option (ProgramInstruction × Bytes)
  get_set_entry_cut bytes = do
    (fee_bps, rest) ← (b.int 4).get bytes
    some (set_entry_cut fee_bps, rest)

  abbrev get_set_like_cut : Bytes → Option (ProgramInstruction × Bytes)
  get_set_like_cut bytes = do
    (fee_bps, rest) ← (b.int 4).get bytes
    some (set_like_cut fee_bps, rest)

  abbrev get_set_like_fee : Bytes → Option (ProgramInstruction × Bytes)
  get_set_like_fee bytes = do (fee, rest) ← (b.int 8).get bytes; some (set_like_fee fee, rest)

  abbrev get_set_entry_fee : Bytes → Option (ProgramInstruction × Bytes)
  get_set_entry_fee bytes = do (fee, rest) ← (b.int 8).get bytes; some (set_entry_fee fee, rest)

  abbrev get_request_access : Bytes → Option (ProgramInstruction × Bytes)
  get_request_access bytes = do
    (treasury_shard_idx, r0) ← (b.int 2).get bytes
    (author_fee_shard_idx, rest) ← (b.int 1).get r0
    some (request_access treasury_shard_idx author_fee_shard_idx, rest)

  abbrev get_like_content : Bytes → Option (ProgramInstruction × Bytes)
  get_like_content bytes = do
    (alloc_seq, r0) ← (b.int 4).get bytes
    (slot, r1) ← (b.int 1).get r0
    (treasury_shard_idx, r2) ← (b.int 2).get r1
    (author_fee_shard_idx, r3) ← (b.int 1).get r2
    (max_fee, rest) ← (b.int 8).get r3
    some (like_content alloc_seq slot treasury_shard_idx author_fee_shard_idx max_fee, rest)

  abbrev get_add_to_blacklist : Bytes → Option (ProgramInstruction × Bytes)
  get_add_to_blacklist bytes = do
    (wallet, rest) ← (b.int 32).get bytes
    some (add_to_blacklist wallet, rest)

  abbrev get_remove_from_blacklist : Bytes → Option (ProgramInstruction × Bytes)
  get_remove_from_blacklist bytes = do
    (wallet, rest) ← (b.int 32).get bytes
    some (remove_from_blacklist wallet, rest)

  abbrev get_append_content : Bytes → Option (ProgramInstruction × Bytes)
  get_append_content bytes = do
    (chunk, r0) ← (b.vec 1).get bytes
    (treasury_shard_idx, r1) ← (b.int 2).get r0
    (author_fee_shard_idx, rest) ← (b.int 1).get r1
    some (append_content chunk treasury_shard_idx author_fee_shard_idx, rest)

  abbrev get_set_admin : Bytes → Option (ProgramInstruction × Bytes)
  get_set_admin bytes = do
    (new_admin, rest) ← (b.int 32).get bytes
    some (set_admin new_admin, rest)

  abbrev get_add_to_fee_whitelist : Bytes → Option (ProgramInstruction × Bytes)
  get_add_to_fee_whitelist bytes = do
    (wallet, rest) ← (b.int 32).get bytes
    some (add_to_fee_whitelist wallet, rest)

  abbrev get_remove_from_fee_whitelist : Bytes → Option (ProgramInstruction × Bytes)
  get_remove_from_fee_whitelist bytes = do
    (wallet, rest) ← (b.int 32).get bytes
    some (remove_from_fee_whitelist wallet, rest)

  -- Variants 20 to 28.
  unfoldable pub get_variant_20 : ℕ → Bytes → Option (ProgramInstruction × Bytes)
  get_variant_20 n bytes =
      if n == 20
      then get_like_content bytes
      else if n == 21
      then get_add_to_blacklist bytes
      else if n == 22
      then get_remove_from_blacklist bytes
      else if n == 23
      then get_append_content bytes
      else if n == 24
      then get_set_admin bytes
      else if n == 25
      then get_add_to_fee_whitelist bytes
      else if n == 26
      then get_remove_from_fee_whitelist bytes
      else if n == 27
      then some (subscribe, bytes)
      else if n == 28
      then some (unsubscribe, bytes)
      else none

  -- Variants 10 to 19.
  unfoldable pub get_variant_10 : ℕ → Bytes → Option (ProgramInstruction × Bytes)
  unfolding get_variant_20
  get_variant_10 n bytes =
      if n == 10
      then get_add_to_whitelist bytes
      else if n == 11
      then get_remove_from_whitelist bytes
      else if n == 12
      then get_set_message_fee bytes
      else if n == 13
      then get_set_base_fee bytes
      else if n == 14
      then get_set_author_fee_cut bytes
      else if n == 15
      then get_set_entry_cut bytes
      else if n == 16
      then get_set_like_cut bytes
      else if n == 17
      then get_set_like_fee bytes
      else if n == 18
      then get_set_entry_fee bytes
      else if n == 19
      then get_request_access bytes
      else get_variant_20 n bytes

  -- Variants 0 to 9.
  unfoldable pub get_variant_0 : ℕ → Bytes → Option (ProgramInstruction × Bytes)
  unfolding get_variant_10
  get_variant_0 n bytes =
      if n == 0
      then get_create_root_alloc bytes
      else if n == 1
      then get_fill_slot bytes
      else if n == 2
      then get_prepare_alloc bytes
      else if n == 3
      then get_sweep_treasury bytes
      else if n == 4
      then get_sweep_author_fees bytes
      else if n == 5
      then some (close_account, bytes)
      else if n == 6
      then get_init_settings bytes
      else if n == 7
      then get_set_treasury bytes
      else if n == 8
      then get_init_thread_access bytes
      else if n == 9
      then get_set_thread_access bytes
      else get_variant_10 n bytes

  unfoldable pub get_instruction : Bytes → Option (ProgramInstruction × Bytes)
  unfolding get_variant_0
  get_instruction bytes = do (n, fields) ← (b.int 1).get bytes; get_variant_0 n fields

  unfoldable pub program_instruction_codec : Codec ProgramInstruction
  unfolding put_instruction get_instruction
  program_instruction_codec = record { put = put_instruction; get = get_instruction }
