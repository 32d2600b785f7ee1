-- ===== src/Instruction/RoundTrip.antt =====
-- Every instruction whose fields are in the range of their types is decoded from its encoding.
use txtcel_program.Base.{◌<◌, length, All, u32_mod, arith}
use txtcel_program.Borsh.{Borsh}
use txtcel_program.Borsh.Laws.{Fits, IsBorsh, RoundTrips}
use txtcel_program.Instruction.{ProgramInstruction, program_instruction_codec}

-- The fields are in the range of their types.
abbrev pub IsWireable : ProgramInstruction → Type 0
IsWireable (ProgramInstruction.create_root_alloc message_fee treasury_shard_idx title) =
    Fits 8 message_fee × Fits 2 treasury_shard_idx × (length title < u32_mod) × All (Fits 1) title
IsWireable
      (ProgramInstruction.fill_slot kind body candidates treasury_shard_idx author_fee_shard_idx
        reply_alloc_seq reply_slot max_fee) =
    Fits 2 kind
    × (length body < u32_mod)
    × All (Fits 1) body
    × (length candidates < u32_mod)
    × All (λ x. Fits 4 x.0 × Fits 1 x.1) candidates
    × Fits 2 treasury_shard_idx
    × Fits 1 author_fee_shard_idx
    × Fits 4 reply_alloc_seq
    × Fits 1 reply_slot
    × Fits 8 max_fee
IsWireable (ProgramInstruction.prepare_alloc alloc_seq) = Fits 4 alloc_seq
IsWireable (ProgramInstruction.sweep_treasury shard_indices) =
    (length shard_indices < u32_mod) × All (Fits 2) shard_indices
IsWireable (ProgramInstruction.sweep_author_fees shard_indices) =
    (length shard_indices < u32_mod) × All (Fits 1) shard_indices
IsWireable ProgramInstruction.close_account = Unit {0}
IsWireable (ProgramInstruction.init_settings treasury) = Fits 32 treasury
IsWireable (ProgramInstruction.set_treasury treasury) = Fits 32 treasury
IsWireable (ProgramInstruction.init_thread_access enabled treasury_shard_idx) =
    Fits 2 treasury_shard_idx
IsWireable (ProgramInstruction.set_thread_access enabled) = Unit {0}
IsWireable (ProgramInstruction.add_to_whitelist wallet) = Fits 32 wallet
IsWireable (ProgramInstruction.remove_from_whitelist wallet) = Fits 32 wallet
IsWireable (ProgramInstruction.set_message_fee fee) = Fits 8 fee
IsWireable (ProgramInstruction.set_base_fee fee_bps) = Fits 4 fee_bps
IsWireable (ProgramInstruction.set_author_fee_cut fee_bps) = Fits 4 fee_bps
IsWireable (ProgramInstruction.set_entry_cut fee_bps) = Fits 4 fee_bps
IsWireable (ProgramInstruction.set_like_cut fee_bps) = Fits 4 fee_bps
IsWireable (ProgramInstruction.set_like_fee fee) = Fits 8 fee
IsWireable (ProgramInstruction.set_entry_fee fee) = Fits 8 fee
IsWireable (ProgramInstruction.request_access treasury_shard_idx author_fee_shard_idx) =
    Fits 2 treasury_shard_idx × Fits 1 author_fee_shard_idx
IsWireable
      (ProgramInstruction.like_content alloc_seq slot treasury_shard_idx author_fee_shard_idx
        max_fee) =
    Fits 4 alloc_seq
    × Fits 1 slot
    × Fits 2 treasury_shard_idx
    × Fits 1 author_fee_shard_idx
    × Fits 8 max_fee
IsWireable (ProgramInstruction.add_to_blacklist wallet) = Fits 32 wallet
IsWireable (ProgramInstruction.remove_from_blacklist wallet) = Fits 32 wallet
IsWireable (ProgramInstruction.append_content chunk treasury_shard_idx author_fee_shard_idx) =
    (length chunk < u32_mod)
    × All (Fits 1) chunk
    × Fits 2 treasury_shard_idx
    × Fits 1 author_fee_shard_idx
IsWireable (ProgramInstruction.set_admin new_admin) = Fits 32 new_admin
IsWireable (ProgramInstruction.add_to_fee_whitelist wallet) = Fits 32 wallet
IsWireable (ProgramInstruction.remove_from_fee_whitelist wallet) = Fits 32 wallet
IsWireable ProgramInstruction.subscribe = Unit {0}
IsWireable ProgramInstruction.unsubscribe = Unit {0}

module _ {b : Borsh} (l : IsBorsh b) where
  -- The program reads back each instruction that a client encodes, from exactly its bytes.
  pub program_instruction_codec-RoundTrips :
      (i : ProgramInstruction) → IsWireable i → RoundTrips (program_instruction_codec b) i
  unfolding program_instruction_codec
  program_instruction_codec-RoundTrips
        (ProgramInstruction.create_root_alloc message_fee treasury_shard_idx title) h rest =
      rw (
        l.int_round 1 0 (omega arith) _,
        l.int_round 8 message_fee h.0 _,
        l.int_round 2 treasury_shard_idx h.1 _,
        l.vec_round 1 title h.2 h.3 _,
      )
  program_instruction_codec-RoundTrips
        (ProgramInstruction.fill_slot kind body candidates treasury_shard_idx author_fee_shard_idx
          reply_alloc_seq reply_slot max_fee)
        h rest =
      rw (
        l.int_round 1 1 (omega arith) _,
        l.int_round 2 kind h.0 _,
        l.vec_round 1 body h.1 h.2 _,
        l.vec_pair_round 4 1 candidates h.3 h.4 _,
        l.int_round 2 treasury_shard_idx h.5 _,
        l.int_round 1 author_fee_shard_idx h.6 _,
        l.int_round 4 reply_alloc_seq h.7 _,
        l.int_round 1 reply_slot h.8 _,
        l.int_round 8 max_fee h.9 _,
      )
  program_instruction_codec-RoundTrips (ProgramInstruction.prepare_alloc alloc_seq) h rest =
      rw (l.int_round 1 2 (omega arith) _, l.int_round 4 alloc_seq h _)
  program_instruction_codec-RoundTrips (ProgramInstruction.sweep_treasury shard_indices) h rest =
      rw (l.int_round 1 3 (omega arith) _, l.vec_round 2 shard_indices h.0 h.1 _)
  program_instruction_codec-RoundTrips (ProgramInstruction.sweep_author_fees shard_indices) h rest =
      rw (l.int_round 1 4 (omega arith) _, l.vec_round 1 shard_indices h.0 h.1 _)
  program_instruction_codec-RoundTrips ProgramInstruction.close_account h rest =
      rw (l.int_round 1 5 (omega arith) _)
  program_instruction_codec-RoundTrips (ProgramInstruction.init_settings treasury) h rest =
      rw (l.int_round 1 6 (omega arith) _, l.int_round 32 treasury h _)
  program_instruction_codec-RoundTrips (ProgramInstruction.set_treasury treasury) h rest =
      rw (l.int_round 1 7 (omega arith) _, l.int_round 32 treasury h _)
  program_instruction_codec-RoundTrips
        (ProgramInstruction.init_thread_access enabled treasury_shard_idx) h rest =
      rw (
        l.int_round 1 8 (omega arith) _,
        l.bool_round enabled _,
        l.int_round 2 treasury_shard_idx h _,
      )
  program_instruction_codec-RoundTrips (ProgramInstruction.set_thread_access enabled) h rest =
      rw (l.int_round 1 9 (omega arith) _, l.bool_round enabled _)
  program_instruction_codec-RoundTrips (ProgramInstruction.add_to_whitelist wallet) h rest =
      rw (l.int_round 1 10 (omega arith) _, l.int_round 32 wallet h _)
  program_instruction_codec-RoundTrips (ProgramInstruction.remove_from_whitelist wallet) h rest =
      rw (l.int_round 1 11 (omega arith) _, l.int_round 32 wallet h _)
  program_instruction_codec-RoundTrips (ProgramInstruction.set_message_fee fee) h rest =
      rw (l.int_round 1 12 (omega arith) _, l.int_round 8 fee h _)
  program_instruction_codec-RoundTrips (ProgramInstruction.set_base_fee fee_bps) h rest =
      rw (l.int_round 1 13 (omega arith) _, l.int_round 4 fee_bps h _)
  program_instruction_codec-RoundTrips (ProgramInstruction.set_author_fee_cut fee_bps) h rest =
      rw (l.int_round 1 14 (omega arith) _, l.int_round 4 fee_bps h _)
  program_instruction_codec-RoundTrips (ProgramInstruction.set_entry_cut fee_bps) h rest =
      rw (l.int_round 1 15 (omega arith) _, l.int_round 4 fee_bps h _)
  program_instruction_codec-RoundTrips (ProgramInstruction.set_like_cut fee_bps) h rest =
      rw (l.int_round 1 16 (omega arith) _, l.int_round 4 fee_bps h _)
  program_instruction_codec-RoundTrips (ProgramInstruction.set_like_fee fee) h rest =
      rw (l.int_round 1 17 (omega arith) _, l.int_round 8 fee h _)
  program_instruction_codec-RoundTrips (ProgramInstruction.set_entry_fee fee) h rest =
      rw (l.int_round 1 18 (omega arith) _, l.int_round 8 fee h _)
  program_instruction_codec-RoundTrips
        (ProgramInstruction.request_access treasury_shard_idx author_fee_shard_idx) h rest =
      rw (
        l.int_round 1 19 (omega arith) _,
        l.int_round 2 treasury_shard_idx h.0 _,
        l.int_round 1 author_fee_shard_idx h.1 _,
      )
  program_instruction_codec-RoundTrips
        (ProgramInstruction.like_content alloc_seq slot treasury_shard_idx author_fee_shard_idx
          max_fee)
        h rest =
      rw (
        l.int_round 1 20 (omega arith) _,
        l.int_round 4 alloc_seq h.0 _,
        l.int_round 1 slot h.1 _,
        l.int_round 2 treasury_shard_idx h.2 _,
        l.int_round 1 author_fee_shard_idx h.3 _,
        l.int_round 8 max_fee h.4 _,
      )
  program_instruction_codec-RoundTrips (ProgramInstruction.add_to_blacklist wallet) h rest =
      rw (l.int_round 1 21 (omega arith) _, l.int_round 32 wallet h _)
  program_instruction_codec-RoundTrips (ProgramInstruction.remove_from_blacklist wallet) h rest =
      rw (l.int_round 1 22 (omega arith) _, l.int_round 32 wallet h _)
  program_instruction_codec-RoundTrips
        (ProgramInstruction.append_content chunk treasury_shard_idx author_fee_shard_idx) h rest =
      rw (
        l.int_round 1 23 (omega arith) _,
        l.vec_round 1 chunk h.0 h.1 _,
        l.int_round 2 treasury_shard_idx h.2 _,
        l.int_round 1 author_fee_shard_idx h.3 _,
      )
  program_instruction_codec-RoundTrips (ProgramInstruction.set_admin new_admin) h rest =
      rw (l.int_round 1 24 (omega arith) _, l.int_round 32 new_admin h _)
  program_instruction_codec-RoundTrips (ProgramInstruction.add_to_fee_whitelist wallet) h rest =
      rw (l.int_round 1 25 (omega arith) _, l.int_round 32 wallet h _)
  program_instruction_codec-RoundTrips (ProgramInstruction.remove_from_fee_whitelist wallet) h
        rest =
      rw (l.int_round 1 26 (omega arith) _, l.int_round 32 wallet h _)
  program_instruction_codec-RoundTrips ProgramInstruction.subscribe h rest =
      rw (l.int_round 1 27 (omega arith) _)
  program_instruction_codec-RoundTrips ProgramInstruction.unsubscribe h rest =
      rw (l.int_round 1 28 (omega arith) _)
