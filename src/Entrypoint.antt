-- ===== src/Entrypoint.antt =====
-- The entrypoint: decoding and dispatch (src/lib.rs).
pub mod Dispatch
use txtcel_program.Base.{ℕ, Option, none, some, List, map}
use txtcel_program.Error.{invalid_instruction_data}
use txtcel_program.Borsh.{Bytes, try_from_slice}
use txtcel_program.Runtime.{Pubkey, AccountInfo, Runtime}
use txtcel_program.Runtime.Check.{raise}
use txtcel_program.Runtime.Tx.{Tx, check}
use txtcel_program.State.Accounts.{CandidateSlot}
use txtcel_program.Instruction.{ProgramInstruction, program_instruction_codec}
use txtcel_program.Processor.Alloc.{process_create_root_alloc, process_prepare_alloc}
use txtcel_program.Processor.FillSlot.{process_fill_slot}
use txtcel_program.Processor.Sweep.{process_sweep_treasury, process_sweep_author_fees}
use txtcel_program.Processor.CloseAccount.{process_close_account}
use txtcel_program.Processor.Settings.{
  process_init_settings, process_set_treasury, process_set_base_fee, process_set_author_fee_cut,
  process_set_entry_cut, process_set_like_cut, process_set_admin,
}
use txtcel_program.Processor.ThreadAccess.{
  process_init_thread_access, process_set_thread_access, process_set_entry_fee,
  process_request_access,
}
use txtcel_program.Processor.AccessLists.{
  process_add_to_whitelist, process_remove_from_whitelist, process_add_to_blacklist,
  process_remove_from_blacklist, process_add_to_fee_whitelist, process_remove_from_fee_whitelist,
}
use txtcel_program.Processor.ThreadFees.{process_set_message_fee, process_set_like_fee}
use txtcel_program.Processor.LikeContent.{process_like_content}
use txtcel_program.Processor.AppendContent.{process_append_content}
use txtcel_program.Processor.Follow.{process_subscribe, process_unsubscribe}

abbrev pub candidate_slot : ℕ × ℕ → CandidateSlot
candidate_slot (alloc_seq, slot) = record { alloc_seq = alloc_seq; slot = slot }

module _ (R : Runtime) (program_id : Pubkey) (accounts : List AccountInfo) where
  -- The arms of the `match`.
  unfoldable pub dispatch : ProgramInstruction → Tx (Unit {0})
  unfolding process_create_root_alloc process_fill_slot process_prepare_alloc process_sweep_treasury
      process_sweep_author_fees process_close_account process_init_settings process_set_treasury
      process_init_thread_access process_set_thread_access process_add_to_whitelist
      process_remove_from_whitelist process_set_message_fee process_set_base_fee
      process_set_author_fee_cut process_set_entry_cut process_set_like_cut process_set_like_fee
      process_set_entry_fee process_request_access process_like_content process_add_to_blacklist
      process_remove_from_blacklist process_append_content process_set_admin
      process_add_to_fee_whitelist process_remove_from_fee_whitelist process_subscribe
      process_unsubscribe
  dispatch (ProgramInstruction.create_root_alloc message_fee treasury_shard_idx title) =
      process_create_root_alloc R program_id accounts message_fee treasury_shard_idx title
  dispatch
        (ProgramInstruction.fill_slot kind body candidates treasury_shard_idx author_fee_shard_idx
          reply_alloc_seq reply_slot max_fee) =
      process_fill_slot R program_id accounts
        (record {
          kind = kind;
          body = body;
          reply_alloc_seq = reply_alloc_seq;
          reply_slot = reply_slot;
          max_fee = max_fee;
        })
        (map candidate_slot candidates) treasury_shard_idx author_fee_shard_idx
  dispatch (ProgramInstruction.prepare_alloc alloc_seq) =
      process_prepare_alloc R program_id accounts alloc_seq
  dispatch (ProgramInstruction.sweep_treasury shard_indices) =
      process_sweep_treasury R program_id accounts shard_indices
  dispatch (ProgramInstruction.sweep_author_fees shard_indices) =
      process_sweep_author_fees R program_id accounts shard_indices
  dispatch ProgramInstruction.close_account = process_close_account R program_id accounts
  dispatch (ProgramInstruction.init_settings treasury) =
      process_init_settings R program_id accounts treasury
  dispatch (ProgramInstruction.set_treasury treasury) =
      process_set_treasury R program_id accounts treasury
  dispatch (ProgramInstruction.init_thread_access enabled treasury_shard_idx) =
      process_init_thread_access R program_id accounts enabled treasury_shard_idx
  dispatch (ProgramInstruction.set_thread_access enabled) =
      process_set_thread_access R program_id accounts enabled
  dispatch (ProgramInstruction.add_to_whitelist wallet) =
      process_add_to_whitelist R program_id accounts wallet
  dispatch (ProgramInstruction.remove_from_whitelist wallet) =
      process_remove_from_whitelist R program_id accounts wallet
  dispatch (ProgramInstruction.set_message_fee fee) =
      process_set_message_fee R program_id accounts fee
  dispatch (ProgramInstruction.set_base_fee fee_bps) =
      process_set_base_fee R program_id accounts fee_bps
  dispatch (ProgramInstruction.set_author_fee_cut fee_bps) =
      process_set_author_fee_cut R program_id accounts fee_bps
  dispatch (ProgramInstruction.set_entry_cut fee_bps) =
      process_set_entry_cut R program_id accounts fee_bps
  dispatch (ProgramInstruction.set_like_cut fee_bps) =
      process_set_like_cut R program_id accounts fee_bps
  dispatch (ProgramInstruction.set_like_fee fee) = process_set_like_fee R program_id accounts fee
  dispatch (ProgramInstruction.set_entry_fee fee) = process_set_entry_fee R program_id accounts fee
  dispatch (ProgramInstruction.request_access treasury_shard_idx author_fee_shard_idx) =
      process_request_access R program_id accounts treasury_shard_idx author_fee_shard_idx
  dispatch
        (ProgramInstruction.like_content alloc_seq slot treasury_shard_idx author_fee_shard_idx
          max_fee) =
      process_like_content R program_id accounts alloc_seq slot treasury_shard_idx
        author_fee_shard_idx max_fee
  dispatch (ProgramInstruction.add_to_blacklist wallet) =
      process_add_to_blacklist R program_id accounts wallet
  dispatch (ProgramInstruction.remove_from_blacklist wallet) =
      process_remove_from_blacklist R program_id accounts wallet
  dispatch (ProgramInstruction.append_content chunk treasury_shard_idx author_fee_shard_idx) =
      process_append_content R program_id accounts chunk treasury_shard_idx author_fee_shard_idx
  dispatch (ProgramInstruction.set_admin new_admin) =
      process_set_admin R program_id accounts new_admin
  dispatch (ProgramInstruction.add_to_fee_whitelist wallet) =
      process_add_to_fee_whitelist R program_id accounts wallet
  dispatch (ProgramInstruction.remove_from_fee_whitelist wallet) =
      process_remove_from_fee_whitelist R program_id accounts wallet
  dispatch ProgramInstruction.subscribe = process_subscribe R program_id accounts
  dispatch ProgramInstruction.unsubscribe = process_unsubscribe R program_id accounts

  unfoldable pub dispatch_decoded : Option ProgramInstruction → Tx (Unit {0})
  unfolding dispatch
  dispatch_decoded none = check (raise invalid_instruction_data)
  dispatch_decoded (some instruction) = dispatch instruction

  unfoldable pub process_instruction : Bytes → Tx (Unit {0})
  unfolding dispatch_decoded program_instruction_codec
  process_instruction instruction_data =
      dispatch_decoded (try_from_slice (program_instruction_codec R.borsh) instruction_data)
