-- ===== src/System/Reach.antt =====
-- The program at work: a bank in which it owns nothing yet, then instructions
-- (`process_instruction` of src/lib.rs) with any bytes and any accounts, each with the sysvars of its
-- time, and between them what the rest of the chain does.
use txtcel_program.Base.{
  ℕ, ◌≡◌, ◌≢◌, refl, sym, ◌⊎◌, inl, inr, Option, none, some, List, [], map, All, replicate,
}
use txtcel_program.Base.Int.{ℤ}
use mathlib.Core.Path.{subst}
use txtcel_program.Error.{ok}
use txtcel_program.Borsh.{Bytes}
use txtcel_program.Borsh.Laws.{Fits, FitsI64}
use txtcel_program.Runtime.{Pubkey, Bank, AccountInfo, Runtime}
use txtcel_program.Runtime.Laws.{IsRuntime}
use txtcel_program.Runtime.Tx.{check}
use txtcel_program.Runtime.Hoare.{Holds, failed, at_ok}
use txtcel_program.Runtime.Storage.{try_from_slice-some}
use txtcel_program.Instruction.{ProgramInstruction, program_instruction_codec}
use txtcel_program.Instruction.RoundTrip.{IsWireable}
use txtcel_program.Instruction.Canonical.{program_instruction_codec-Canonical}
use txtcel_program.Entrypoint.{candidate_slot, dispatch, dispatch_decoded, process_instruction}
use txtcel_program.System.Sound.{SoundBank, zeros-Sound, Sound}
use txtcel_program.System.Handlers.Settings.{
  process_init_settings-keeps, process_set_admin-keeps, process_set_treasury-keeps,
  process_set_base_fee-keeps, process_set_author_fee_cut-keeps, process_set_entry_cut-keeps,
  process_set_like_cut-keeps,
}
use txtcel_program.System.Handlers.Threads.{
  process_set_message_fee-keeps, process_set_like_fee-keeps, process_prepare_alloc-keeps,
  process_create_root_alloc-keeps,
}
use txtcel_program.System.Handlers.Gates.{
  process_request_access-keeps, process_init_thread_access-keeps, process_set_thread_access-keeps,
  process_set_entry_fee-keeps,
}
use txtcel_program.System.Handlers.Lists.{
  process_add_to_blacklist-keeps, process_add_to_whitelist-keeps,
  process_add_to_fee_whitelist-keeps, process_remove_from_blacklist-keeps,
  process_remove_from_whitelist-keeps, process_remove_from_fee_whitelist-keeps,
}
use txtcel_program.System.Handlers.Posts.{process_fill_slot-keeps}
use txtcel_program.System.Handlers.Messages.{
  process_close_account-keeps, process_append_content-keeps,
}
use txtcel_program.System.Handlers.Likes.{process_like_content-keeps}
use txtcel_program.System.Handlers.Sweeps.{
  process_sweep_treasury-keeps, process_sweep_author_fees-keeps,
}
use txtcel_program.System.Handlers.Follows.{process_subscribe-keeps, process_unsubscribe-keeps}

-- The runtime with the sysvars that an instruction finds.
abbrev pub at_time : Runtime → (ℕ → ℕ) → ℤ → Runtime
at_time R rent now = record R { rent = ok rent; unix_timestamp = ok now }

-- What others do: an account of the program keeps its data, and one that is assigned to the program
-- has none but zeros.
abbrev pub Outside : Pubkey → Bank → Bank → Type 0
Outside program_id b b' =
    (k : Pubkey)
    → (b' k).owner ≡ program_id
    → (((b k).owner ≡ program_id) × ((b' k).bytes ≡ (b k).bytes))
      ⊎ ((n : ℕ) × ((b' k).bytes ≡ replicate n 0))

pub data Reach (R : Runtime) (program_id : Pubkey) : Bank → Type 0 where
  start : {b : Bank} → ((k : Pubkey) → (b k).owner ≢ program_id) → Reach R program_id b
  instruction :
      {b b' : Bank} (rent : ℕ → ℕ) (now : ℤ) (accounts : List AccountInfo)
      (instruction_data : Bytes)
      → Reach R program_id b
      → FitsI64 now
      → All (λ a. Fits 32 a.key) accounts
      → process_instruction (at_time R rent now) program_id accounts instruction_data b
        ≡ ok (tt, b')
      → Reach R program_id b'
  outside : {b b' : Bank} → Reach R program_id b → Outside program_id b b' → Reach R program_id b'

module _ {R : Runtime} (L : IsRuntime R) (program_id : Pubkey) (ours : program_id ≢ R.system_id)
    {rent : ℕ → ℕ} (rent_ok : R.rent ≡ ok rent) {now : ℤ} (time_ok : R.unix_timestamp ≡ ok now)
    (fits_now : FitsI64 now) (accounts : List AccountInfo)
    (keyed : All (λ a. Fits 32 a.key) accounts) (b : Bank) (h : SoundBank R program_id b) where
  dispatch-keeps :
      (i : ProgramInstruction)
      → IsWireable i
      → Holds (λ _ b'. SoundBank R program_id b') (dispatch R program_id accounts i b)
  unfolding dispatch
  dispatch-keeps (ProgramInstruction.create_root_alloc message_fee treasury_shard_idx title) w =
      process_create_root_alloc-keeps L program_id accounts keyed b h rent_ok message_fee
        treasury_shard_idx title w.0 w.3
  dispatch-keeps
        (ProgramInstruction.fill_slot kind body candidates treasury_shard_idx author_fee_shard_idx
          reply_alloc_seq reply_slot max_fee)
        w =
      process_fill_slot-keeps L program_id accounts keyed b h rent_ok time_ok fits_now _
        (map candidate_slot candidates) treasury_shard_idx author_fee_shard_idx
        (record { kind = w.0; body = w.2; reply_alloc_seq = w.7; reply_slot = w.8 })
  dispatch-keeps (ProgramInstruction.prepare_alloc alloc_seq) w =
      process_prepare_alloc-keeps L program_id accounts keyed b h rent_ok alloc_seq
  dispatch-keeps (ProgramInstruction.sweep_treasury shard_indices) w =
      process_sweep_treasury-keeps R program_id accounts keyed b h rent_ok shard_indices
  dispatch-keeps (ProgramInstruction.sweep_author_fees shard_indices) w =
      process_sweep_author_fees-keeps R program_id accounts keyed b h rent_ok shard_indices
  dispatch-keeps ProgramInstruction.close_account w =
      process_close_account-keeps L program_id accounts keyed b h ours
  dispatch-keeps (ProgramInstruction.init_settings treasury) w =
      process_init_settings-keeps L program_id accounts keyed b h treasury rent_ok w
  dispatch-keeps (ProgramInstruction.set_treasury treasury) w =
      process_set_treasury-keeps L program_id accounts keyed b h treasury w
  dispatch-keeps (ProgramInstruction.init_thread_access enabled treasury_shard_idx) w =
      process_init_thread_access-keeps L program_id rent_ok accounts keyed b h enabled
        treasury_shard_idx
  dispatch-keeps (ProgramInstruction.set_thread_access enabled) w =
      process_set_thread_access-keeps L program_id accounts keyed b h enabled
  dispatch-keeps (ProgramInstruction.add_to_whitelist wallet) w =
      process_add_to_whitelist-keeps L program_id rent_ok ours accounts keyed b h wallet w
  dispatch-keeps (ProgramInstruction.remove_from_whitelist wallet) w =
      process_remove_from_whitelist-keeps L program_id rent_ok ours accounts keyed b h wallet
  dispatch-keeps (ProgramInstruction.set_message_fee fee) w =
      process_set_message_fee-keeps L program_id accounts keyed b h fee w
  dispatch-keeps (ProgramInstruction.set_base_fee fee_bps) w =
      process_set_base_fee-keeps L program_id accounts keyed b h fee_bps
  dispatch-keeps (ProgramInstruction.set_author_fee_cut fee_bps) w =
      process_set_author_fee_cut-keeps L program_id accounts keyed b h fee_bps
  dispatch-keeps (ProgramInstruction.set_entry_cut fee_bps) w =
      process_set_entry_cut-keeps L program_id accounts keyed b h fee_bps
  dispatch-keeps (ProgramInstruction.set_like_cut fee_bps) w =
      process_set_like_cut-keeps L program_id accounts keyed b h fee_bps
  dispatch-keeps (ProgramInstruction.set_like_fee fee) w =
      process_set_like_fee-keeps L program_id accounts keyed b h fee w
  dispatch-keeps (ProgramInstruction.set_entry_fee fee) w =
      process_set_entry_fee-keeps L program_id accounts keyed b h fee
  dispatch-keeps (ProgramInstruction.request_access treasury_shard_idx author_fee_shard_idx) w =
      process_request_access-keeps L program_id rent_ok ours accounts keyed b h treasury_shard_idx
        author_fee_shard_idx
  dispatch-keeps
        (ProgramInstruction.like_content alloc_seq slot treasury_shard_idx author_fee_shard_idx
          max_fee)
        w =
      process_like_content-keeps L program_id accounts keyed b h rent_ok alloc_seq slot
        treasury_shard_idx author_fee_shard_idx max_fee
  dispatch-keeps (ProgramInstruction.add_to_blacklist wallet) w =
      process_add_to_blacklist-keeps L program_id rent_ok ours accounts keyed b h wallet w
  dispatch-keeps (ProgramInstruction.remove_from_blacklist wallet) w =
      process_remove_from_blacklist-keeps L program_id rent_ok ours accounts keyed b h wallet
  dispatch-keeps (ProgramInstruction.append_content chunk treasury_shard_idx author_fee_shard_idx)
        w =
      process_append_content-keeps L program_id accounts keyed b h rent_ok chunk treasury_shard_idx
        author_fee_shard_idx time_ok w.1
  dispatch-keeps (ProgramInstruction.set_admin new_admin) w =
      process_set_admin-keeps L program_id accounts keyed b h new_admin w
  dispatch-keeps (ProgramInstruction.add_to_fee_whitelist wallet) w =
      process_add_to_fee_whitelist-keeps L program_id rent_ok ours accounts keyed b h wallet w
  dispatch-keeps (ProgramInstruction.remove_from_fee_whitelist wallet) w =
      process_remove_from_fee_whitelist-keeps L program_id rent_ok ours accounts keyed b h wallet
  dispatch-keeps ProgramInstruction.subscribe w =
      process_subscribe-keeps L program_id rent_ok accounts keyed b h
  dispatch-keeps ProgramInstruction.unsubscribe w =
      process_unsubscribe-keeps L program_id rent_ok accounts keyed b h

  process_instruction-keeps :
      (instruction_data : Bytes)
      → Holds
          (λ _ b'. SoundBank R program_id b')
          (process_instruction R program_id accounts instruction_data b)
  unfolding process_instruction dispatch_decoded check
  process_instruction-keeps instruction_data = go _ λ i e.
      try_from_slice-some (program_instruction_codec R.borsh)
        (program_instruction_codec-Canonical L.is_borsh) instruction_data i e
    where
      go :
          (decoded : Option ProgramInstruction)
          → ((i : ProgramInstruction)
              → decoded ≡ some i
              → (instruction_data ≡ (program_instruction_codec R.borsh).put i []) × IsWireable i)
          → Holds
              (λ _ b'. SoundBank R program_id b')
              (dispatch_decoded R program_id accounts decoded b)
      go none known = failed
      go (some i) known = dispatch-keeps i (known i refl).1

module _ {R : Runtime} (L : IsRuntime R) (program_id : Pubkey)
    (ours : program_id ≢ R.system_id) where
  at_time-IsRuntime : (rent : ℕ → ℕ) (now : ℤ) → IsRuntime (at_time R rent now)
  at_time-IsRuntime rent now = record {
    is_borsh = L.is_borsh;
    transfer_ok = L.transfer_ok;
    create_account_ok = L.create_account_ok;
    allocate_ok = L.allocate_ok;
    assign_ok = L.assign_ok;
    resize_ok = L.resize_ok;
  }

  Outside-keeps :
      (b b' : Bank) → SoundBank R program_id b → Outside program_id b b' → SoundBank R program_id b'
  Outside-keeps b b' h step k here owned = elim (step k owned) [
    | inl (ours, same) ↦ subst (Sound R.borsh) (sym same) (h k here ours)
    | inr (n, zeros) ↦ subst (Sound R.borsh) (sym zeros) (zeros-Sound L.is_borsh n)
  ]

  -- In every bank that the program and the rest of the chain reach, from one in which the program owns
  -- nothing, the data of each account of the program is sound.
  pub Reach-SoundBank : {b : Bank} → Reach R program_id b → SoundBank R program_id b
  Reach-SoundBank (start nothing) = λ k here owned. absurd (nothing k owned)
  Reach-SoundBank (outside {b} {b'} r step) = Outside-keeps b b' (Reach-SoundBank r) step
  Reach-SoundBank (instruction {b} {b'} rent now accounts instruction_data r fits keyed e) =
      at_ok
        (process_instruction-keeps (at_time-IsRuntime rent now) program_id ours refl refl fits
          accounts keyed b (Reach-SoundBank r) instruction_data)
        e
