-- ===== src/Error.antt =====
-- Error codes (src/error.rs): the protocol's errors, the runtime's, and the conversion.
use txtcel_program.Base.{ℕ}

-- `enum ProtocolError`, in the order of the source.
pub data ProtocolError : Type 0 where
  missing_signer : ProtocolError
  not_writable : ProtocolError
  invalid_tag : ProtocolError
  text_too_long : ProtocolError
  alloc_already_linked : ProtocolError
  slot_already_used : ProtocolError
  invalid_candidate_count : ProtocolError
  account_owner_mismatch : ProtocolError
  account_already_initialized : ProtocolError
  invalid_account_data : ProtocolError
  no_free_slot : ProtocolError
  invalid_shard : ProtocolError
  thread_mismatch : ProtocolError
  invalid_pda : ProtocolError
  unauthorized : ProtocolError
  invalid_treasury : ProtocolError
  invalid_program_account : ProtocolError
  access_denied : ProtocolError
  access_list_full : ProtocolError
  access_list_duplicate : ProtocolError
  access_list_missing : ProtocolError
  missing_access_account : ProtocolError
  invalid_fee_bps : ProtocolError
  invalid_author : ProtocolError
  zero_entry_fee : ProtocolError
  invalid_slot : ProtocolError
  access_list_conflict : ProtocolError
  invalid_alloc_seq : ProtocolError
  nothing_to_sweep : ProtocolError
  append_window_expired : ProtocolError
  fee_exceeds_max : ProtocolError
  already_following : ProtocolError
  not_following : ProtocolError
  follow_list_full : ProtocolError

-- The explicit discriminants of `#[repr(u32)]`; 24 is retired.
abbrev pub discriminant : ProtocolError → ℕ
discriminant missing_signer = 0
discriminant not_writable = 1
discriminant invalid_tag = 2
discriminant text_too_long = 3
discriminant alloc_already_linked = 4
discriminant slot_already_used = 5
discriminant invalid_candidate_count = 6
discriminant account_owner_mismatch = 7
discriminant account_already_initialized = 8
discriminant invalid_account_data = 9
discriminant no_free_slot = 10
discriminant invalid_shard = 11
discriminant thread_mismatch = 12
discriminant invalid_pda = 13
discriminant unauthorized = 14
discriminant invalid_treasury = 15
discriminant invalid_program_account = 16
discriminant access_denied = 17
discriminant access_list_full = 18
discriminant access_list_duplicate = 19
discriminant access_list_missing = 20
discriminant missing_access_account = 21
discriminant invalid_fee_bps = 22
discriminant invalid_author = 23
discriminant zero_entry_fee = 25
discriminant invalid_slot = 26
discriminant access_list_conflict = 27
discriminant invalid_alloc_seq = 28
discriminant nothing_to_sweep = 29
discriminant append_window_expired = 30
discriminant fee_exceeds_max = 31
discriminant already_following = 32
discriminant not_following = 33
discriminant follow_list_full = 34

-- The part of Solana's `ProgramError` that the program returns or passes on. `external` stands for
-- an error of the System Program or of a sysvar, `panicked` for an aborted instruction.
pub data ProgramError : Type 0 where
  custom : ℕ → ProgramError
  not_enough_account_keys : ProgramError
  incorrect_program_id : ProgramError
  invalid_instruction_data : ProgramError
  borsh_io_error : ProgramError
  external : ℕ → ProgramError
  panicked : ProgramError

-- `impl From<ProtocolError> for ProgramError`
abbrev pub from_protocol : ProtocolError → ProgramError
from_protocol e = custom (discriminant e)

pub data Result (A : Type 0) : Type 0 where
  ok : A → Result A
  err : ProgramError → Result A
