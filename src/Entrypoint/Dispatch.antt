-- ===== src/Entrypoint/Dispatch.antt =====
-- An encoded instruction reaches its handler (src/lib.rs).
use txtcel_program.Base.{◌≡◌, ◌≢◌, ◌⊎◌, inl, inr, refl, some, Option-cases, [], List}
use txtcel_program.Error.{err, invalid_instruction_data}
use txtcel_program.Borsh.Laws.{IsBorsh}
use txtcel_program.Runtime.{Pubkey, AccountInfo, Bank, Runtime}
use txtcel_program.Runtime.Storage.{try_from_slice-put, try_from_slice-some}
use txtcel_program.Runtime.Tx.{check}
use txtcel_program.Borsh.{Bytes, try_from_slice}
use txtcel_program.Instruction.{ProgramInstruction, program_instruction_codec}
use txtcel_program.Instruction.RoundTrip.{IsWireable, program_instruction_codec-RoundTrips}
use txtcel_program.Instruction.Canonical.{program_instruction_codec-Canonical}
use txtcel_program.Entrypoint.{dispatch, dispatch_decoded, process_instruction}

-- For every instruction whose fields are in the range of their types, its Borsh encoding is decoded
-- by the entrypoint and runs the handler of that instruction with those fields.
pub process_instruction-put :
    (R : Runtime) (l : IsBorsh R.borsh) (program_id : Pubkey) (accounts : List AccountInfo)
    (i : ProgramInstruction) (b : Bank)
    → IsWireable i
    → process_instruction R program_id accounts ((program_instruction_codec R.borsh).put i []) b
      ≡ dispatch R program_id accounts i b
unfolding process_instruction dispatch_decoded
process_instruction-put R l program_id accounts i b fits =
    rw
      (try_from_slice-put (program_instruction_codec R.borsh) i
        (program_instruction_codec-RoundTrips l i fits))
      refl

module _ (R : Runtime) (l : IsBorsh R.borsh) (program_id : Pubkey) (accounts : List AccountInfo)
    (b : Bank) where
  -- Any bytes at all are either the encoding of an instruction in the range of its types, which is the
  -- only one with that encoding and whose handler runs, or of none, and then the entrypoint fails with
  -- `InvalidInstructionData`, whatever the accounts.
  pub process_instruction-decided :
      (instruction_data : Bytes)
      → ((i : ProgramInstruction) × IsWireable i
          × (instruction_data ≡ (program_instruction_codec R.borsh).put i [])
          × ((j : ProgramInstruction)
              → IsWireable j
              → instruction_data ≡ (program_instruction_codec R.borsh).put j []
              → j ≡ i)
          × (process_instruction R program_id accounts instruction_data b
              ≡ dispatch R program_id accounts i b))
        ⊎ (((i : ProgramInstruction)
              → IsWireable i
              → instruction_data ≢ (program_instruction_codec R.borsh).put i [])
            × (process_instruction R program_id accounts instruction_data b
                ≡ err invalid_instruction_data))
  unfolding process_instruction dispatch_decoded check
  process_instruction-decided instruction_data =
      let c = program_instruction_codec R.borsh in
      let known : (j : ProgramInstruction)
          → IsWireable j
          → instruction_data ≡ c.put j []
          → try_from_slice c instruction_data ≡ some j =
        λ j w e. rw e (try_from_slice-put c j (program_instruction_codec-RoundTrips l j w)) in
      elim (Option-cases (try_from_slice c instruction_data)) [
        | inl gone ↦ inr (λ i w e. let found = known i w e in cc, rw gone)
        | inr (i, found) ↦
            let (same, wired) =
              try_from_slice-some c (program_instruction_codec-Canonical l) instruction_data i
                found in
            inl (i, wired, same, λ j w e. let other = known j w e in cc, rw found)
      ]
