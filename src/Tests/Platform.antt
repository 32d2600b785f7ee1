-- ===== src/Tests/Platform.antt =====
-- The entrypoint, the account encodings, the fee split and the account lifecycle, at the scene.
use txtcel_program.Base.{refl, [], ◌∷◌, ◌+◌, ◌*◌, ◌/◌, ◌≡◌, ◌≢◌, ◌⊎◌, arith}
use txtcel_program.Runtime.Hoare.{Holds}
use txtcel_program.State.AccountUtils.{create_pda_account, close_program_account}
use txtcel_program.State.AccountUtils.Effects.{Created, create_pda_account-Created}
use txtcel_program.State.AccountUtils.Closing.{Closed, close_program_account-Closed}
use txtcel_program.State.Fees.{compute_fee_split}
use txtcel_program.State.Fees.Split.{compute_fee_split-sum}
use txtcel_program.Instruction.{ProgramInstruction, program_instruction_codec}
use txtcel_program.Entrypoint.{dispatch, process_instruction}
use txtcel_program.Instruction.RoundTrip.{IsWireable}
use txtcel_program.Error.{err, invalid_instruction_data}
use txtcel_program.Entrypoint.Dispatch.{process_instruction-decided}
use txtcel_program.Tests.Format.{format, format_laws}
use txtcel_program.Tests.World.{world, world_laws, rent_of}
use txtcel_program.Tests.Scene.{program, admin, author, signer, writable, scene}

compute_fee_split-sum_example :
    let (author, platform) = compute_fee_split 12345 1000 in
    (author + platform ≡ 12345) × (platform ≡ 12345 * 1000 / 10000)
compute_fee_split-sum_example = compute_fee_split-sum 12345 1000 (omega arith) (omega arith)

create_pda_account-Created_example :
    Holds
      (λ _ b'. Created program author 900 (rent_of 66) 66 scene b')
      (create_pda_account world program
        (signer author)
        (writable 900)
        (writable 0)
        66
        ((97 ∷ []) ∷ [])
        scene)
create_pda_account-Created_example =
    create_pda_account-Created world_laws program (signer author) (writable 900) (writable 0) 66
      ((97 ∷ []) ∷ []) scene refl

close_program_account-Closed_example :
    Holds
      (λ _ b'. Closed world.system_id author 500 scene b')
      (close_program_account world (writable 500) (signer author) scene)
close_program_account-Closed_example =
    close_program_account-Closed world_laws (writable 500) (signer author) scene (omega arith)

-- There is no instruction 200.
process_instruction-decided_example :
    ((i : ProgramInstruction) × IsWireable i
      × (200 ∷ [] ≡ (program_instruction_codec format).put i [])
      × ((j : ProgramInstruction)
          → IsWireable j
          → 200 ∷ [] ≡ (program_instruction_codec format).put j []
          → j ≡ i)
      × (process_instruction world program (signer admin ∷ []) (200 ∷ []) scene
          ≡ dispatch world program (signer admin ∷ []) i scene))
    ⊎ (((i : ProgramInstruction)
          → IsWireable i
          → 200 ∷ [] ≢ (program_instruction_codec format).put i [])
        × (process_instruction world program (signer admin ∷ []) (200 ∷ []) scene
            ≡ err invalid_instruction_data))
process_instruction-decided_example =
    process_instruction-decided world format_laws program (signer admin ∷ []) scene (200 ∷ [])
