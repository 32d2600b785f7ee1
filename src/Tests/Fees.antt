-- ===== src/Tests/Fees.antt =====
-- A fee is divided, and bodies are stored and read back.
use txtcel_program.Base.{ℕ, ◌*◌, ◌/◌, refl, [], ◌∷◌, arith}
use txtcel_program.Base.Int.{pos}
use txtcel_program.Error.{ok}
use txtcel_program.Runtime.Hoare.{Holds}
use txtcel_program.State.Constants.{tag_content}
use txtcel_program.State.Fees.{transfer_fee_split}
use txtcel_program.State.Fees.Divided.{Divided, transfer_fee_split-Divided}
use txtcel_program.Content.Body.{BorshContentBody, TextBody}
use txtcel_program.Content.Node.{ContentHeader}
use txtcel_program.Tests.Format.{format}
use txtcel_program.Tests.World.{world, world_laws, rent_of}
use txtcel_program.Tests.Scene.{reader, author, thread_key, signer, writable, scene}

transfer_fee_split-Divided_example :
    Holds
      (λ _ b'. Divided reader 900 901 700000 (700000 * 1000 / 10000) (rent_of 0) scene b')
      (transfer_fee_split world 700000 1000 (signer reader) (writable 900) (writable 901) scene)
transfer_fee_split-Divided_example =
    transfer_fee_split-Divided world_laws refl 700000 1000 (signer reader) (writable 900)
      (writable 901) scene (omega arith) (omega arith) (λ e. omega (arith, e))
      (λ e. omega (arith, e)) (λ e. omega (arith, e))

-- A body type of one number.
abbrev rating : BorshContentBody ℕ
rating = record { codec = format.int 4; kind = 7; validate = λ n. ok tt }

abbrev header : ContentHeader
header = record {
  tag = tag_content;
  alloc_seq = 0;
  slot = 2;
  thread = thread_key;
  author = author;
  created_at = pos 1000;
  reply_alloc_seq = 0;
  reply_slot = 0;
}

abbrev hello : TextBody
hello = record { text = 104 ∷ 105 ∷ [] }
