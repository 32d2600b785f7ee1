-- ===== src/Tests/Reaching.antt =====
-- The program at work from its deployment: settings, a thread with a message, a gate with one guest,
-- and a follower.
use txtcel_program.Base.{
  ◌≡◌, refl, ◌∙◌, true, List, [], ◌∷◌, ◌++◌, All, replicate, to_le_bytes, from_le_bytes, arith,
}
use txtcel_program.Base.Int.{pos}
use txtcel_program.Error.{ok}
use txtcel_program.Borsh.Laws.{Fits}
use txtcel_program.Runtime.{Pubkey, Bank, AccountInfo, Runtime}
use txtcel_program.Runtime.Tx.{◌>>=◌, serialize}
use txtcel_program.State.Accounts.{
  program_settings_size, alloc_node_size, thread_node_size, thread_access_size, access_entry_size,
  follow_registry_size, follower_shard_size,
}
use txtcel_program.State.Pda.{
  derive_settings_pda, derive_treasury_shard_pda, derive_author_fee_pda, derive_alloc_pda,
  derive_content_pda, derive_access_pda, derive_access_entry_pda, derive_follow_registry_pda,
  derive_follower_shard_pda, follower_shard_index,
}
use txtcel_program.State.Codecs.{
  program_settings_codec, thread_node_codec, alloc_node_codec, thread_access_codec,
  access_entry_codec, follow_registry_codec, follower_shard_codec,
}
use txtcel_program.State.Asserts.{is_uninitialized}
use txtcel_program.State.AccountUtils.{ensure_rent_exempt}
use txtcel_program.State.Loaders.{
  load_settings, load_thread, load_thread_access, load_admin_access, load_access_entry,
  load_bound_access_entry,
}
use txtcel_program.State.Access.{
  apply_access_entry_status, set_access_entry_status, create_access_entry, adjust_whitelist_count,
}
use txtcel_program.Content.Node.{content_node_codec, content_header_codec, content_node_size}
use txtcel_program.Instruction.{ProgramInstruction, program_instruction_codec}
use txtcel_program.Instruction.RoundTrip.{IsWireable}
use txtcel_program.Entrypoint.{dispatch}
use txtcel_program.Entrypoint.Dispatch.{process_instruction-put}
use txtcel_program.Processor.Settings.{process_init_settings}
use txtcel_program.Processor.Alloc.{process_create_root_alloc}
use txtcel_program.Processor.FillSlot.{process_fill_slot}
use txtcel_program.Processor.ThreadAccess.{process_init_thread_access}
use txtcel_program.Processor.AccessLists.{process_add_to_whitelist}
use txtcel_program.Processor.Follow.{create_registry, create_follower_shard, process_subscribe}
use txtcel_program.System.Reach.{Reach, start, instruction, at_time}
use txtcel_program.Tests.Format.{format_laws}
use txtcel_program.Tests.LittleEndian.{put_le, get_le, put_all, get_all}
use txtcel_program.Tests.World.{world, rent_of}
use txtcel_program.Tests.Scene.{
  program, admin, author, reader, settings_key, signer, writable, wallet, held, bank_of,
}

abbrev pub programdata_key : Pubkey
programdata_key = (world.find_program_address (to_le_bytes 32 program ∷ []) world.loader_id).0

-- Nobody owns anything of the program's; the admin may upgrade it.
abbrev pub genesis : Bank
genesis key = held key (
    (admin, wallet 1000000000)
    ∷ (author, wallet 1000000000)
    ∷ (reader, wallet 1000000000)
    ∷ (
      programdata_key,
      record {
        lamports = 1;
        owner = world.loader_id;
        bytes = replicate 12 0 ++ (1 ∷ to_le_bytes 32 admin);
      },
    )
    ∷ [])

abbrev pub clock : Runtime
clock = at_time world rent_of (pos 1000)

-- One instruction of a client.
reach :
    {b b' : Bank} (accounts : List AccountInfo) (i : ProgramInstruction)
    → Reach world program b
    → All (λ a. Fits 32 a.key) accounts
    → IsWireable i
    → dispatch clock program accounts i b ≡ ok (tt, b')
    → Reach world program b'
reach {b} accounts i reached keyed wired runs =
    instruction rent_of (pos 1000) accounts ((program_instruction_codec world.borsh).put i [])
      reached (ground arith) keyed
      (process_instruction-put clock format_laws program accounts i b wired ∙ runs)

genesis-Reach : Reach world program genesis
genesis-Reach = start λ key. ground arith

abbrev pub root : Pubkey
root = 510

abbrev node : AccountInfo
node = writable (derive_alloc_pda world program root 0).0

abbrev treasury_shard : AccountInfo
treasury_shard = writable (derive_treasury_shard_pda world program 5).0

abbrev fee_shard : AccountInfo
fee_shard = writable (derive_author_fee_pda world program root 1).0

abbrev pub message : AccountInfo
message = writable (derive_content_pda world program root 0 2).0

abbrev gate : AccountInfo
gate = writable (derive_access_pda world program root).0

abbrev pub entry : AccountInfo
entry = writable (derive_access_entry_pda world program root reader).0

abbrev pub registry : AccountInfo
registry = writable (derive_follow_registry_pda world program reader).0

abbrev pub follower_shard : AccountInfo
follower_shard =
    writable (derive_follower_shard_pda world program root (follower_shard_index reader)).0

abbrev for_deployment : List AccountInfo
for_deployment = signer admin ∷ writable settings_key ∷ writable programdata_key ∷ writable 0 ∷ []

abbrev deployment : ProgramInstruction
deployment = ProgramInstruction.init_settings 80

abbrev pub after_deployment : Bank
after_deployment = bank_of (dispatch clock program for_deployment deployment genesis)

pub after_deployment-Reach : Reach world program after_deployment
unfolding ◌>>=◌ serialize dispatch derive_settings_pda derive_treasury_shard_pda
    derive_author_fee_pda derive_alloc_pda derive_content_pda derive_access_pda
    derive_access_entry_pda put_le get_le put_all get_all to_le_bytes from_le_bytes is_uninitialized
    program_settings_codec process_init_settings program_settings_size thread_node_size
    alloc_node_size thread_node_codec alloc_node_codec content_node_size content_node_codec
    content_header_codec thread_access_size access_entry_size thread_access_codec
after_deployment-Reach =
    reach for_deployment deployment genesis-Reach
      (omega arith, (omega arith, (omega arith, (omega arith, tt)))) (omega arith) refl

abbrev for_thread : List AccountInfo
for_thread =
    signer author ∷ signer root ∷ node ∷ writable settings_key ∷ treasury_shard ∷ writable 0 ∷ []

abbrev thread : ProgramInstruction
thread = ProgramInstruction.create_root_alloc 5000 5 (104 ∷ [])

abbrev pub after_thread : Bank
after_thread = bank_of (dispatch clock program for_thread thread after_deployment)

pub after_thread-Reach : Reach world program after_thread
unfolding ◌>>=◌ serialize dispatch derive_settings_pda derive_treasury_shard_pda
    derive_author_fee_pda derive_alloc_pda derive_content_pda derive_access_pda
    derive_access_entry_pda put_le get_le put_all get_all to_le_bytes from_le_bytes is_uninitialized
    program_settings_codec process_create_root_alloc load_settings alloc_node_size thread_node_size
    thread_node_codec alloc_node_codec program_settings_size content_node_size content_node_codec
    content_header_codec thread_access_size access_entry_size thread_access_codec
after_thread-Reach =
    reach for_thread thread after_deployment-Reach
      (omega arith, (omega arith, (omega arith, (omega arith, (omega arith, (omega arith, tt))))))
      (omega arith, omega arith, omega arith, (omega arith, tt)) refl

abbrev for_post : List AccountInfo
for_post =
    signer author
    ∷ writable root
    ∷ writable settings_key
    ∷ treasury_shard
    ∷ fee_shard
    ∷ writable 0
    ∷ message
    ∷ gate
    ∷ writable (derive_access_entry_pda world program root author).0
    ∷ []

abbrev post : ProgramInstruction
post = ProgramInstruction.fill_slot 0 (104 ∷ 101 ∷ []) ((0, 2) ∷ []) 5 1 0 0 1000000

abbrev pub after_post : Bank
after_post = bank_of (dispatch clock program for_post post after_thread)

pub after_post-Reach : Reach world program after_post
unfolding ◌>>=◌ serialize dispatch derive_settings_pda derive_treasury_shard_pda
    derive_author_fee_pda derive_alloc_pda derive_content_pda derive_access_pda
    derive_access_entry_pda put_le get_le put_all get_all to_le_bytes from_le_bytes is_uninitialized
    program_settings_codec process_fill_slot load_thread load_settings thread_node_codec
    content_node_codec content_header_codec content_node_size program_settings_size thread_node_size
    alloc_node_size alloc_node_codec thread_access_size access_entry_size thread_access_codec
after_post-Reach =
    reach for_post post after_thread-Reach
      (
        omega arith,
        (
          omega arith,
          (
            omega arith,
            (
              omega arith,
              (omega arith, (omega arith, (omega arith, (omega arith, (omega arith, tt))))),
            ),
          ),
        ),
      )
      (
        omega arith,
        omega arith,
        (omega arith, (omega arith, tt)),
        omega arith,
        ((omega arith, omega arith), tt),
        omega arith,
        omega arith,
        omega arith,
        omega arith,
        omega arith,
      )
      refl

abbrev for_gating : List AccountInfo
for_gating = signer author ∷ writable root ∷ gate ∷ treasury_shard ∷ writable 0 ∷ []

abbrev gating : ProgramInstruction
gating = ProgramInstruction.init_thread_access true 5

abbrev pub after_gating : Bank
after_gating = bank_of (dispatch clock program for_gating gating after_post)

pub after_gating-Reach : Reach world program after_gating
unfolding ◌>>=◌ serialize dispatch derive_settings_pda derive_treasury_shard_pda
    derive_author_fee_pda derive_alloc_pda derive_content_pda derive_access_pda
    derive_access_entry_pda put_le get_le put_all get_all to_le_bytes from_le_bytes is_uninitialized
    program_settings_codec process_init_thread_access load_thread thread_node_codec
    thread_access_codec thread_access_size program_settings_size thread_node_size alloc_node_size
    alloc_node_codec content_node_size content_node_codec content_header_codec access_entry_size
after_gating-Reach =
    reach for_gating gating after_post-Reach
      (omega arith, (omega arith, (omega arith, (omega arith, (omega arith, tt))))) (omega arith)
      refl

abbrev for_listing : List AccountInfo
for_listing = signer author ∷ gate ∷ entry ∷ writable 0 ∷ []

abbrev listing : ProgramInstruction
listing = ProgramInstruction.add_to_whitelist reader

abbrev pub after_listing : Bank
after_listing = bank_of (dispatch clock program for_listing listing after_gating)

pub after_listing-Reach : Reach world program after_listing
unfolding ◌>>=◌ serialize dispatch derive_settings_pda derive_treasury_shard_pda
    derive_author_fee_pda derive_alloc_pda derive_content_pda derive_access_pda
    derive_access_entry_pda put_le get_le put_all get_all to_le_bytes from_le_bytes is_uninitialized
    program_settings_codec process_add_to_whitelist apply_access_entry_status load_admin_access
    load_thread_access set_access_entry_status create_access_entry load_bound_access_entry
    load_access_entry adjust_whitelist_count thread_access_codec access_entry_codec
    access_entry_size program_settings_size thread_node_size alloc_node_size thread_node_codec
    alloc_node_codec content_node_size content_node_codec content_header_codec thread_access_size
after_listing-Reach =
    reach for_listing listing after_gating-Reach
      (omega arith, (omega arith, (omega arith, (omega arith, tt)))) (omega arith) refl

abbrev for_following : List AccountInfo
for_following = signer reader ∷ registry ∷ follower_shard ∷ writable root ∷ writable 0 ∷ []

abbrev following : ProgramInstruction
following = ProgramInstruction.subscribe

abbrev pub after_following : Bank
after_following = bank_of (dispatch clock program for_following following after_thread)

pub after_following-Reach : Reach world program after_following
unfolding ◌>>=◌ serialize dispatch derive_settings_pda derive_treasury_shard_pda
    derive_author_fee_pda derive_alloc_pda derive_content_pda derive_access_pda
    derive_access_entry_pda put_le get_le put_all get_all to_le_bytes from_le_bytes is_uninitialized
    program_settings_codec process_subscribe load_thread thread_node_codec create_registry
    create_follower_shard follow_registry_codec follower_shard_codec follow_registry_size
    follower_shard_size derive_follow_registry_pda derive_follower_shard_pda follower_shard_index
    ensure_rent_exempt program_settings_size thread_node_size alloc_node_size alloc_node_codec
    content_node_size content_node_codec content_header_codec thread_access_size access_entry_size
    thread_access_codec
after_following-Reach =
    reach for_following following after_thread-Reach
      (omega arith, (omega arith, (omega arith, (omega arith, (omega arith, tt))))) tt refl
