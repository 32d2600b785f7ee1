-- ===== src/Processor/Alloc.antt =====
-- Threads and their allocation nodes (src/processor/create_root_alloc.rs, prepare_alloc.rs).
pub mod Linked
pub mod Extended
pub mod Rooted
use txtcel_program.Base.{
  ℕ, ◌==◌, ltb, not, List, [], ◌∷◌, length, to_le_bytes, checked_add, u32_mod, u64_mod,
}
use txtcel_program.Error.{text_too_long, invalid_account_data, thread_mismatch, invalid_alloc_seq}
use txtcel_program.Borsh.{Bytes}
use txtcel_program.Runtime.{Pubkey, AccountInfo, Runtime}
use txtcel_program.Runtime.Check.{lift, or_fail}
use txtcel_program.Runtime.Tx.{Tx, check, run, fail_if, next_account_info, serialize, ◌>>=◌, ◌>>◌}
use txtcel_program.State.Constants.{
  tag_alloc, tag_thread, max_title_len, alloc_seed, treasury_shard_seed,
}
use txtcel_program.State.Accounts.{alloc_node_size, thread_node_size}
use txtcel_program.State.Codecs.{alloc_node_codec, thread_node_codec}
use txtcel_program.State.Pda.{key_bytes, derive_alloc_pda}
use txtcel_program.State.Asserts.{
  assert_signer, assert_writable, assert_system_program, assert_pda, assert_uninitialized,
}
use txtcel_program.State.AccountUtils.{create_pda_account}
use txtcel_program.State.Fees.{validate_treasury_shard, ensure_shard_initialized, collect_base_fee}
use txtcel_program.State.Loaders.{load_alloc, load_thread, load_settings}

module _ (R : Runtime) (program_id : Pubkey) (accounts : List AccountInfo) where
  unfoldable pub process_create_root_alloc : ℕ → ℕ → Bytes → Tx (Unit {0})
  unfolding assert_signer assert_writable assert_system_program load_settings assert_pda
      validate_treasury_shard assert_uninitialized ensure_shard_initialized collect_base_fee
      create_pda_account serialize
  process_create_root_alloc message_fee treasury_shard_idx title = do
    fail_if (ltb max_title_len (length title)) text_too_long
    (payer, r1) ← next_account_info accounts
    (thread_account, r2) ← next_account_info r1
    (alloc_account, r3) ← next_account_info r2
    (settings_account, r4) ← next_account_info r3
    (treasury_shard, r5) ← next_account_info r4
    (system_program_account, r6) ← next_account_info r5
    check (assert_signer payer)
    check (assert_signer thread_account)
    check (assert_writable thread_account)
    check (assert_writable alloc_account)
    check (assert_writable treasury_shard)
    check (assert_system_program R system_program_account)
    let thread_key = thread_account.key
    settings ← check (load_settings R program_id settings_account)
    let (expected_alloc, alloc_bump) = derive_alloc_pda R program_id thread_key 0
    check (assert_pda alloc_account expected_alloc)
    treasury_bump ← check (validate_treasury_shard R program_id treasury_shard treasury_shard_idx)
    check (assert_uninitialized R thread_account)
    check (assert_uninitialized R alloc_account)
    ensure_shard_initialized R program_id payer treasury_shard system_program_account
        (treasury_shard_seed ∷ to_le_bytes 2 treasury_shard_idx ∷ []) treasury_bump
    rent ← check (lift R.rent)
    let thread_size = thread_node_size (length title)
    let thread_lamports = rent thread_size
    run (R.create_account payer thread_account thread_lamports thread_size program_id [])
    let alloc_lamports = rent alloc_node_size
    combined_rent ←
        check (or_fail (checked_add u64_mod thread_lamports alloc_lamports) invalid_account_data)
    collect_base_fee R combined_rent settings.base_fee_bps payer treasury_shard
    create_pda_account R program_id payer alloc_account system_program_account alloc_node_size
        (alloc_seed ∷ key_bytes thread_key ∷ to_le_bytes 4 0 ∷ (alloc_bump ∷ []) ∷ [])
    serialize (thread_node_codec R.borsh)
        (record {
          tag = tag_thread;
          alloc_count = 1;
          last_alloc_seq = 0;
          author = payer.key;
          message_fee = message_fee;
          like_fee = 0;
          title = title;
        })
        thread_account
    serialize (alloc_node_codec R.borsh)
        (record { tag = tag_alloc; thread = thread_key; alloc_seq = 0 }) alloc_account

  unfoldable pub process_prepare_alloc : ℕ → Tx (Unit {0})
  unfolding assert_signer assert_writable assert_system_program load_alloc load_thread assert_pda
      assert_uninitialized create_pda_account serialize
  process_prepare_alloc alloc_seq = do
    (payer, r1) ← next_account_info accounts
    (current_alloc_account, r2) ← next_account_info r1
    (new_alloc_account, r3) ← next_account_info r2
    (thread_account, r4) ← next_account_info r3
    (system_program_account, r5) ← next_account_info r4
    check (assert_signer payer)
    check (assert_writable current_alloc_account)
    check (assert_writable new_alloc_account)
    check (assert_writable thread_account)
    check (assert_system_program R system_program_account)
    let thread_key = thread_account.key
    current_alloc ← check (load_alloc R program_id current_alloc_account)
    fail_if (not (current_alloc.thread == thread_key)) thread_mismatch
    fail_if (not (current_alloc.alloc_seq == alloc_seq)) invalid_alloc_seq
    thread ← check (load_thread R program_id thread_account)
    fail_if (not (current_alloc.alloc_seq == thread.last_alloc_seq)) invalid_alloc_seq
    new_seq ← check (or_fail (checked_add u32_mod alloc_seq 1) invalid_account_data)
    let (expected_new, new_bump) = derive_alloc_pda R program_id thread_key new_seq
    check (assert_pda new_alloc_account expected_new)
    check (assert_uninitialized R new_alloc_account)
    create_pda_account R program_id payer new_alloc_account system_program_account alloc_node_size
        (alloc_seed ∷ key_bytes thread_key ∷ to_le_bytes 4 new_seq ∷ (new_bump ∷ []) ∷ [])
    serialize (alloc_node_codec R.borsh)
        (record { tag = tag_alloc; thread = thread_key; alloc_seq = new_seq }) new_alloc_account
    alloc_count ← check (or_fail (checked_add u32_mod thread.alloc_count 1) invalid_account_data)
    serialize (thread_node_codec R.borsh)
        (record thread { alloc_count = alloc_count; last_alloc_seq = new_seq }) thread_account
