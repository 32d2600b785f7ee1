-- ===== src/Processor/ThreadFees.antt =====
-- The author's fee setters (src/processor/set_message_fee.rs, set_like_fee.rs).
pub mod Author
use txtcel_program.Base.{ℕ, List}
use txtcel_program.Runtime.{Pubkey, AccountInfo, Runtime}
use txtcel_program.Runtime.Tx.{Tx, check, next_account_info, serialize, ◌>>=◌}
use txtcel_program.State.Codecs.{thread_node_codec}
use txtcel_program.State.Loaders.{load_author_thread}

module _ (R : Runtime) (program_id : Pubkey) (accounts : List AccountInfo) where
  unfoldable pub process_set_message_fee : ℕ → Tx (Unit {0})
  unfolding load_author_thread serialize
  process_set_message_fee fee = do
    (authority, r1) ← next_account_info accounts
    (thread_account, r2) ← next_account_info r1
    thread ← check (load_author_thread R program_id authority thread_account)
    serialize (thread_node_codec R.borsh) (record thread { message_fee = fee }) thread_account

  unfoldable pub process_set_like_fee : ℕ → Tx (Unit {0})
  unfolding load_author_thread serialize
  process_set_like_fee fee = do
    (authority, r1) ← next_account_info accounts
    (thread_account, r2) ← next_account_info r1
    thread ← check (load_author_thread R program_id authority thread_account)
    serialize (thread_node_codec R.borsh) (record thread { like_fee = fee }) thread_account
