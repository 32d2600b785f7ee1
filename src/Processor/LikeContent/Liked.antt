-- ===== src/Processor/LikeContent/Liked.antt =====
-- Liking a message, from the accounts passed to the counter (src/processor/like_content.rs).
use txtcel_program.Base.{ℕ, ◌+◌, ◌-◌, ◌≤◌, ◌≡◌, ◌≢◌, true, min, u32_mod}
use txtcel_program.Error.{ok}
use txtcel_program.Runtime.{Pubkey, Bank, AccountInfo, Runtime}
use txtcel_program.State.Accounts.{ThreadNode}
use txtcel_program.State.Pda.{derive_content_pda}
use txtcel_program.State.Loaders.{load_thread}
use txtcel_program.Content.{load_content}
use txtcel_program.Content.Node.{ContentNode}
use txtcel_program.Processor.LikeContent.Views.{likes_at}

-- A signer liked the thread's message in the slot.
pub record Liked (R : Runtime) (program_id : Pubkey)
    (payer likes_account content_account thread_account : AccountInfo) (alloc_seq slot max_fee : ℕ)
    (b b' : Bank) : Type 0 where
  pub content : ContentNode
  pub thread : ThreadNode
  pub signed : payer.is_signer ≡ true
  pub message : load_content R program_id content_account b ≡ ok content
  pub address :
      content_account.key ≡ (derive_content_pda R program_id thread_account.key alloc_seq slot).0
  pub of_thread : load_thread R program_id thread_account b ≡ ok thread
  pub capped : payer.key ≢ content.header.author → thread.like_fee ≤ max_fee
  pub liked :
      likes_at R likes_account slot b' ≡ min (likes_at R likes_account slot b + 1) (u32_mod - 1)
  pub others : (i : ℕ) → i ≢ slot → likes_at R likes_account i b' ≡ likes_at R likes_account i b
