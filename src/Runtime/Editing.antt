-- ===== src/Runtime/Editing.antt =====
-- An account that its controller edits.
use txtcel_program.Base.{◌≡◌, ◌≢◌, true}
use txtcel_program.Error.{ok}
use txtcel_program.Runtime.{Pubkey, Bank, AccountInfo}
use txtcel_program.Runtime.Check.{Check}

-- The controller signed, what the account is loaded as is edited by `edit`, and nothing else changes.
pub record Edited {A : Type 0} (load : AccountInfo → Check A) (controller : A → Pubkey)
    (authority account : AccountInfo) (edit : A → A) (b b' : Bank) : Type 0 where
  pub old : A
  pub signed : authority.is_signer ≡ true
  pub loaded : load account b ≡ ok old
  pub by_controller : controller old ≡ authority.key
  pub stored : load account b' ≡ ok (edit old)
  pub lamports : (b' account.key).lamports ≡ (b account.key).lamports
  pub others : (k : Pubkey) → k ≢ account.key → b' k ≡ b k
