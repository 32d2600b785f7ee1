-- ===== src/Content/Facts.antt =====
-- What `load_content` of src/content/mod.rs has checked when it returns, and when it returns.
use txtcel_program.Base.{◌≡◌, ◌↔◌, some, arith}
use txtcel_program.Error.{ok}
use txtcel_program.Borsh.{try_from_slice}
use txtcel_program.Runtime.{Pubkey, Bank, AccountInfo, Runtime}
use txtcel_program.State.Constants.{tag_content}
use txtcel_program.State.Pda.{derive_content_pda}
use txtcel_program.Content.{load_content}
use txtcel_program.Content.Node.{ContentNode, content_node_codec}

pub load_content_iff :
    (R : Runtime) (program_id : Pubkey) (account : AccountInfo) (b : Bank) (c : ContentNode)
    → (load_content R program_id account b ≡ ok c) ↔ (
        ((b account.key).owner ≡ program_id)
        × (try_from_slice (content_node_codec R.borsh) (b account.key).bytes ≡ some c)
        × (c.header.tag ≡ tag_content)
        × (account.key
            ≡ (derive_content_pda R program_id c.header.thread c.header.alloc_seq c.header.slot).0))
unfolding load_content
load_content_iff R program_id account b c = (ground arith, ground arith)
