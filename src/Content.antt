-- ===== src/Content.antt =====
-- Typed access to content nodes, and loading one from an account (src/content/mod.rs). The node
-- itself is in `Node`, and what src/content/body.rs says of kinds and bodies in `Body`.
pub mod Body
pub mod Node
pub mod Facts
pub mod Typed
use txtcel_program.Base.{ℕ, ◌==◌, if◌then◌else◌, not}
use txtcel_program.Error.{from_protocol, invalid_tag, Result, ok, err}
use txtcel_program.Borsh.{try_from_slice}
use txtcel_program.Runtime.{Pubkey, AccountInfo, Runtime}
use txtcel_program.Runtime.Check.{Check, pure, fail_if, and_then, ◌>>=◌, ◌>>◌}
use txtcel_program.State.Constants.{tag_content}
use txtcel_program.State.Pda.{derive_content_pda}
use txtcel_program.State.Asserts.{assert_owned_by, assert_pda}
use txtcel_program.State.Loaders.{decoded}
use Body.{ContentBody, ContentKind, from_u16}
use Node.{ContentHeader, ContentNode, content_node_codec}

-- `ContentNode::from_body`, `content_kind` and `decode_body`
unfoldable pub node_from_body :
    {T : Type 0} → ContentBody T → ContentHeader → T → Result ContentNode
node_from_body i header body = and_then (i.validate body) (λ _.
    and_then (i.to_body body)
      (λ bytes. ok (record { header = header; kind = i.kind; body = bytes })))

unfoldable pub content_kind : ContentNode → ContentKind
unfolding from_u16
content_kind node = from_u16 node.kind

unfoldable pub decode_body : {T : Type 0} → ContentBody T → ContentNode → Result T
decode_body i node =
    if not (node.kind == i.kind) then err (from_protocol invalid_tag) else i.from_body node.body

module _ (R : Runtime) where
  unfoldable pub load_content : Pubkey → AccountInfo → Check ContentNode
  unfolding assert_owned_by assert_pda
  load_content program_id account = do
    assert_owned_by account program_id
    content ← decoded (try_from_slice (content_node_codec R.borsh)) account
    fail_if (not (content.header.tag == tag_content)) invalid_tag
    let h = content.header
    let expected = (derive_content_pda R program_id h.thread h.alloc_seq h.slot).0
    assert_pda account expected
    pure content
