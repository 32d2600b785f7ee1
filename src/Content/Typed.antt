-- ===== src/Content/Typed.antt =====
-- Typed bodies survive storage in a node (`ContentNode::from_body` and `decode_body` of
-- src/content/mod.rs, over the body types of src/content/body.rs).
use txtcel_program.Base.{◌≡◌}
use txtcel_program.Error.{ok}
use txtcel_program.Content.{node_from_body, decode_body}
use txtcel_program.Content.Body.{ContentBody}
use txtcel_program.Content.Node.{ContentHeader, ContentNode}

-- The node that a body is put into is read back as that body.
abbrev pub ReadsBack : {T : Type 0} → ContentBody T → ContentHeader → T → Type 0
ReadsBack i header x =
    (n : ContentNode) × (node_from_body i header x ≡ ok n)
    × (n.header ≡ header)
    × (decode_body i n ≡ ok x)
