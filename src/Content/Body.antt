-- ===== src/Content/Body.antt =====
-- Message bodies (src/content/body.rs): kinds, the interface of a body type, and text.
pub mod Kinds
use txtcel_program.Base.{
  ℕ, ltb, ◌==◌, if◌then◌else◌, Bool, true, false, Option, none, some, [], length,
}
use txtcel_program.Error.{from_protocol, invalid_account_data, text_too_long, Result, ok, err}
use txtcel_program.Borsh.{Bytes, Codec, try_from_slice}
use txtcel_program.State.Constants.{max_body_len}

abbrev pub kind_text : ℕ
kind_text = 0

pub data ContentKind : Type 0 where
  text : ContentKind
  unknown : ℕ → ContentKind

unfoldable pub from_u16 : ℕ → ContentKind
from_u16 value = if value == kind_text then text else unknown value

unfoldable pub to_u16 : ContentKind → ℕ
to_u16 text = kind_text
to_u16 (unknown value) = value

unfoldable pub is_known : ContentKind → Bool
is_known text = true
is_known (unknown value) = false

-- `trait ContentBody`
pub record ContentBody (T : Type 0) : Type 0 where
  pub kind : ℕ
  pub to_body : T → Result Bytes
  pub from_body : Bytes → Result T
  pub validate : T → Result (Unit {0})

-- `trait BorshContentBody`, whose default validation accepts everything.
pub record BorshContentBody (T : Type 0) : Type 0 where
  pub codec : Codec T
  pub kind : ℕ
  pub validate : T → Result (Unit {0})

abbrev ok_or_invalid : {T : Type 0} → Option T → Result T
ok_or_invalid none = err (from_protocol invalid_account_data)
ok_or_invalid (some x) = ok x

-- `impl<T: BorshContentBody> ContentBody for T`; an encoding into memory does not fail.
unfoldable pub borsh_content_body : {T : Type 0} → BorshContentBody T → ContentBody T
borsh_content_body i = record {
  kind = i.kind;
  to_body = λ x. ok (i.codec.put x []);
  from_body = λ body. ok_or_invalid (try_from_slice i.codec body);
  validate = i.validate;
}

pub record TextBody : Type 0 where
  pub text : Bytes

unfoldable pub validate_text : TextBody → Result (Unit {0})
validate_text body =
    if ltb max_body_len (length body.text) then err (from_protocol text_too_long) else ok tt

-- `impl ContentBody for TextBody`
unfoldable pub text_content_body : ContentBody TextBody
unfolding validate_text
text_content_body = record {
  kind = kind_text;
  to_body = λ x. ok x.text;
  from_body = λ body. ok (record { text = body });
  validate = validate_text;
}
