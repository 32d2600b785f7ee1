-- ===== src/Content/Body/Kinds.antt =====
-- Kinds and typed bodies survive storage (src/content/body.rs, src/content/mod.rs).
use txtcel_program.Base.{ℕ, ◌≡◌, ◌↔◌, true, arith}
use txtcel_program.Content.Body.{from_u16, to_u16, is_known, kind_text}

-- Every raw discriminator survives the conversion to a kind and back, known or not, and exactly the
-- text discriminator is known.
pub to_u16-from_u16 :
    (value : ℕ)
    → (to_u16 (from_u16 value) ≡ value) × ((is_known (from_u16 value) ≡ true) ↔ (value ≡ kind_text))
unfolding to_u16 from_u16 is_known
to_u16-from_u16 value = (ground arith, (ground arith, ground arith))
