-- ===== src/Opnsense/Payload/Flags.antt =====
-- The texts "1" and "0" for Booleans.
use opnsense_operator.Base.{Bool, true, false, ◌≡◌, refl, ◌==◌, string_eq}
use opnsense_operator.Opnsense.Payload.{bool_to_str}

-- The text of a Boolean is read back.
pub read_flag : (b : Bool) → (bool_to_str b == "1") ≡ b
unfolding bool_to_str string_eq
read_flag true = refl
read_flag false = refl
