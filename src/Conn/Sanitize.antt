-- ===== src/Conn/Sanitize.antt =====
-- kafka-conn/src/sanitize.rs: making untrusted text safe to put in a log line.
-- A text is the list of its code points; `char::is_control` and `char::escape_default` are written
-- out for the control characters, the only ones that are escaped here.
pub mod Laws
mod Tests
use kaas_lib.Prelude.{
  ℕ, zero, suc, ◌+◌, ◌-◌, ◌/◌, ◌%◌, Bool, true, false, ◌||◌, ◌&&◌, if◌then◌else◌, ltb, leb, ◌==◌,
  List, [], ◌∷◌, ◌++◌,
}

abbrev pub Text : Type 0
Text = List ℕ

-- Unicode's `Cc`: both blocks of control characters, and DEL.
abbrev pub is_control : ℕ → Bool
is_control c = ltb c 0x20 || (leb 0x7f c && leb c 0x9f)

-- One lower-case hexadecimal digit.
abbrev pub hex_digit : ℕ → ℕ
hex_digit d = if ltb d 10 then d + b'0' else d - 10 + b'a'

-- The digits of `\u{..}`, with no leading zero; a control character has two at most.
abbrev pub hex : ℕ → Text
hex c = if ltb c 16 then hex_digit c ∷ [] else hex_digit (c / 16) ∷ hex_digit (c % 16) ∷ []

-- `char::escape_default` at a control character.
unfoldable pub escape_default : ℕ → Text
escape_default c =
    if c == 9
    then b'\\' ∷ b't' ∷ []
    else if c == 13
    then b'\\' ∷ b'r' ∷ []
    else if c == 10
    then b'\\' ∷ b'n' ∷ []
    else b'\\' ∷ b'u' ∷ b'{' ∷ (hex c ++ (b'}' ∷ []))

-- `text.chars().any(char::is_control)`
unfoldable pub any_control : Text → Bool
any_control [] = false
any_control (c ∷ cs) = is_control c || any_control cs

-- The loop that builds the escaped text.
unfoldable pub escape_controls : Text → Text
unfolding escape_default
escape_controls [] = []
escape_controls (c ∷ cs) =
    let rest = escape_controls cs in if is_control c then escape_default c ++ rest else c ∷ rest

-- Text with no control character is returned as it is.
unfoldable pub control_safe : Text → Text
unfolding any_control escape_controls
control_safe text = if any_control text then escape_controls text else text
