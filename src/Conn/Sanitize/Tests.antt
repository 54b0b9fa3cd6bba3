-- ===== src/Conn/Sanitize/Tests.antt =====
-- Texts with and without control characters.
use kaas_lib.Prelude.{◌≡◌, refl, false, [], ◌∷◌}
use kaas_lib.Conn.Sanitize.{Text, any_control, escape_default, escape_controls, control_safe}
use kaas_lib.Conn.Sanitize.Laws.{control_safe_clean}

-- An escape sequence that clears a terminal, and a line break.
abbrev forged : Text
forged = b'a' ∷ 10 ∷ 0x1b ∷ b'[' ∷ b'2' ∷ b'J' ∷ []

forged_escaped :
    control_safe forged
    ≡ b'a' ∷ b'\\' ∷ b'n' ∷ b'\\' ∷ b'u' ∷ b'{' ∷ b'1' ∷ b'b' ∷ b'}' ∷ b'[' ∷ b'2' ∷ b'J' ∷ []
unfolding control_safe any_control escape_controls escape_default
forged_escaped = refl

control_safe_clean_example :
    (any_control (control_safe forged) ≡ false)
    × (any_control forged ≡ false → control_safe forged ≡ forged)
    × (control_safe (control_safe forged) ≡ control_safe forged)
control_safe_clean_example = control_safe_clean forged
