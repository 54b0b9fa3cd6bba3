-- ===== src/Conn/Sanitize/Laws.antt =====
-- What `control_safe` promises.
use kaas_lib.Prelude.{
  ℕ, zero, suc, ◌<◌, ◌≡◌, inl, inr, refl, Bool, true, false, if◌then◌else◌, Bool-cases, [], ◌∷◌,
  ◌++◌, arith,
}
use kaas_lib.Conn.Sanitize.{
  Text, is_control, escape_default, any_control, escape_controls, control_safe,
}

any_control-append :
    (s t : Text) → any_control s ≡ false → any_control t ≡ false → any_control (s ++ t) ≡ false
unfolding any_control
any_control-append [] t p q = q
any_control-append (c ∷ s) t p q = ground (arith, any_control-append s t)

-- Whether the escapes of all the code points below a bound have no control character.
escapes_are_clean : ℕ → Bool
escapes_are_clean zero = true
escapes_are_clean (suc c) =
    let rest = escapes_are_clean c in if any_control (escape_default c) then false else rest

escapes_are_clean-160 : escapes_are_clean 160 ≡ true
unfolding escapes_are_clean any_control escape_default
escapes_are_clean-160 = refl

below_clean :
    (bound c : ℕ)
    → c < bound
    → escapes_are_clean bound ≡ true
    → any_control (escape_default c) ≡ false
unfolding escapes_are_clean
below_clean zero c small clean = absurd (omega arith)
below_clean (suc b) c small clean = ground (arith, below_clean b c)

any_control-escape_default : (c : ℕ) → is_control c ≡ true → any_control (escape_default c) ≡ false
any_control-escape_default c h = below_clean 160 c (ground arith) escapes_are_clean-160

any_control-escape_controls : (t : Text) → any_control (escape_controls t) ≡ false
unfolding any_control escape_controls
any_control-escape_controls [] = refl
any_control-escape_controls (c ∷ t) = elim (Bool-cases (is_control c)) [
  | inl bad ↦ rw bad (
      any_control-append (escape_default c) (escape_controls t) (any_control-escape_default c bad)
        (any_control-escape_controls t))
  | inr fine ↦ ground (arith, any_control-escape_controls t)
]

-- The result of `control_safe` has no control character; a text that had none is unchanged, so a
-- second pass changes nothing.
pub control_safe_clean :
    (t : Text)
    → (any_control (control_safe t) ≡ false)
      × (any_control t ≡ false → control_safe t ≡ t)
      × (control_safe (control_safe t) ≡ control_safe t)
unfolding control_safe
control_safe_clean t = ground (arith, any_control-escape_controls t)
