-- ===== src/Prelude/Words.antt =====
-- Machine words. A `u32` is a number below 2 ^ 32; an `i32` or `i64` is an integer in its range, and
-- wrapping goes through the bit pattern.
use Prim.Native.Nat.{ℕ, ◌+◌, ◌-◌, ◌*◌, ◌%◌, ◌^◌, min}
use kaas_lib.Prelude.Tests.{ltb, if◌then◌else◌}
use kaas_lib.Prelude.Int.{ℤ, pos, negsuc, ◌+ℤ◌, ◌-ℤ◌, ◌≤ℤ◌, ltb_ℤ}

abbrev pub u32_mod : ℕ
u32_mod = 2 ^ 32

abbrev pub u32_max : ℕ
u32_max = 2 ^ 32 - 1

-- `usize` is 64 bits wide.
abbrev pub usize_max : ℕ
usize_max = 2 ^ 64 - 1

-- The bit pattern of an i32, and the i32 of a bit pattern.
abbrev pub bits32 : ℤ → ℕ
bits32 (pos n) = n % u32_mod
bits32 (negsuc n) = u32_mod - 1 - n % u32_mod

abbrev pub signed32 : ℕ → ℤ
signed32 w = if ltb w (2 ^ 31) then pos w else negsuc (u32_mod - w - 1)

abbrev pub i32_max : ℤ
i32_max = pos (2 ^ 31 - 1)

abbrev pub i32_min : ℤ
i32_min = negsuc (2 ^ 31 - 1)

abbrev pub i64_max : ℤ
i64_max = pos (2 ^ 63 - 1)

abbrev pub i64_min : ℤ
i64_min = negsuc (2 ^ 63 - 1)

abbrev pub IsI32 : ℤ → Type 0
IsI32 z = (i32_min ≤ℤ z) × (z ≤ℤ i32_max)

abbrev pub IsI64 : ℤ → Type 0
IsI64 z = (i64_min ≤ℤ z) × (z ≤ℤ i64_max)

-- `saturating_add` of i32, i64, and of `usize`.
abbrev pub clamp_ℤ : ℤ → ℤ → ℤ → ℤ
clamp_ℤ lo hi z = if ltb_ℤ z lo then lo else if ltb_ℤ hi z then hi else z

unfoldable pub i32_saturating_add : ℤ → ℤ → ℤ
i32_saturating_add a b = clamp_ℤ i32_min i32_max (a +ℤ b)

unfoldable pub i64_saturating_add : ℤ → ℤ → ℤ
i64_saturating_add a b = clamp_ℤ i64_min i64_max (a +ℤ b)

unfoldable pub i64_saturating_sub : ℤ → ℤ → ℤ
i64_saturating_sub a b = clamp_ℤ i64_min i64_max (a -ℤ b)

unfoldable pub i32_wrapping_add : ℤ → ℤ → ℤ
i32_wrapping_add a b = signed32 ((bits32 a + bits32 b) % u32_mod)

abbrev pub usize_saturating_add : ℕ → ℕ → ℕ
usize_saturating_add a b = min usize_max (a + b)

-- `Duration::MAX` in nanoseconds, and `Duration::saturating_add`.
abbrev pub duration_max : ℕ
duration_max = 2 ^ 64 * 1_000_000_000 - 1

abbrev pub duration_saturating_add : ℕ → ℕ → ℕ
duration_saturating_add a b = min duration_max (a + b)
