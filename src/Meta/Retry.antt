-- ===== src/Meta/Retry.antt =====
-- kafka-meta/src/retry.rs: capped, jittered backoff, and the loop that asks again until a deadline.
-- A `Duration` is its nanoseconds; an `Instant` counts nanoseconds too, below `instant_end`.
-- The jitter is an `f64`: its arithmetic and the random draw are parameters (`Floats`).
pub mod Backoff
pub mod Reask
mod Tests
use kaas_lib.Prelude.{
  ℕ, zero, suc, ◌+◌, ◌-◌, ◌*◌, ◌^◌, Bool, true, false, if◌then◌else◌, ltb, leb, min, Option, none,
  some,
}
use kaas_lib.Prelude.Words.{u32_max, duration_max}

abbrev pub millis : ℕ → ℕ
millis n = n * 1_000_000

abbrev pub secs : ℕ → ℕ
secs n = n * 1_000_000_000

-- How hard to retry.
pub record RetryPolicy (F64 : Type 0) : Type 0 where
  pub max_attempts : ℕ
  pub base_delay : ℕ
  pub max_delay : ℕ
  pub jitter : F64
  pub coordinator_timeout : ℕ

-- The default, given the float that it names (`0.3`).
unfoldable pub default_policy : {F64 : Type 0} → F64 → RetryPolicy F64
default_policy j = record {
  max_attempts = 5;
  base_delay = millis 100;
  max_delay = secs 5;
  jitter = j;
  coordinator_timeout = secs 30;
}

-- Never retry: both the attempts and the deadline are spent by the first failure.
unfoldable pub none_policy : {F64 : Type 0} → F64 → RetryPolicy F64
unfolding default_policy
none_policy j = record (default_policy j) { max_attempts = 1; coordinator_timeout = 0 }

-- Whether another attempt is allowed.
unfoldable pub should_retry : {F64 : Type 0} → RetryPolicy F64 → ℕ → Bool
should_retry p attempt = ltb attempt p.max_attempts

-- `2u32.saturating_pow(attempt.saturating_sub(2).min(16))`
abbrev pub growth : ℕ → ℕ
growth attempt = min u32_max (2 ^ min (attempt - 2) 16)

-- The delay before jitter: `base_delay` doubled for each attempt past the second, up to the cap.
unfoldable pub scaled : {F64 : Type 0} → RetryPolicy F64 → ℕ → ℕ
scaled p attempt = min (min duration_max (p.base_delay * growth attempt)) p.max_delay

-- `f64`: its comparisons, `clamp` to a range, a difference, `Duration::mul_f64`, and what
-- `random_range(low..high)` draws.
pub record Floats (F64 : Type 0) : Type 0 where
  pub zero_f : F64
  pub one_f : F64
  pub equal : F64 → F64 → Bool
  pub at_most : F64 → F64 → Bool
  pub below : F64 → F64 → Bool
  pub clamp : F64 → F64 → F64 → F64
  pub minus : F64 → F64 → F64
  pub random_range : F64 → F64 → F64
  pub mul_f64 : ℕ → F64 → ℕ

module _ {F64 : Type 0} (f : Floats F64) where
  abbrev pub clamped : RetryPolicy F64 → F64
  clamped p = f.clamp f.zero_f f.one_f p.jitter

  -- `1.0 - random_range(0.0..jitter)`
  abbrev pub factor : F64 → F64
  factor jitter = f.minus f.one_f (f.random_range f.zero_f jitter)

  unfoldable pub apply_jitter : RetryPolicy F64 → ℕ → ℕ
  apply_jitter p d = if f.equal (clamped p) f.zero_f then d else f.mul_f64 d (factor (clamped p))

  -- The delay before attempt `attempt`, one-based.
  unfoldable pub delay : RetryPolicy F64 → ℕ → ℕ
  unfolding apply_jitter scaled
  delay p attempt = if leb attempt 1 then 0 else apply_jitter p (scaled p attempt)
