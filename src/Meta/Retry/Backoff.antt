-- ===== src/Meta/Retry/Backoff.antt =====
-- The curve of the backoff.
use kaas_lib.Prelude.{ℕ, zero, suc, ◌-◌, ◌*◌, ◌^◌, ◌≤◌, ◌≡◌, true, false, min, if_cases, arith}
use kaas_lib.Prelude.Words.{duration_max}
use kaas_lib.Meta.Retry.{RetryPolicy, Floats, growth, scaled, clamped, factor, apply_jitter, delay}
use native.Mathlib.Nat.{pow-suc}

pow_mono : (a b : ℕ) → a ≤ b → 2 ^ a ≤ 2 ^ b
pow_mono zero zero h = omega arith
pow_mono zero (suc b) h = rw pow-suc (omega (arith, pow_mono zero b (omega arith)))
pow_mono (suc a) zero h = absurd (omega arith)
pow_mono (suc a) (suc b) h =
    rw (pow-suc 2 a, pow-suc 2 b) (omega (arith, pow_mono a b (omega arith)))

growth_mono : (a b : ℕ) → a ≤ b → growth a ≤ growth b
growth_mono a b h = omega (arith, pow_mono (min (a - 2) 16) (min (b - 2) 16) (omega arith))

pub scaled-le-max :
    {F64 : Type 0} (p : RetryPolicy F64) (a : ℕ)
    → (scaled p a ≤ p.max_delay) × (scaled p a ≤ duration_max)
unfolding scaled
scaled-le-max p a = omega arith

scaled_mono : {F64 : Type 0} (p : RetryPolicy F64) (a b : ℕ) → a ≤ b → scaled p a ≤ scaled p b
unfolding scaled
scaled_mono p a b h =
    let grows : p.base_delay * growth a ≤ p.base_delay * growth b =
      mul_le p.base_delay (growth a) (growth b) (growth_mono a b h) in
    omega arith
  where
    mul_le : (c x y : ℕ) → x ≤ y → c * x ≤ c * y
    mul_le c x y q = grind arith

-- What is documented of the floats: `clamp` of a number, which equals itself, lies in its range, a draw
-- from a range that is not empty lies in it, a number of the range from 0 to 1 taken from 1 leaves one of
-- that range, and a duration below 2 ^ 50 nanoseconds, which an `f64` holds exactly enough, is no longer
-- after a multiplication by such a number.
pub record FloatsKeep {F64 : Type 0} (f : Floats F64) : Type 0 where
  pub clamp_low :
      (j : F64) → f.equal j j ≡ true → f.at_most f.zero_f (f.clamp f.zero_f f.one_f j) ≡ true
  pub clamp_high :
      (j : F64) → f.equal j j ≡ true → f.at_most (f.clamp f.zero_f f.one_f j) f.one_f ≡ true
  pub positive :
      (j : F64)
      → f.at_most f.zero_f j ≡ true
      → f.equal j f.zero_f ≡ false
      → f.below f.zero_f j ≡ true
  pub drawn_low :
      (j : F64) → f.below f.zero_f j ≡ true → f.at_most f.zero_f (f.random_range f.zero_f j) ≡ true
  pub drawn_high :
      (j : F64)
      → f.below f.zero_f j ≡ true
      → f.at_most j f.one_f ≡ true
      → f.at_most (f.random_range f.zero_f j) f.one_f ≡ true
  pub minus_low :
      (x : F64) → f.at_most x f.one_f ≡ true → f.at_most f.zero_f (f.minus f.one_f x) ≡ true
  pub minus_high :
      (x : F64) → f.at_most f.zero_f x ≡ true → f.at_most (f.minus f.one_f x) f.one_f ≡ true
  pub shorter :
      (d : ℕ) (x : F64)
      → d ≤ 2 ^ 50
      → f.at_most f.zero_f x ≡ true
      → f.at_most x f.one_f ≡ true
      → f.mul_f64 d x ≤ d

-- The delay of an attempt without jitter and without a clock that ends.
abbrev pub doubled : {F64 : Type 0} → RetryPolicy F64 → ℕ → ℕ
doubled p a = min (p.base_delay * 2 ^ min (a - 2) 16) p.max_delay

growth_lem : (a : ℕ) → growth a ≡ 2 ^ min (a - 2) 16
growth_lem a = let top = pow_mono (min (a - 2) 16) 16 (omega arith) in omega (arith, top)

pub scaled-doubled :
    {F64 : Type 0} (p : RetryPolicy F64) (a : ℕ)
    → p.max_delay ≤ duration_max
    → scaled p a ≡ doubled p a
unfolding scaled
scaled-doubled p a h = rw growth_lem (omega (arith, h))

module _ {F64 : Type 0} (f : Floats F64) (keep : FloatsKeep f) where
  jittered-le :
      (p : RetryPolicy F64) (d : ℕ)
      → f.equal p.jitter p.jitter ≡ true
      → d ≤ 2 ^ 50
      → apply_jitter f p d ≤ d
  unfolding apply_jitter
  jittered-le p d number small =
      let j = clamped f p in
      let drawn = f.random_range f.zero_f j in
      if_cases (λ (n : ℕ). n ≤ d) (f.equal j f.zero_f) (λ _. omega arith)
        (λ some_jitter.
          let above = keep.positive j (keep.clamp_low p.jitter number) some_jitter in
          let high = keep.drawn_high j above (keep.clamp_high p.jitter number) in
          keep.shorter d (factor f j) small (keep.minus_low drawn high)
            (keep.minus_high drawn (keep.drawn_low j above)))

  -- Where the jitter is a number, the policy's cap is at most 2 ^ 50 nanoseconds, and the floats keep to what is documented of `clamp`, of
  -- a difference, of a random draw and of a product: the delay of an attempt past the first is at most the base delay doubled
  -- for each attempt past the second, sixteen times at most, and at most the cap; it is exactly the lesser
  -- of the two where the jitter, clamped, is 0; and an attempt up to the first has none.
  pub delay_bounded :
      (p : RetryPolicy F64) (a : ℕ)
      → f.equal p.jitter p.jitter ≡ true
      → p.max_delay ≤ 2 ^ 50
      → (delay f p a ≤ doubled p a)
        × (2 ≤ a → f.equal (clamped f p) f.zero_f ≡ true → delay f p a ≡ doubled p a)
        × (a ≤ 1 → delay f p a ≡ 0)
  unfolding delay apply_jitter
  delay_bounded p a number fits =
      let same = scaled-doubled p a (omega (arith, fits)) in
      let less : apply_jitter f p (scaled p a) ≤ scaled p a =
        jittered-le p (scaled p a) number
          (let top = scaled-le-max p a in omega (arith, top.0, fits)) in
      ground (arith, same, less)
