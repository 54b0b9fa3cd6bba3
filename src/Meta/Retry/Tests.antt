-- ===== src/Meta/Retry/Tests.antt =====
-- Delays and reasking with a small policy.
use kaas_lib.Prelude.{
  ℕ, ◌*◌, ◌-◌, ◌/◌, ◌≤◌, ◌≡◌, refl, true, min, max, leb, ltb, some, [], ◌∷◌, ◌==◌, arith,
}
use kaas_lib.Meta.Retry.{RetryPolicy, Floats, clamped, scaled, delay}
use kaas_lib.Meta.Retry.Backoff.{FloatsKeep, doubled, delay_bounded}
use kaas_lib.Meta.Retry.Reask.{err, ok, reask_as, Asking, reask_loop, Ended, reask_loop-Ended}

-- Jitter as a number of percent, of which 0 is none; the draw keeps the whole delay.
abbrev policy : ℕ → RetryPolicy ℕ
policy j = record {
  max_attempts = 5;
  base_delay = 100_000_000;
  max_delay = 1_000_000_000;
  jitter = j;
  coordinator_timeout = 0;
}

-- Fractions in percent; a draw is the low end of its range.
abbrev floats : Floats ℕ
floats = record {
  zero_f = 0;
  one_f = 100;
  equal = λ a b. a == b;
  at_most = λ a b. leb a b;
  below = λ a b. ltb a b;
  clamp = λ low high x. max low (min high x);
  minus = λ a b. a - b;
  random_range = λ low high. high / 2;
  mul_f64 = λ d x. min d (d * x / 100);
}

floats-FloatsKeep : FloatsKeep floats
floats-FloatsKeep = record {
  clamp_low = λ j n. ground arith;
  clamp_high = λ j n. ground arith;
  positive = λ j h g. ground arith;
  drawn_low = λ j h. ground arith;
  drawn_high = λ j h g. ground arith;
  minus_low = λ x h. ground arith;
  minus_high = λ x h. ground arith;
  shorter = λ d x small h g. omega arith;
}

delay_third : delay floats (policy 0) 3 ≡ 200_000_000
unfolding delay scaled
delay_third = refl

delay_bounded_example :
    (delay floats (policy 30) 4 ≤ doubled (policy 30) 4)
    × (2 ≤ 4
        → floats.equal (clamped floats (policy 30)) floats.zero_f ≡ true
        → delay floats (policy 30) 4 ≡ doubled (policy 30) 4)
    × (4 ≤ 1 → delay floats (policy 30) 4 ≡ 0)
delay_bounded_example = delay_bounded floats floats-FloatsKeep (policy 30) 4 refl (omega arith)

-- A broker that answers only with a request to ask again.
abbrev asking : Asking ℕ ℕ
asking = record {
  attempt_fn = λ round attempt. ok (reask_as (err round));
  now = λ round. round * 10;
  delay = λ round attempt. 5;
  instant_end = 1000;
  budget = 30;
}

reask_loop-Ended_example : Ended asking 0 1 [] (reask_loop asking 31 0 1 [])
reask_loop-Ended_example = reask_loop-Ended asking (λ n. omega arith) 30 0 1 [] (omega arith)

given_up : reask_loop asking 31 0 1 [] ≡ some (err 3, 5 ∷ 15 ∷ 25 ∷ [])
unfolding reask_loop
given_up = refl
