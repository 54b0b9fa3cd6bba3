-- ===== src/Meta/Retry/Reask.antt =====
-- `reask`: one attempt after another until an answer settles, an attempt fails, or the next delay
-- would reach the deadline.
use kaas_lib.Prelude.{
  ℕ, zero, suc, ◌+◌, ◌≤◌, ◌<◌, ◌≡◌, ◌∙◌, inl, inr, refl, Bool, true, false, ◌||◌, leb, ltb, min,
  arith, Option, none, some, Bool-cases, List, [], ◌∷◌, ◌++◌, length, All, append-nil, append_assoc,
}
use native.Mathlib.Nat.{add-zero}
use kaas_lib.Prelude.Words.{u32_max}

-- `Result` of the client, over the type of its errors.
pub data Result {ℓ} (E A : Type ℓ) : Type ℓ where
  ok : A → Result E A
  err : E → Result E A

-- What one attempt concluded: a final answer, or the answer as it stands with a request to ask again.
pub data Verdict (E T : Type 0) : Type 0 where
  settled : T → Verdict E T
  reask_as : Result E T → Verdict E T

-- The environment of one call: what the attempt of a round answers (the attempt's number is given
-- too, since it stops growing at `u32::MAX`), the clock when that answer is looked at, the delay
-- before an attempt in a round, the last `Instant`, and the deadline.
pub record Asking (E T : Type 0) : Type 0 where
  pub attempt_fn : ℕ → ℕ → Result E (Verdict E T)
  pub now : ℕ → ℕ
  pub delay : ℕ → ℕ → ℕ
  pub instant_end : ℕ
  pub budget : ℕ

-- `attempt.saturating_add(1)`
abbrev pub next_attempt : ℕ → ℕ
next_attempt attempt = min u32_max (attempt + 1)

module _ {E T : Type 0} (a : Asking E T) where
  open a use {attempt_fn, now, delay, instant_end, budget}

  -- The moment at which the sleep after a round would end.
  abbrev pub wakes : ℕ → ℕ → ℕ
  wakes round attempt = now round + delay round (next_attempt attempt)

  -- `Instant::now().checked_add(delay).is_none_or(|then| then >= budget)`
  abbrev pub out_of_time : ℕ → ℕ → Bool
  out_of_time round attempt =
      ltb instant_end (wakes round attempt) || leb budget (wakes round attempt)

  -- The loop, with the moments at which it woke from a sleep. `none` means that the fuel ran out.
  unfoldable pub reask_loop : ℕ → ℕ → ℕ → List ℕ → Option (Result E T × List ℕ)
  reask_loop zero round attempt woke = none
  reask_loop (suc fuel) round attempt woke = elim (attempt_fn round attempt) [
    | err e ↦ some (err e, woke)
    | ok verdict ↦ elim verdict [
      | settled value ↦ some (ok value, woke)
      | reask_as as_it_stands ↦ elim (out_of_time round attempt) [
        | true ↦ some (as_it_stands, woke)
        | false ↦
            reask_loop fuel (round + 1) (next_attempt attempt) (woke ++ (wakes round attempt ∷ []))
      ]
    ]
  ]

  -- The answer of an attempt as the caller gets it.
  abbrev pub conclusion : Result E (Verdict E T) → Result E T
  conclusion (err e) = err e
  conclusion (ok (settled value)) = ok value
  conclusion (ok (reask_as as_it_stands)) = as_it_stands

  -- A run that slept `n` times from a round on: it returns the last attempt's answer, and each of
  -- its sleeps ended before the deadline.
  pub record Ended (round attempt : ℕ) (woke : List ℕ) (out : Option (Result E T × List ℕ))
      : Type 0 where
    pub sleeps : List ℕ
    pub last_attempt : ℕ
    pub returned :
        out ≡ some (conclusion (attempt_fn (round + length sleeps) last_attempt), woke ++ sleeps)
    pub in_time : All (λ t. t < budget) sleeps

  done_now :
      (round attempt : ℕ) (woke : List ℕ) (out : Option (Result E T × List ℕ))
      → out ≡ some (conclusion (attempt_fn round attempt), woke)
      → Ended round attempt woke out
  done_now round attempt woke out h = record {
    sleeps = [];
    last_attempt = attempt;
    returned = rw (append-nil, add-zero) h;
    in_time = tt;
  }

  slept :
      (round attempt : ℕ) (woke : List ℕ) (out : Option (Result E T × List ℕ)) (t : ℕ)
      → t < budget
      → Ended (round + 1) (next_attempt attempt) (woke ++ (t ∷ [])) out
      → Ended round attempt woke out
  slept round attempt woke out t h r = record {
    sleeps = t ∷ r.sleeps;
    last_attempt = r.last_attempt;
    returned = r.returned ∙ regrouped r.sleeps r.last_attempt;
    in_time = (h, r.in_time);
  }
    where
      regrouped :
          (s : List ℕ) (last : ℕ)
          → ◌≡◌ {A = Option (Result E T × List ℕ)}
              (some (conclusion (attempt_fn (round + 1 + length s) last), woke ++ (t ∷ []) ++ s))
              (some (conclusion (attempt_fn (round + suc (length s)) last), woke ++ (t ∷ s)))
      regrouped s last =
          let e : round + 1 + length s ≡ round + suc (length s) = omega arith in
          rw (e, append_assoc)

  reask_again :
      (fuel round attempt : ℕ) (woke : List ℕ) (r : Result E T)
      → attempt_fn round attempt ≡ ok (reask_as r)
      → out_of_time round attempt ≡ false
      → reask_loop (suc fuel) round attempt woke
        ≡ reask_loop fuel (round + 1) (next_attempt attempt) (woke ++ (wakes round attempt ∷ []))
  unfolding reask_loop
  reask_again fuel round attempt woke r p q = rw (p, q, reask_loop)

  reask_step :
      (fuel round attempt : ℕ) (woke : List ℕ) (answer : Result E (Verdict E T))
      → attempt_fn round attempt ≡ answer
      → (wakes round attempt < budget
          → Ended (round + 1) (next_attempt attempt) (woke ++ (wakes round attempt ∷ [])) (
              reask_loop fuel
                (round + 1)
                (next_attempt attempt)
                (woke ++ (wakes round attempt ∷ []))))
      → Ended round attempt woke (reask_loop (suc fuel) round attempt woke)
  unfolding reask_loop
  reask_step fuel round attempt woke (err e) p again =
      done_now round attempt woke _ (rw (p, reask_loop))
  reask_step fuel round attempt woke (ok (settled v)) p again =
      done_now round attempt woke _ (rw (p, reask_loop))
  reask_step fuel round attempt woke (ok (reask_as r)) p again =
      elim (Bool-cases (out_of_time round attempt)) [
        | inl late ↦ done_now round attempt woke _ (rw (p, late, reask_loop))
        | inr early ↦
            rw (reask_again fuel round attempt woke r p early)
              (slept round attempt woke _ _ (ground arith) (again (ground arith)))
      ]

  -- Where the clock advances from each round to the next, the loop ends within as many rounds as
  -- time units are left before the deadline, and it ends with the answer of its last attempt, having
  -- slept only to moments before the deadline.
  pub reask_loop-Ended :
      ((n : ℕ) → now n < now (n + 1))
      → (fuel round attempt : ℕ) (woke : List ℕ) → budget ≤ now round + fuel
      → Ended round attempt woke (reask_loop (suc fuel) round attempt woke)
  reask_loop-Ended ticks zero round attempt woke h =
      reask_step zero round attempt woke _ refl (λ early. absurd (omega arith))
  reask_loop-Ended ticks (suc fuel) round attempt woke h =
      reask_step (suc fuel) round attempt woke _ refl (λ early.
        reask_loop-Ended ticks fuel (round + 1) (next_attempt attempt) _
          (omega (arith, ticks round)))
