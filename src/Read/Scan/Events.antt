-- ===== src/Read/Scan/Events.antt =====
-- The state of a scan over a whole sequence of events.
use kaas_lib.Prelude.{
  ℕ, zero, suc, ◌+◌, ◌≡◌, refl, subst, Bool, false, if_cases, leb, ◌≤◌, All, map, Option, none,
  some, List, [], ◌∷◌, arith,
}
use kaas_lib.Conn.Errors.{Error}
use kaas_lib.Meta.Retry.Reask.{Result, ok, err}
use kaas_lib.Read.Scan.{
  ScanSpec, ScanState, ScanEvent, PartitionCursor, limit_reached, all_exhausted,
}
use kaas_lib.Read.Scan.Plan.{start_state, announced, started}
use kaas_lib.Read.Scan.Absorb.{Source, refill}
use kaas_lib.Read.Scan.Step.{
  emit_next, finish, Answer, Turn, answers, goes_on, finishes, after_emit, after_refill, turn_from,
  turn, next_event,
}
use kaas_lib.Read.Scan.Buffer.{Hold, Holds, reads, Sound, SoundRead, refill-Sound}
use kaas_lib.Read.Scan.Emit.{Emitted, emit_next-Emitted}

-- How many records an answer hands to the caller.
abbrev pub given : Option (Result Error ScanEvent) → ℕ
given none = 0
given (some (err e)) = 0
given (some (ok event)) = reads event

abbrev TurnSound : ℕ → Turn → Type 0
TurnSound n (answers (answer, s)) = Sound (n + given answer) 0 s
TurnSound n (goes_on s) = Sound n 0 s

below_limit : (n : ℕ) (s : ScanState) → limit_reached s ≡ false → Sound n 0 s → Sound n 1 s
unfolding limit_reached
below_limit n s below h = record {
  held = h.held;
  within = λ limit e.
      let b : leb limit s.progress.records_emitted ≡ false = rw e at below in ground arith;
  counted = h.counted;
  quiet = h.quiet;
}

finishes-Sound : (n : ℕ) (s : ScanState) → Sound n 0 s → TurnSound n (finishes s)
unfolding finish
finishes-Sound n s h = record {
  held = h.held;
  within = h.within;
  counted = omega (arith, h.counted);
  quiet = h.quiet;
}

no_record : (n : ℕ) (s : ScanState) → Sound n 0 s → Sound (n + 0) 0 s
no_record n s h = record {
  held = h.held;
  within = h.within;
  counted = omega (arith, h.counted);
  quiet = h.quiet;
}

after_emit-Sound :
    (n : ℕ) (a : Option ScanEvent × ScanState) → Emitted n a → TurnSound n (after_emit a)
after_emit-Sound n (some event, s) h = h
after_emit-Sound n (none, s) h =
    let same : n + 0 ≡ n = omega arith in
    let h' : Sound n 0 s = subst (λ k. Sound k 0 s) same h in
    if_cases (TurnSound n) (all_exhausted s) (λ _. finishes-Sound n s h') (λ _. h')

after_refill-Sound :
    (n : ℕ) (s : ScanState) (r : Result Error (ScanState × Bool))
    → Sound n 0 s
    → Holds (SoundRead n 1) r
    → TurnSound n (after_refill s r)
after_refill-Sound n s (err e) h g = record {
  held = h.held;
  within = h.within;
  counted = omega (arith, h.counted);
  quiet = h.quiet;
}
after_refill-Sound n s (ok (s', read)) h g =
    after_emit-Sound n (emit_next s') (emit_next-Emitted n s' g)

module _ (src : Source) where
  turn_from-Sound :
      (n round : ℕ) (pending : List ScanEvent) (s : ScanState)
      → All (λ event. reads event ≡ 0) pending
      → Sound n 0 s
      → TurnSound n (turn_from src round pending s)
  turn_from-Sound n round (event ∷ pending) s quiet h = record {
    held = h.held;
    within = h.within;
    counted = omega (arith, h.counted, quiet.0);
    quiet = quiet.1;
  }
  turn_from-Sound n round [] s quiet h =
      if_cases (TurnSound n) s.done (λ _. no_record n s h)
        (λ _.
          if_cases (TurnSound n) (limit_reached s) (λ _. finishes-Sound n s h)
            (λ below.
              after_refill-Sound n s (refill src round s) h
                (refill-Sound src n 1 round s (below_limit n s below h))))

  turn-Sound : (n round : ℕ) (s : ScanState) → Sound n 0 s → TurnSound n (turn src round s)
  unfolding turn
  turn-Sound n round s h = turn_from-Sound n round s.pending s h.quiet h

  -- The state that a call leaves, if it answers.
  abbrev AnswerSound : ℕ → Option Answer → Type 0
  AnswerSound n none = Unit
  AnswerSound n (some (answer, s)) = Sound (n + given answer) 0 s

  next_event-Sound :
      (n fuel round : ℕ) (s : ScanState) → Sound n 0 s → AnswerSound n (next_event src fuel round s)
  unfolding next_event
  next_event-Sound n zero round s h = tt
  next_event-Sound n (suc fuel) round s h =
      elim (turn src round s)
          as (λ t.
            TurnSound n t
            → AnswerSound n (elim t [
              | answers answer ↦ some answer
              | goes_on s' ↦ next_event src fuel (round + 1) s'
            ])) [
              | answers (answer, s') ↦ λ g. g
              | goes_on s' ↦ λ g. next_event-Sound n fuel (round + 1) s' g
            ]
        (turn-Sound n round s h)

  -- The states that calls of `next_event` pass through, with the number of records that they answered,
  -- each with the fuel it took.
  pub data Reached (s₀ : ScanState) : ℕ → ScanState → Type 0 where
    begun : Reached s₀ 0 s₀
    called :
        {n : ℕ} {s s' : ScanState} {answer : Option (Result Error ScanEvent)} (fuel round : ℕ)
        → Reached s₀ n s
        → next_event src fuel round s ≡ some (answer, s')
        → Reached s₀ (n + given answer) s'

  Reached-Sound :
      {s₀ : ScanState} {n : ℕ} {s : ScanState} → Sound 0 0 s₀ → Reached s₀ n s → Sound n 0 s
  Reached-Sound h begun = h
  Reached-Sound h (called {n} {s} {s'} {answer} fuel round before e) =
      subst (AnswerSound n) e (next_event-Sound n fuel round s (Reached-Sound h before))

announced-Hold : (cursors : List PartitionCursor) → Hold 0 cursors → Hold 0 (map announced cursors)
announced-Hold [] h = (tt, refl)
announced-Hold (c ∷ cursors) h =
    let rest = announced-Hold cursors (h.0.1, omega (arith, h.1)) in
    ((h.0.0, rest.0), omega (arith, h.1, rest.1))

started-quiet :
    (cursors : List PartitionCursor) → All (λ event. reads event ≡ 0) (map started cursors)
started-quiet [] = tt
started-quiet (c ∷ cursors) = (refl, started-quiet cursors)

-- At most a limit, if there is one.
abbrev pub AtMost : Option ℕ → ℕ → Type 0
AtMost none n = Unit
AtMost (some limit) n = n ≤ limit

Sound-AtMost :
    (n : ℕ) (s : ScanState) (limit : Option ℕ) → s.spec.limit ≡ limit → Sound n 0 s → AtMost limit n
Sound-AtMost n s none e h = tt
Sound-AtMost n s (some limit) e h = let b = h.within limit e in omega (arith, b, h.counted)

-- However many events a scan has given since it started from cursors that hold nothing, and whatever
-- the brokers answered, the scan knows how many records it answered with: they are what its progress
-- says, and not more than its limit. Its count of the buffered outcomes is what its partitions hold, no
-- buffered record lies before the start of the scan, and no event that waits to be answered is a record.
pub Reached-start_state :
    (src : Source) (spec : ScanSpec) (cursors : List PartitionCursor) (n : ℕ) (s : ScanState)
    → Hold 0 cursors
    → Reached src (start_state spec cursors) n s
    → Sound n 0 s × AtMost s.spec.limit n
unfolding start_state
Reached-start_state src spec cursors n s h r =
    let sound =
      Reached-Sound src
        (record {
          held = announced-Hold cursors h;
          within = λ limit e. ground arith;
          counted = refl;
          quiet = started-quiet cursors;
        })
        r in
    (sound, Sound-AtMost n s s.spec.limit refl sound)
