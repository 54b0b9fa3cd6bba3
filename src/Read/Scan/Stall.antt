-- ===== src/Read/Scan/Stall.antt =====
-- A ceiling of no buffered records.
use kaas_lib.Prelude.{
  ℕ, zero, suc, ◌+◌, ◌≡◌, refl, ◌∙◌, ap, Bool, true, false, not, ◌&&◌, if◌then◌else◌, leb, any, all,
  none, List, [], ◌∷◌, arith,
}
use kaas_lib.Meta.Retry.Reask.{ok}
use kaas_lib.Read.Scan.{ScanState, PartitionCursor, is_drained, limit_reached, all_exhausted}
use kaas_lib.Read.Scan.Absorb.{Source, note_ordering_degraded, refill}
use kaas_lib.Read.Scan.Step.{
  choose, is_waiting, emit_choice, emit_next, goes_on, after_emit, after_refill, turn_from, turn,
  next_event,
}

-- A scan that may buffer nothing, without a limit, with a partition that has something to read.
pub record Starved (s : ScanState) : Type 0 where
  pub no_room : s.spec.max_buffered_records ≡ 0
  pub no_limit : s.spec.limit ≡ none
  pub running : s.done ≡ false
  pub none_pending : s.pending ≡ []
  pub waiting : any is_waiting s.cursors ≡ true
  pub none_buffered : choose s.cursors ≡ none

waiting_lem :
    (cursors : List PartitionCursor)
    → any is_waiting cursors ≡ true
    → all is_drained cursors ≡ false
waiting_lem [] h = absurd (cc)
waiting_lem (c ∷ cursors) h = ground (arith, waiting_lem cursors)

degraded-Starved : (s : ScanState) → Starved s → Starved (note_ordering_degraded s)
unfolding note_ordering_degraded
degraded-Starved s h = record {
  no_room = h.no_room;
  no_limit = h.no_limit;
  running = h.running;
  none_pending = h.none_pending;
  waiting = h.waiting;
  none_buffered = h.none_buffered;
}

if_true : {A : Type 0} (b : Bool) (x y : A) → b ≡ true → (if b then x else y) ≡ x
if_true b x y e = ap (λ c. if c then x else y) e

if_false : {A : Type 0} (b : Bool) (x y : A) → b ≡ false → (if b then x else y) ≡ y
if_false b x y e = ap (λ c. if c then x else y) e

full : (s : ScanState) → Starved s → leb s.spec.max_buffered_records s.buffered_total ≡ true
full s h = let e = h.no_room in ground arith

refill-Starved :
    (src : Source) (round : ℕ) (s : ScanState)
    → Starved s
    → refill src round s ≡ ok (note_ordering_degraded s, false)
unfolding refill
refill-Starved src round s h = if_true _ _ _ (full s h)

emit_next-Starved : (s : ScanState) → Starved s → emit_next s ≡ (none, note_ordering_degraded s)
unfolding emit_next
emit_next-Starved s h =
    if_true _ _ _ h.waiting
    ∙ if_true _ _ _ (full s h)
    ∙ ap (emit_choice (note_ordering_degraded s)) h.none_buffered

goes_on-Starved : (s : ScanState) → Starved s → after_emit (none, s) ≡ goes_on s
unfolding all_exhausted
goes_on-Starved s h =
    let idle : all is_drained s.cursors ≡ false = waiting_lem s.cursors h.waiting in
    let more : (not s.spec.follow && all is_drained s.cursors) ≡ false = ground arith in
    if_false _ _ _ more

no_limit-Starved : (s : ScanState) → Starved s → limit_reached s ≡ false
unfolding limit_reached
no_limit-Starved s h = rw h.no_limit refl

-- The loop goes round with nothing but the reported window changed.
turn-Starved :
    (src : Source) (round : ℕ) (s : ScanState)
    → Starved s
    → turn src round s ≡ goes_on (note_ordering_degraded (note_ordering_degraded s))
unfolding turn
turn-Starved src round s h =
    let s' = note_ordering_degraded s in
    let h' = degraded-Starved s h in
    ap (λ pending. turn_from src round pending s) h.none_pending
    ∙ if_false _ _ _ h.running
    ∙ if_false _ _ _ (no_limit-Starved s h)
    ∙ ap (after_refill s) (refill-Starved src round s h)
    ∙ ap after_emit (emit_next-Starved s' h')
    ∙ goes_on-Starved (note_ordering_degraded s') (degraded-Starved s' h')

-- A scan that may buffer no record, has no limit, nothing pending and nothing buffered, and a partition
-- with something to read, never answers: no number of turns of the loop of one call is enough,
-- whatever the brokers would answer.
pub next_event-Starved :
    (src : Source) (fuel round : ℕ) (s : ScanState) → Starved s → next_event src fuel round s ≡ none
unfolding next_event
next_event-Starved src zero round s h = refl
next_event-Starved src (suc fuel) round s h =
    let s' = note_ordering_degraded s in
    rw (next_event, turn-Starved src round s h)
      (next_event-Starved src fuel (round + 1) (note_ordering_degraded s')
        (degraded-Starved s' (degraded-Starved s h)))
