-- ===== src/Read/Scan/Emit.antt =====
-- What one event does to the buffers of a scan, and which record it is.
use kaas_lib.Prelude.{
  ℕ, zero, suc, ◌+◌, ◌-◌, ◌≡◌, refl, ap, subst, true, not, ◌&&◌, if_cases, leb, any, length, All,
  All-push, sum_by, Option, none, some, List, [], ◌∷◌, arith,
}
use kaas_lib.Prelude.Int.{ℤ}
use kaas_lib.Read.Record.{RecordOutcome, decoded, malformed}
use kaas_lib.Read.Scan.{ScanState, ScanEvent, PartitionCursor, is_drained}
use kaas_lib.Read.Scan.Absorb.{is_kept, note_ordering_degraded}
use kaas_lib.Read.Scan.Step.{
  choose, popped_from, keep_front, pop_at, count_scanned, note_progress, pop_pending, passes,
  emit_outcome, emit_popped, emit_choice, is_waiting, emit_next,
}
use kaas_lib.Read.Scan.Buffer.{InStart, size, Hold, reads, Sound, note_ordering_degraded-Sound}

-- Popping one of n outcomes leaves one less, if there is one to pop.
abbrev Popped : ℕ → Option (RecordOutcome × PartitionCursor × List PartitionCursor) → Type 0
Popped n none = Unit
Popped n (some (outcome, c, cursors)) = (m : ℕ) × (n ≡ suc m) × Hold m cursors

popped_from-Popped :
    (c : PartitionCursor) (outcomes : List RecordOutcome) (cursors : List PartitionCursor)
    → c.buffered ≡ outcomes
    → InStart c
    → All InStart cursors
    → Popped (length outcomes + sum_by size cursors) (popped_from c outcomes cursors)
popped_from-Popped c [] cursors e h g = tt
popped_from-Popped c (outcome ∷ rest) cursors e h g =
    let held : All (λ o. is_kept c.start_offset o ≡ true) (outcome ∷ rest) =
      subst (All (λ o. is_kept c.start_offset o ≡ true)) e h in
    (length rest + sum_by size cursors, omega arith, ((held.1, g), refl))

keep_front-Popped :
    (c : PartitionCursor) (n : ℕ)
    (o : Option (RecordOutcome × PartitionCursor × List PartitionCursor))
    → InStart c
    → Popped n o
    → Popped (size c + n) (keep_front c o)
keep_front-Popped c n none h g = tt
keep_front-Popped c n (some (outcome, c', cursors)) h (m, e, held) =
    (size c + m, omega (arith, e), ((h, held.0), ap (λ k. size c + k) held.1))

pop_at-Popped :
    (index : ℕ) (cursors : List PartitionCursor)
    → All InStart cursors
    → Popped (sum_by size cursors) (pop_at index cursors)
unfolding pop_at
pop_at-Popped index [] h = tt
pop_at-Popped zero (c ∷ cursors) h = popped_from-Popped c c.buffered cursors refl h.0 h.1
pop_at-Popped (suc index) (c ∷ cursors) h =
    keep_front-Popped c (sum_by size cursors) (pop_at index cursors) h.0
      (pop_at-Popped index cursors h.1)

-- So many records were handed out, and the state is as it should be.
recount : (n k : ℕ) (s : ScanState) → Sound n 0 s → n ≡ k → Sound k 0 s
recount n k s h e = subst (λ i. Sound i 0 s) e h

weaken : (n : ℕ) (s : ScanState) → Sound n 1 s → Sound n 0 s
weaken n s h = record {
  held = h.held;
  within = λ limit e. let b = h.within limit e in omega arith;
  counted = h.counted;
  quiet = h.quiet;
}

-- The records of an event, if there is one, are counted.
abbrev pub read_by : Option ScanEvent → ℕ
read_by none = 0
read_by (some event) = reads event

abbrev pub Emitted : ℕ → Option ScanEvent × ScanState → Type 0
Emitted n (event, s) = Sound (n + read_by event) 0 s

no_event : (n : ℕ) (s : ScanState) → Sound n 0 s → Emitted n (none, s)
no_event n s h = recount n (n + 0) s h (omega arith)

count_scanned-Sound :
    (n : ℕ) (s : ScanState) (c : PartitionCursor) (cursors : List PartitionCursor) (m : ℕ)
    → Sound n 1 s
    → s.buffered_total ≡ suc m
    → Hold m cursors
    → Sound n 1 (count_scanned s c cursors)
unfolding count_scanned
count_scanned-Sound n s c cursors m h e held =
    let exact : sum_by size cursors ≡ s.buffered_total - 1 = omega (arith, held.1) in
    if_cases {A = ScanState} (Sound n 1) (is_drained c && not s.spec.follow)
      (λ _. record {
        held = (held.0, exact);
        within = h.within;
        counted = h.counted;
        quiet = All-push (λ event. reads event ≡ 0) s.pending h.quiet refl;
      })
      (λ _. record {
        held = (held.0, exact);
        within = h.within;
        counted = h.counted;
        quiet = h.quiet;
      })

note_progress-Sound : (n : ℕ) (s : ScanState) → Sound n 1 s → Sound n 1 (note_progress s)
unfolding note_progress
note_progress-Sound n s h =
    if_cases {A = ScanState} (Sound n 1) (leb s.next_progress_at s.progress.records_scanned)
      (λ _. record {
        held = h.held;
        within = h.within;
        counted = h.counted;
        quiet = All-push (λ event. reads event ≡ 0) s.pending h.quiet refl;
      })
      (λ _. h)

pop_pending-Emitted :
    (n : ℕ) (pending : List ScanEvent) (s : ScanState)
    → All (λ event. reads event ≡ 0) pending
    → Sound n 0 s
    → Emitted n (pop_pending pending s)
pop_pending-Emitted n [] s quiet h = no_event n s h
pop_pending-Emitted n (event ∷ pending) s quiet h = record {
  held = h.held;
  within = h.within;
  counted = omega (arith, h.counted, quiet.0);
  quiet = quiet.1;
}

emit_outcome-Emitted :
    (n : ℕ) (partition : ℤ) (outcome : RecordOutcome) (s : ScanState)
    → Sound n 1 s
    → Emitted n (emit_outcome partition outcome s)
unfolding emit_outcome
emit_outcome-Emitted n partition (malformed offset last raw reason) s h =
    recount n (n + 0) s (weaken n s h) (omega arith)
emit_outcome-Emitted n partition (decoded r) s h =
    if_cases {A = Option ScanEvent × ScanState} (Emitted n) (passes s.spec.record_filter r)
      (λ _. record {
        held = h.held;
        within = λ limit e. let b = h.within limit e in omega arith;
        counted = omega (arith, h.counted);
        quiet = h.quiet;
      })
      (λ _. pop_pending-Emitted n s.pending s h.quiet (weaken n s h))

emit_popped-Emitted :
    (n : ℕ) (s : ScanState) (o : Option (RecordOutcome × PartitionCursor × List PartitionCursor))
    → Sound n 1 s
    → Popped s.buffered_total o
    → Emitted n (emit_popped s o)
emit_popped-Emitted n s none h g = no_event n s (weaken n s h)
emit_popped-Emitted n s (some (outcome, c, cursors)) h (m, e, held) =
    emit_outcome-Emitted n c.partition outcome (note_progress (count_scanned s c cursors)) (
      note_progress-Sound n (count_scanned s c cursors)
        (count_scanned-Sound n s c cursors m h e held))

emit_choice-Emitted :
    (n : ℕ) (s : ScanState) (o : Option (ℕ × ℤ)) → Sound n 1 s → Emitted n (emit_choice s o)
emit_choice-Emitted n s none h = no_event n s (weaken n s h)
emit_choice-Emitted n s (some (index, ts)) h = emit_popped-Emitted n s (pop_at index s.cursors) h (
    subst (λ k. Popped k (pop_at index s.cursors)) h.held.1
      (pop_at-Popped index s.cursors h.held.0))

pub emit_next-Emitted : (n : ℕ) (s : ScanState) → Sound n 1 s → Emitted n (emit_next s)
unfolding emit_next
emit_next-Emitted n s h =
    if_cases {A = Option ScanEvent × ScanState} (Emitted n) (any is_waiting s.cursors)
      (λ _.
        if_cases {A = Option ScanEvent × ScanState} (Emitted n)
          (leb s.spec.max_buffered_records s.buffered_total)
          (λ _.
            emit_choice-Emitted n (note_ordering_degraded s) (choose s.cursors)
              (note_ordering_degraded-Sound n 1 s h))
          (λ _. no_event n s (weaken n s h)))
      (λ _. emit_choice-Emitted n s (choose s.cursors) h)
