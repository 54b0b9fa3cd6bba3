-- ===== src/Read/Scan/Step.antt =====
-- `emit_next` and `next_event`: one event of the scan.
use kaas_lib.Prelude.{
  ℕ, zero, suc, ◌+◌, ◌-◌, Bool, true, not, ◌&&◌, if◌then◌else◌, leb, any, is_empty, filter, length,
  Option, none, some, List, [], ◌∷◌, ◌++◌,
}
use kaas_lib.Prelude.Int.{ℤ, pos, ltb_ℤ}
use kaas_lib.Prelude.Words.{i64_saturating_sub}
use kaas_lib.Conn.Errors.{Error}
use kaas_lib.Meta.Retry.Reask.{Result, ok, err}
use kaas_lib.Read.Record.{RecordOutcome, decoded, malformed, Record}
use kaas_lib.Read.Scan.{
  RecordFilter, matches, ScanEvent, record_read, malformed_read, progressed, partition_complete,
  finished_scan, PartitionCursor, ScanState, exhausted, is_drained, head_timestamp, limit_reached,
  all_exhausted,
}
use kaas_lib.Read.Scan.Absorb.{Source, refill, note_ordering_degraded}

-- `filter_map(..).min_by_key(..)`: the first cursor whose head has the least timestamp, with its index.
abbrev pub earlier_of : Option ℤ → Option (ℕ × ℤ) → Option (ℕ × ℤ)
earlier_of none none = none
earlier_of none (some (index, ts)) = some (suc index, ts)
earlier_of (some ts) none = some (0, ts)
earlier_of (some ts) (some (index, best)) =
    if ltb_ℤ best ts then some (suc index, best) else some (0, ts)

unfoldable pub choose : List PartitionCursor → Option (ℕ × ℤ)
choose [] = none
choose (c ∷ cursors) = earlier_of (head_timestamp c) (choose cursors)

-- `cursors.get_mut(choice)?` and `buffered.pop_front()?`: the outcome, its cursor afterwards, and all
-- cursors afterwards.
abbrev pub popped_from :
    PartitionCursor
    → List RecordOutcome
    → List PartitionCursor
    → Option (RecordOutcome × PartitionCursor × List PartitionCursor)
popped_from c [] cursors = none
popped_from c (outcome ∷ rest) cursors =
    let c' = record c { buffered = rest } in some (outcome, c', c' ∷ cursors)

abbrev pub keep_front :
    PartitionCursor
    → Option (RecordOutcome × PartitionCursor × List PartitionCursor)
    → Option (RecordOutcome × PartitionCursor × List PartitionCursor)
keep_front c none = none
keep_front c (some (outcome, c', cursors)) = some (outcome, c', c ∷ cursors)

unfoldable pub pop_at :
    ℕ → List PartitionCursor → Option (RecordOutcome × PartitionCursor × List PartitionCursor)
pop_at index [] = none
pop_at zero (c ∷ cursors) = popped_from c c.buffered cursors
pop_at (suc index) (c ∷ cursors) = keep_front c (pop_at index cursors)

-- The outcome is counted, and a partition that it drained is reported unless the scan follows.
unfoldable pub count_scanned : ScanState → PartitionCursor → List PartitionCursor → ScanState
count_scanned s c cursors =
    let scanned = record s.progress {
      records_scanned = s.progress.records_scanned + 1;
      offsets_consumed = s.progress.offsets_consumed + 1;
    } in
    let popped = record s {
      cursors = cursors;
      buffered_total = s.buffered_total - 1;
      progress = scanned;
    } in
    if is_drained c && not s.spec.follow
    then record popped {
      progress = record scanned {
        partitions_active = length (filter (λ k. not (is_drained k)) cursors);
      };
      pending =
          s.pending
          ++ (partition_complete c.partition (i64_saturating_sub c.next_offset (pos 1)) ∷ []);
    }
    else popped

unfoldable pub note_progress : ScanState → ScanState
note_progress s =
    if leb s.next_progress_at s.progress.records_scanned
    then record s {
      next_progress_at = s.next_progress_at + s.progress_every;
      pending = s.pending ++ (progressed s.progress ∷ []);
    }
    else s

abbrev pub pop_pending : List ScanEvent → ScanState → Option ScanEvent × ScanState
pop_pending [] s = (none, s)
pop_pending (event ∷ pending) s = (some event, record s { pending = pending })

abbrev pub passes : Option RecordFilter → Record → Bool
passes none r = true
passes (some wanted) r = matches wanted r

-- A record that the filter refuses is no event of its own.
unfoldable pub emit_outcome : ℤ → RecordOutcome → ScanState → Option ScanEvent × ScanState
emit_outcome partition (decoded r) s =
    if passes s.spec.record_filter r
    then (
      some (record_read r),
      record s {
        progress = record s.progress { records_emitted = s.progress.records_emitted + 1 };
      },
    )
    else pop_pending s.pending s
emit_outcome partition (malformed offset last raw reason) s =
    (some (malformed_read s.spec.topic partition offset last raw reason), s)

abbrev pub emit_popped :
    ScanState
    → Option (RecordOutcome × PartitionCursor × List PartitionCursor)
    → Option ScanEvent × ScanState
emit_popped s none = (none, s)
emit_popped s (some (outcome, c, cursors)) =
    emit_outcome c.partition outcome (note_progress (count_scanned s c cursors))

abbrev pub emit_choice : ScanState → Option (ℕ × ℤ) → Option ScanEvent × ScanState
emit_choice s none = (none, s)
emit_choice s (some (index, _)) = emit_popped s (pop_at index s.cursors)

-- Whether a partition that still has something to read has nothing buffered.
abbrev pub is_waiting : PartitionCursor → Bool
is_waiting c = not (exhausted c) && is_empty c.buffered

unfoldable pub emit_next : ScanState → Option ScanEvent × ScanState
emit_next s =
    if any is_waiting s.cursors
    then if leb s.spec.max_buffered_records s.buffered_total
      then emit_choice (note_ordering_degraded s) (choose s.cursors)
      else (none, s)
    else emit_choice s (choose s.cursors)

unfoldable pub finish : ScanState → ScanEvent × ScanState
finish s =
    let progress = record s.progress { partitions_active = 0 } in
    (finished_scan progress, record s { done = true; progress = progress })

-- What a caller is given: an event or an error, or nothing more.
abbrev pub Answer : Type 0
Answer = Option (Result Error ScanEvent) × ScanState

-- One turn of the loop: an answer, or the state to go on with.
pub data Turn : Type 0 where
  answers : Answer → Turn
  goes_on : ScanState → Turn

abbrev pub finishes : ScanState → Turn
finishes s = let (event, s') = finish s in answers (some (ok event), s')

abbrev pub after_emit : Option ScanEvent × ScanState → Turn
after_emit (some event, s) = answers (some (ok event), s)
after_emit (none, s) = if all_exhausted s then finishes s else goes_on s

abbrev pub after_refill : ScanState → Result Error (ScanState × Bool) → Turn
after_refill s (err e) = answers (some (err e), record s { done = true })
after_refill s (ok (s', read)) = after_emit (emit_next s')

abbrev pub turn_from : Source → ℕ → List ScanEvent → ScanState → Turn
turn_from src round (event ∷ pending) s = answers (some (ok event), record s { pending = pending })
turn_from src round [] s =
    if s.done
    then answers (none, s)
    else if limit_reached s
    then finishes s
    else after_refill s (refill src round s)

unfoldable pub turn : Source → ℕ → ScanState → Turn
turn src round s = turn_from src round s.pending s

-- The loop. `none` means that the fuel ran out.
unfoldable pub next_event : Source → ℕ → ℕ → ScanState → Option Answer
next_event src zero round s = none
next_event src (suc fuel) round s = elim (turn src round s) [
  | answers answer ↦ some answer
  | goes_on s' ↦ next_event src fuel (round + 1) s'
]
