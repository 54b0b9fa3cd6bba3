-- ===== src/Read/Scan/Plan.antt =====
-- `scan` and `plan`: where every partition starts, and the state a scan starts in.
use kaas_lib.Prelude.{
  ◌≡◌, refl, false, not, ◌&&◌, if◌then◌else◌, if_cases, arith, ◌⊎◌, inl, inr, Option, none, some,
  List, [], ◌∷◌, map, length,
}
use kaas_lib.Prelude.Int.{ℤ, pos, ◌+ℤ◌, ◌≤ℤ◌, ◌<ℤ◌, ltb_ℤ, leb_ℤ}
use kaas_lib.Prelude.Words.{i64_saturating_sub}
use kaas_lib.Conn.Errors.{Error}
use kaas_lib.Meta.Retry.Reask.{Result, ok, err}
use kaas_lib.Read.Record.{max_ℤ}
use kaas_lib.Read.Scan.{
  StartPosition, earliest, latest, at_offset, at_timestamp, ScanSpec, StartSubstitution,
  offset_below_log_start, offset_beyond_log_end, timestamp_unresolved, ScanEvent, partition_started,
  PartitionCursor, ScanState,
}

unfoldable pub resolve_offset_start : ℤ → ℤ → ℤ → ℤ × Option StartSubstitution
resolve_offset_start requested first end =
    if ltb_ℤ requested first
    then (first, some (offset_below_log_start requested first))
    else if ltb_ℤ end requested
    then (end, some (offset_beyond_log_end requested end))
    else (requested, none)

-- What the cluster says of a partition: its leader, the bounds of its log, and the offset of the
-- first record at or after a timestamp.
pub record Lookups : Type 0 where
  pub leader_for : ℤ → Result Error ℤ
  pub bounds : ℤ → ℤ → Result Error (ℤ × ℤ)
  pub offset_at : ℤ → ℤ → ℤ → Result Error (Option ℤ)

abbrev pub resolve_timestamp : ℤ → ℤ → Option ℤ → ℤ × Option StartSubstitution
resolve_timestamp requested end (some offset) = (offset, none)
resolve_timestamp requested end none = (end, some (timestamp_unresolved requested end))

-- `result?`
abbrev pub and_then : {A B : Type 0} → Result Error A → (A → Result Error B) → Result Error B
and_then (err e) rest = err e
and_then (ok a) rest = rest a

abbrev pub resolve :
    (ℤ → Result Error (Option ℤ))
    → StartPosition
    → ℤ
    → ℤ
    → Result Error (ℤ × Option StartSubstitution)
resolve lookup earliest first end = ok (first, none)
resolve lookup latest first end = ok (end, none)
resolve lookup (at_offset offset) first end = ok (resolve_offset_start offset first end)
resolve lookup (at_timestamp timestamp) first end =
    and_then (lookup timestamp) (λ found. ok (resolve_timestamp timestamp end found))

module _ (l : Lookups) (spec : ScanSpec) where
  unfoldable pub plan_partition : ℤ → Result Error PartitionCursor
  plan_partition partition = and_then (l.leader_for partition) (λ leader.
      and_then (l.bounds partition leader) (λ (first, end).
        and_then (resolve (l.offset_at partition leader) spec.from first end)
          (λ (start, substituted). ok (record {
            partition = partition;
            leader = leader;
            next_offset = start;
            end_offset = end;
            start_offset = start;
            substituted = substituted;
            buffered = [];
            finished = leb_ℤ end start && not spec.follow;
          }))))

  unfoldable pub plan : List ℤ → Result Error (List PartitionCursor)
  plan [] = ok []
  plan (partition ∷ wanted) =
      and_then (plan_partition partition)
        (λ cursor. and_then (plan wanted) (λ cursors. ok (cursor ∷ cursors)))

abbrev pub total_of : List PartitionCursor → ℤ
total_of [] = pos 0
total_of (c ∷ cursors) =
    max_ℤ (i64_saturating_sub c.end_offset c.start_offset) (pos 0) +ℤ total_of cursors

abbrev pub started : PartitionCursor → ScanEvent
started c = partition_started c.partition c.start_offset c.substituted

-- `cursor.substituted.take()`
abbrev pub announced : PartitionCursor → PartitionCursor
announced c = record c { substituted = none }

-- The state that `scan` starts with.
unfoldable pub start_state : ScanSpec → List PartitionCursor → ScanState
start_state spec cursors = record {
  spec = spec;
  cursors = map announced cursors;
  progress = record {
    records_emitted = 0;
    records_scanned = 0;
    malformed_batches = 0;
    offsets_consumed = 0;
    offsets_total = total_of cursors;
    partitions_active = length cursors;
    partitions_planned = length cursors;
    reorder_window = 0;
  };
  pending = map started cursors;
  buffered_total = 0;
  done = false;
  progress_every = 1000;
  next_progress_at = 1000;
}

-- A start within the log, with what is said of it.
abbrev pub IsClamped : ℤ → ℤ → ℤ → ℤ × Option StartSubstitution → Type 0
IsClamped requested first end (start, substituted) =
    (first ≤ℤ start)
    × (start ≤ℤ end)
    × (((substituted ≡ none) × (start ≡ requested))
        ⊎ ((requested <ℤ first)
            × (start ≡ first)
            × (substituted ≡ some (offset_below_log_start requested first)))
        ⊎ ((end <ℤ requested)
            × (start ≡ end)
            × (substituted ≡ some (offset_beyond_log_end requested end))))

-- An explicit start is moved into the log, and the answer says so exactly if it had to be moved: one
-- before the log starts at its start, one past its end at its end.
pub resolve_offset_start-IsClamped :
    (requested first end : ℤ)
    → first ≤ℤ end
    → IsClamped requested first end (resolve_offset_start requested first end)
unfolding resolve_offset_start
resolve_offset_start-IsClamped requested first end h =
    if_cases {A = ℤ × Option StartSubstitution} (IsClamped requested first end)
      (ltb_ℤ requested first) (λ below. (ground arith, h, inr (inl (ground arith, refl, refl))))
      (λ reached.
        if_cases {A = ℤ × Option StartSubstitution} (IsClamped requested first end)
          (ltb_ℤ end requested) (λ beyond. (h, ground arith, inr (inr (ground arith, refl, refl))))
          (λ inside. (ground arith, ground arith, inl (refl, refl))))
