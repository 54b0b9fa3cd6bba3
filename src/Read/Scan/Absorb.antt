-- ===== src/Read/Scan/Absorb.antt =====
-- The body of `refill` for one partition of an answer, and its round over the leaders.
use kaas_lib.Prelude.{
  ℕ, ◌+◌, Bool, true, false, not, ◌&&◌, ◌||◌, if◌then◌else◌, ltb, leb, ◌==◌, is_empty, filter,
  length, Option, none, some, List, [], ◌∷◌, ◌++◌, max, String,
}
use kaas_lib.Prelude.Int.{ℤ, pos, ltb_ℤ, leb_ℤ, eq_ℤ, ℤ-discrete}
use kaas_lib.Prelude.Words.{i64_saturating_add}
use kaas_lib.Prelude.Map.{lookup, insert}
use kaas_lib.Conn.Errors.{Error, unsupported}
use kaas_lib.Conn.Sanitize.{Text}
use kaas_lib.Meta.Retry.Reask.{Result, ok, err}
use kaas_lib.Read.Record.{
  Bytes, RecordOutcome, decoded, malformed, last_offset, is_malformed, max_ℤ,
}
use kaas_lib.Read.Batch.{
  AbortedTransaction, Visibility, everything, committed_only, DecodedPartition, nothing_decoded,
  Decoder, decode_partition,
}
use kaas_lib.Read.Scan.{
  ScanSpec, PartitionCursor, ScanState, exhausted, is_drained, should_fetch, reorder_window,
  decode_options,
}

-- `FetchTarget`, and `FetchedPartition`.
pub record FetchTarget : Type 0 where
  pub partition : ℤ
  pub offset : ℤ
  pub max_bytes : ℤ

pub record FetchedPartition : Type 0 where
  pub partition : ℤ
  pub high_watermark : ℤ
  pub last_stable_offset : ℤ
  pub log_start_offset : ℤ
  pub records : Bytes
  pub aborted : List AbortedTransaction

abbrev pub usable_end : Visibility → FetchedPartition → ℤ
usable_end everything f = f.high_watermark
usable_end committed_only f = f.last_stable_offset

-- `i64::min`
abbrev pub min_ℤ : ℤ → ℤ → ℤ
min_ℤ a b = if leb_ℤ a b then a else b

-- The end of the partition and a start that was deleted, taken from the answer.
unfoldable pub adjust : Visibility → FetchedPartition → PartitionCursor → PartitionCursor
adjust v f c =
    let end = usable_end v f in
    record c {
      end_offset =
          if leb_ℤ (pos 0) end
          then min_ℤ (max_ℤ c.end_offset end) (max_ℤ end c.end_offset)
          else c.end_offset;
      next_offset =
          if ltb_ℤ c.next_offset f.log_start_offset then f.log_start_offset else c.next_offset;
    }

abbrev pub one : ℤ
one = pos 1

-- The last offset that the outcomes cover.
abbrev pub last_of : ℤ → List RecordOutcome → ℤ
last_of here [] = here
last_of here (outcome ∷ outcomes) = last_of (last_offset outcome) outcomes

-- Records from before the start of the scan are dropped, undecodable batches kept.
abbrev pub is_kept : ℤ → RecordOutcome → Bool
is_kept start (decoded r) = leb_ℤ start r.offset
is_kept start (malformed _ _ _ _) = true

-- What a partition's part of an answer does to the cursor, and how many of its batches are damaged;
-- the flag says that something was read.
pub record Absorbed : Type 0 where
  pub cursor : PartitionCursor
  pub bad : ℕ
  pub kept : ℕ
  pub read : Bool

unfoldable pub absorb_nothing :
    Error → Bool → DecodedPartition → PartitionCursor → Result Error Absorbed
absorb_nothing too_large follow d c =
    if ltb 0 d.control_batches_skipped || ltb 0 d.aborted_records_skipped
    then ok (record {
      cursor = record c { next_offset = i64_saturating_add c.next_offset one };
      bad = 0;
      kept = 0;
      read = false;
    })
    else if not d.truncated_tail
    then ok
        (record { cursor = record c { finished = not follow }; bad = 0; kept = 0; read = false })
    else err too_large

unfoldable pub absorb_some : DecodedPartition → PartitionCursor → Absorbed
absorb_some d c =
    let kept = filter (is_kept c.start_offset) d.outcomes in
    record {
      cursor = record c {
        next_offset =
            max_ℤ (i64_saturating_add (last_of c.next_offset d.outcomes) one)
              (i64_saturating_add c.next_offset one);
        buffered = c.buffered ++ kept;
      };
      bad = length (filter is_malformed d.outcomes);
      kept = length kept;
      read = true;
    }

abbrev pub absorb : Error → Bool → DecodedPartition → PartitionCursor → Result Error Absorbed
absorb too_large follow d c =
    if is_empty d.outcomes then absorb_nothing too_large follow d c else ok (absorb_some d c)

-- The answer of `decode_partition`, which takes fuel.
abbrev pub or_nothing : Option DecodedPartition → DecodedPartition
or_nothing none = nothing_decoded
or_nothing (some d) = d

-- What a scan takes from elsewhere: the decoder, one leader's answer to a fetch in a round, and the
-- text that names a partition whose batch is larger than the budget.
pub record Source : Type 0 where
  pub decoder : Decoder
  pub fetch : ℕ → ℤ → List FetchTarget → Result Error (List FetchedPartition)
  pub too_large : String → ℤ → ℤ → Text

module _ (src : Source) where
  abbrev pub absorb_into : ScanSpec → FetchedPartition → PartitionCursor → Result Error Absorbed
  absorb_into spec f c =
      absorb (unsupported (src.too_large spec.topic f.partition spec.partition_max_bytes))
        spec.follow
        (or_nothing (
          decode_partition src.decoder (decode_options spec) spec.topic f.partition f.records
            f.aborted))
        (adjust spec.visibility f c)

  abbrev pub found_here :
      List PartitionCursor
      → Result Error Absorbed
      → Result Error (Option (List PartitionCursor × Absorbed))
  found_here cursors (err e) = err e
  found_here cursors (ok a) = ok (some (a.cursor ∷ cursors, a))

  abbrev pub found_later :
      PartitionCursor
      → Result Error (Option (List PartitionCursor × Absorbed))
      → Result Error (Option (List PartitionCursor × Absorbed))
  found_later c (err e) = err e
  found_later c (ok none) = ok none
  found_later c (ok (some (cursors, a))) = ok (some (c ∷ cursors, a))

  -- `cursors.iter_mut().find(..)`: the first cursor of the partition, if there is one.
  unfoldable pub absorb_first :
      ScanSpec
      → FetchedPartition
      → List PartitionCursor
      → Result Error (Option (List PartitionCursor × Absorbed))
  absorb_first spec f [] = ok none
  absorb_first spec f (c ∷ cursors) =
      let later = absorb_first spec f cursors in
      if eq_ℤ c.partition f.partition
      then found_here cursors (absorb_into spec f c)
      else found_later c later

  -- One partition of an answer, in the whole state.
  abbrev pub put : ScanState → Option (List PartitionCursor × Absorbed) → ScanState × Bool
  put s none = (s, false)
  put s (some (cursors, a)) = (
    record s {
      cursors = cursors;
      progress = record s.progress { malformed_batches = s.progress.malformed_batches + a.bad };
      buffered_total = s.buffered_total + a.kept;
    },
    a.read,
  )

  abbrev pub put_answer :
      ScanState
      → Result Error (Option (List PartitionCursor × Absorbed))
      → Result Error (ScanState × Bool)
  put_answer s (err e) = err e
  put_answer s (ok found) = ok (put s found)

  abbrev pub also_read : Bool → Result Error (ScanState × Bool) → Result Error (ScanState × Bool)
  also_read read (err e) = err e
  also_read read (ok (s, later)) = ok (s, read || later)

  abbrev pub then_read :
      Result Error (ScanState × Bool)
      → (ScanState → Result Error (ScanState × Bool))
      → Result Error (ScanState × Bool)
  then_read (err e) rest = err e
  then_read (ok (s, read)) rest = also_read read (rest s)

  -- `for partition in fetched`
  unfoldable pub take_answer : List FetchedPartition → ScanState → Result Error (ScanState × Bool)
  take_answer [] s = ok (s, false)
  take_answer (f ∷ fetched) s =
      then_read (put_answer s (absorb_first s.spec f s.cursors)) (take_answer fetched)

  abbrev pub take_fetched :
      Result Error (List FetchedPartition) → ScanState → Result Error (ScanState × Bool)
  take_fetched (err e) s = err e
  take_fetched (ok fetched) s = take_answer fetched s

  -- `for (leader, targets) in by_leader`
  unfoldable pub ask_leaders :
      ℕ → List (ℤ × List FetchTarget) → ScanState → Result Error (ScanState × Bool)
  ask_leaders round [] s = ok (s, false)
  ask_leaders round ((leader, targets) ∷ by_leader) s =
      then_read (take_fetched (src.fetch round leader targets) s) (ask_leaders round by_leader)

abbrev pub target_of : ScanSpec → PartitionCursor → FetchTarget
target_of spec c = record {
  partition = c.partition;
  offset = c.next_offset;
  max_bytes = spec.partition_max_bytes;
}

abbrev pub targets_or : Option (List FetchTarget) → List FetchTarget
targets_or none = []
targets_or (some targets) = targets

-- Whether a partition is asked for in this round.
abbrev pub wants : Bool → Bool → PartitionCursor → Bool
wants follow idle c = is_empty c.buffered && should_fetch (not (exhausted c)) follow idle

-- The partitions to ask for, by leader.
unfoldable pub by_leader :
    ScanSpec
    → Bool
    → List (ℤ × List FetchTarget)
    → List PartitionCursor
    → List (ℤ × List FetchTarget)
by_leader spec idle groups [] = groups
by_leader spec idle groups (c ∷ cursors) =
    by_leader spec idle
      (if wants spec.follow idle c
        then insert ℤ-discrete c.leader
            (targets_or (lookup ℤ-discrete c.leader groups) ++ (target_of spec c ∷ [])) groups
        else groups)
      cursors

-- The smallest window over which the merge is exact, as reported.
unfoldable pub note_ordering_degraded : ScanState → ScanState
note_ordering_degraded s =
    let merging = length (filter (λ c. not (is_drained c)) s.cursors) in
    record s {
      progress = record s.progress {
        reorder_window =
            max s.progress.reorder_window (reorder_window s.spec.max_buffered_records merging);
      };
    }

-- Fills the partitions that ran dry, unless the buffers are at their ceiling.
unfoldable pub refill : Source → ℕ → ScanState → Result Error (ScanState × Bool)
refill src round s =
    if leb s.spec.max_buffered_records s.buffered_total
    then ok (note_ordering_degraded s, false)
    else ask_leaders src round (by_leader s.spec (s.buffered_total == 0) [] s.cursors) s
