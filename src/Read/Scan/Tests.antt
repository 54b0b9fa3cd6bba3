-- ===== src/Read/Scan/Tests.antt =====
-- A scan of one small partition.
use kaas_lib.Prelude.{◌≡◌, refl, false, none, [], ◌∷◌, arith}
use kaas_lib.Prelude.Int.{ℤ, pos}
use kaas_lib.Meta.Retry.Reask.{ok}
use kaas_lib.Read.Record.{Record, creation, decoded}
use kaas_lib.Read.Scan.{exhausted, ScanSpec, new_spec, PartitionCursor, ScanState}
use kaas_lib.Read.Scan.Plan.{
  resolve_offset_start, IsClamped, resolve_offset_start-IsClamped, start_state,
}
use kaas_lib.Read.Scan.Absorb.{Source, FetchedPartition, absorb_into}
use kaas_lib.Read.Scan.Step.{choose, turn, next_event}
use kaas_lib.Read.Scan.Buffer.{Holds, Sound}
use kaas_lib.Read.Scan.Progress.{MovedOn, absorb_into-MovedOn}
use kaas_lib.Read.Scan.Events.{Reached, AtMost, begun, called, Reached-start_state}
use kaas_lib.Read.Scan.Merge.{IsFirstLeast, choose-IsFirstLeast}
use kaas_lib.Read.Scan.Stall.{Starved, next_event-Starved}

abbrev source : Source
source = record {
  decoder = record {
    codecs = record {
      take_to_end = λ _ n input. ok input;
      framed = λ input. ok input;
      decompress_len = λ input. ok 0;
      decompress = λ input buffer. ok buffer;
      refused = [];
    };
    decode = λ _ _. ok [];
    too_many = λ _ _. [];
  };
  fetch = λ _ _ _. ok [];
  too_large = λ _ _ _. [];
}

abbrev spec : ScanSpec
spec = new_spec "orders"

abbrev cursor : PartitionCursor
cursor = record {
  partition = pos 0;
  leader = pos 1;
  next_offset = pos 5;
  end_offset = pos 9;
  start_offset = pos 5;
  substituted = none;
  buffered = [];
  finished = false;
}

abbrev fetched : FetchedPartition
fetched = record {
  partition = pos 0;
  high_watermark = pos 9;
  last_stable_offset = pos 9;
  log_start_offset = pos 7;
  records = [];
  aborted = [];
}

resolve_offset_start-IsClamped_example :
    IsClamped (pos 3) (pos 5) (pos 9) (resolve_offset_start (pos 3) (pos 5) (pos 9))
resolve_offset_start-IsClamped_example =
    resolve_offset_start-IsClamped (pos 3) (pos 5) (pos 9) (omega arith)

absorb_into-MovedOn_example : Holds (MovedOn (pos 5)) (absorb_into source spec fetched cursor)
absorb_into-MovedOn_example =
    absorb_into-MovedOn source spec fetched cursor refl (omega arith) (omega arith)

abbrev record_at : ℤ → ℤ → Record
record_at offset timestamp = record {
  topic = "orders";
  partition = pos 0;
  offset = offset;
  timestamp = timestamp;
  timestamp_type = creation;
  key = none;
  value = none;
  headers = [];
  producer_id = none;
  transactional = false;
  leader_epoch = none;
}

abbrev holding : ℤ → PartitionCursor
holding timestamp = record cursor { buffered = decoded (record_at (pos 5) timestamp) ∷ [] }

choose-IsFirstLeast_example :
    IsFirstLeast
      (holding (pos 30) ∷ holding (pos 20) ∷ holding (pos 20) ∷ [])
      (choose (holding (pos 30) ∷ holding (pos 20) ∷ holding (pos 20) ∷ []))
choose-IsFirstLeast_example =
    choose-IsFirstLeast (holding (pos 30) ∷ holding (pos 20) ∷ holding (pos 20) ∷ [])

abbrev announced_state : ScanState
announced_state = record (start_state spec (cursor ∷ [])) { pending = [] }

-- The first event is the announcement of the partition.
first_event : Reached source (start_state spec (cursor ∷ [])) 0 announced_state
unfolding next_event turn start_state
first_event = called 1 0 begun refl

Reached-start_state_example : Sound 0 0 announced_state × AtMost announced_state.spec.limit 0
Reached-start_state_example =
    Reached-start_state source spec (cursor ∷ []) 0 announced_state ((tt, tt), refl) first_event

abbrev starved_state : ScanState
starved_state = record announced_state { spec = record spec { max_buffered_records = 0 } }

starved_state-Starved : Starved starved_state
unfolding start_state choose exhausted
starved_state-Starved = record {
  no_room = refl;
  no_limit = refl;
  running = refl;
  none_pending = refl;
  waiting = refl;
  none_buffered = refl;
}

next_event-Starved_example : next_event source 500 0 starved_state ≡ none
next_event-Starved_example = next_event-Starved source 500 0 starved_state starved_state-Starved
