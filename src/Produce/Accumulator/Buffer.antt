-- ===== src/Produce/Accumulator/Buffer.antt =====
-- kafka-produce/src/accumulator.rs: what happens to the buffered batches of one partition.
use kaas_lib.Prelude.{
  ℕ, ◌+◌, ◌-◌, Bool, false, ◌&&◌, ◌||◌, not, if◌then◌else◌, ltb, leb, Option, none, some, List, [],
  ◌∷◌, ◌++◌, map, sum_by, filter, all, is_empty,
}
use kaas_lib.Prelude.Words.{usize_saturating_add, duration_saturating_add}
use kaas_lib.Conn.Errors.{Error, timeout}
use kaas_lib.Conn.ApiKey.{produce}
use kaas_lib.Produce.Accumulator.Types.{
  Queued, Batch, PartitionState, Config, Outcome, failed, size_of, new_batch,
}

-- `state.pending.push_back(batch)`, after the open batch was taken.
abbrev pub close_open : Option Batch → List Batch → List Batch
close_open none pending = pending
close_open (some full) pending = pending ++ (full ∷ [])

-- The open batch is closed whatever it holds (`close_all`).
unfoldable pub close : PartitionState → PartitionState
close s = record s { open_batch = none; pending = close_open s.open_batch s.pending }

-- Whether the open batch is past its linger.
abbrev pub lingered : Option Batch → ℕ → ℕ → Bool
lingered none linger now = false
lingered (some b) linger now = leb (b.opened_at + linger) now

-- `close_expired` at one partition.
unfoldable pub close_lingered : ℕ → ℕ → PartitionState → PartitionState
unfolding close
close_lingered linger now s = if lingered s.open_batch linger now then close s else s

-- Whether a record of this size would push the open batch past either bound.
abbrev pub would_overflow : Config → ℕ → Option Batch → Bool
would_overflow c size none = false
would_overflow c size (some b) =
    let would_be = usize_saturating_add b.bytes size in
    not (is_empty b.records) && (ltb c.batch_size would_be || ltb c.max_request_size would_be)

-- `get_or_insert_with(|| Batch::new(now))`
abbrev pub or_new : Option Batch → ℕ → Batch
or_new (some b) now = b
or_new none now = new_batch now

-- A record joins a batch.
abbrev pub push : Queued → Batch → Batch
push q b = record b {
  records = b.records ++ (q ∷ []);
  bytes = usize_saturating_add b.bytes (size_of q);
}

-- The record joins the open batch, and a batch that has reached the target closes.
unfoldable pub join_open : Config → Queued → ℕ → PartitionState → PartitionState
join_open c q now s =
    let b = push q (or_new s.open_batch now) in
    if leb c.batch_size b.bytes
    then record s { open_batch = none; pending = s.pending ++ (b ∷ []) }
    else record s { open_batch = some b }

-- `Actor::append` at the record's partition.
unfoldable pub append_record : Config → Queued → ℕ → PartitionState → PartitionState
unfolding close
append_record c q now s =
    join_open c q now (if would_overflow c (size_of q) s.open_batch then close s else s)

-- Whether a record's deadline lies ahead.
abbrev pub is_live : ℕ → Queued → Bool
is_live now q = ltb now q.deadline

abbrev pub is_overdue : ℕ → Queued → Bool
is_overdue now q = leb q.deadline now

-- `Error::Timeout` with the budget and the overshoot.
abbrev pub expired : ℕ → ℕ → Queued → ℕ × Outcome
expired now budget q =
    (q.caller, failed (timeout produce (duration_saturating_add budget (now - q.deadline))))

-- The records of a batch whose deadline has passed are answered and leave it.
unfoldable pub drop_expired : ℕ → ℕ → Batch → Batch × List (ℕ × Outcome)
drop_expired now budget b = if all (is_live now) b.records then (b, []) else (
  record b {
    records = filter (is_live now) b.records;
    bytes = sum_by size_of (filter (is_live now) b.records);
  },
  map (expired now budget) (filter (is_overdue now) b.records),
)

-- `take_if(|open| open.records.is_empty())`, once the expired records are dropped.
abbrev pub keep_open : Batch → Option Batch
keep_open b = if is_empty b.records then none else some b

unfoldable pub expire_open : ℕ → ℕ → Option Batch → Option Batch × List (ℕ × Outcome)
expire_open now budget none = (none, [])
expire_open now budget (some b) =
    let (b', answers) = drop_expired now budget b in (keep_open b', answers)

-- The loop over `pending`, and the `retain` of what is not empty.
unfoldable pub expire_pending : ℕ → ℕ → List Batch → List Batch × List (ℕ × Outcome)
expire_pending now budget [] = ([], [])
expire_pending now budget (b ∷ bs) =
    let (b', answers) = drop_expired now budget b in
    let (kept, rest) = expire_pending now budget bs in
    (if is_empty b'.records then kept else b' ∷ kept, answers ++ rest)

-- `expire_overdue` at one partition.
unfoldable pub expire : ℕ → ℕ → PartitionState → PartitionState × List (ℕ × Outcome)
unfolding expire_open expire_pending
expire now budget s =
    let (open_batch, first) = expire_open now budget s.open_batch in
    let (pending, rest) = expire_pending now budget s.pending in
    (record s { open_batch = open_batch; pending = pending }, first ++ rest)

-- Every record of a batch is answered with one error.
abbrev pub fail_all : Error → List Queued → List (ℕ × Outcome)
fail_all e = map (λ q. (q.caller, failed e))

abbrev pub open_records : Option Batch → List Queued
open_records none = []
open_records (some b) = b.records

abbrev pub all_records : List Batch → List Queued
all_records [] = []
all_records (b ∷ bs) = b.records ++ all_records bs

-- `fail_buffered` at one partition: what is on the wire is left alone.
unfoldable pub fail_state : Error → PartitionState → PartitionState × List (ℕ × Outcome)
fail_state e s = (
  record s { open_batch = none; pending = [] },
  fail_all e (open_records s.open_batch ++ all_records s.pending),
)
