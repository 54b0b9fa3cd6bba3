-- ===== src/Produce/Accumulator/Tests.antt =====
-- The accumulator on small inputs.
use kaas_lib.Prelude.{
  ℕ_discrete, ℕ, ◌≡◌, ◌≢◌, refl, true, false, none, some, List, [], ◌∷◌, ◌++◌, map, filter, arith,
}
use kaas_lib.Prelude.Int.{pos}
use kaas_lib.Prelude.Map
use kaas_lib.Prelude.Text.{TopicPartition, TopicPartition-discrete}
use kaas_lib.Conn.Errors.{read_only}
use kaas_lib.Conn.ApiKey.{init_producer_id}
use kaas_lib.Produce.Idempotence.{ProducerIdentity, no_sequences, next_of, reserve}
use kaas_lib.Produce.Accumulator.Types.{
  ProducerRecord, Queued, Batch, PartitionState, Config, Completed, accounted_size, new_state,
  new_batch,
}
use kaas_lib.Produce.Accumulator.Buffer.{
  push, is_live, is_overdue, expired, expire, open_records, all_records,
}
use kaas_lib.Produce.Accumulator.Actor.{
  Surroundings, Actor, append_to, flush, has_work, claimed, ensure_identity, settle, settle_flushes,
  dispatch_one,
}
use kaas_lib.Produce.Accumulator.Order.{buffered}
use kaas_lib.Produce.Accumulator.Bounds.{IsSane, StateInv}
use kaas_lib.Produce.Accumulator.Answers.{buffered-expire}
use kaas_lib.Produce.Accumulator.Dispatch.{sent_records, WhenSent, dispatch_one_lem}
use kaas_lib.Produce.Accumulator.Life.{
  Event, append, close_now, linger, expire_at, fail_with, fail_closed, dispatch, settled, run,
  unborn, LifeInv,
}
use kaas_lib.Produce.Accumulator.History.{run-unborn-LifeInv}
use kaas_lib.Produce.Accumulator.Work.{
  Wake, World, received, handles_gone, timer, finished, run_loop, Every,
}
use kaas_lib.Produce.Accumulator.Whole.{Bounded, run_loop-Bounded}
use kaas_lib.Produce.Accumulator.Flush.{IsDrained, settle_flushes_lem}
use kaas_lib.Produce.Accumulator.Stamp.{IsStamped, dispatch_one-IsStamped}
use kaas_lib.Produce.Accumulator.Late.{settled_late, settle_late}

abbrev config : Config
config = record {
  batch_size = 100;
  max_request_size = 1000;
  buffer_memory = 10_000;
  linger = 5;
  delivery_timeout = 120;
  idempotent = true;
}

config-IsSane : IsSane config
config-IsSane = record { batch_size_small = omega arith; max_request_size_small = omega arith }

abbrev orders : TopicPartition
orders = record { topic = "orders"; partition = pos 0 }

abbrev item : ProducerRecord
item = record {
  topic = "orders";
  partition = some (pos 0);
  key = some (b'k' ∷ []);
  value = some (b'v' ∷ b'v' ∷ []);
  headers = [];
  timestamp = none;
}

-- The record of one caller, with a deadline.
abbrev queued : ℕ → ℕ → Queued
queued caller deadline = record { item = item; deadline = deadline; caller = caller }

accounted : accounted_size item ≡ 35
unfolding accounted_size
accounted = refl

abbrev one_open : PartitionState
one_open = record {
  open_batch = some (push (queued 1 50) (new_batch 3));
  pending = [];
  in_flight = false;
}

one_open-StateInv : StateInv config one_open
unfolding accounted_size
one_open-StateInv = record {
  accepting = (
    record { has_record = refl; counted = refl; fits = λ two. absurd (omega arith) },
    omega arith,
  );
  sendable = tt;
}

abbrev closed_batch : Batch
closed_batch = push (queued 2 60) (push (queued 1 50) (new_batch 3))

abbrev two_waiting : PartitionState
two_waiting = record {
  open_batch = some (push (queued 3 70) (new_batch 8));
  pending = closed_batch ∷ [];
  in_flight = false;
}

abbrev issued : ProducerIdentity
issued = record { producer_id = pos 4000; producer_epoch = pos 0 }

abbrev surroundings : Surroundings
surroundings = record { transactional = false; enrolled = λ _. false; leader = λ _. some (pos 1) }

abbrev events : List Event
events =
    append (queued 1 50) 0
    ∷ append (queued 2 9) 1
    ∷ linger 6
    ∷ append (queued 3 90) 7
    ∷ expire_at 10
    ∷ dispatch surroundings no_sequences
    ∷ close_now
    ∷ settled
    ∷ dispatch surroundings no_sequences
    ∷ append (queued 4 95) 11
    ∷ close_now
    ∷ fail_closed (read_only init_producer_id)
    ∷ append (queued 5 99) 12
    ∷ fail_with (read_only init_producer_id)
    ∷ []

run-unborn-LifeInv_example : LifeInv config (run config (some issued) orders unborn events)
run-unborn-LifeInv_example = run-unborn-LifeInv config config-IsSane (some issued) orders events

buffered-expire_example :
    (buffered (expire 55 120 two_waiting).0 ≡ filter (is_live 55) (buffered two_waiting))
    × ((expire 55 120 two_waiting).1
        ≡ map (expired 55 120) (filter (is_overdue 55) (open_records two_waiting.open_batch))
          ++ map (expired 55 120) (filter (is_overdue 55) (all_records two_waiting.pending)))
buffered-expire_example = buffered-expire 55 120 two_waiting

dispatch_one_lem_example :
    let turn = dispatch_one surroundings (some issued) orders two_waiting no_sequences in
    (buffered two_waiting ≡ sent_records turn.sent ++ buffered turn.state)
    × WhenSent surroundings orders two_waiting turn.state turn.sent
dispatch_one_lem_example =
    dispatch_one_lem surroundings (some issued) orders two_waiting no_sequences

abbrev running : Actor
running = record {
  partitions = (orders, two_waiting) ∷ [];
  flush_waiters = [];
  identity = some issued;
  identity_attempts = 0;
  sequences = record { next = (orders, pos 17) ∷ [] };
}

abbrev renewed : ProducerIdentity
renewed = record { producer_id = pos 4001; producer_epoch = pos 0 }

abbrev identity_lost : Completed
identity_lost = record { partitions = []; released = []; reset_identity = true }

settle_late_example :
    let late = settled_late orders 2 identity_lost (orders ∷ []) running in
    let after =
      (ensure_identity config
        (record { try_from_code = λ _. some true })
        (claimed renewed)
        late).0 in
    (after.identity ≡ some renewed)
    × ((reserve after.sequences orders 3).1 ≡ next_of running.sequences orders)
unfolding settle has_work Map.lookup Map.insert TopicPartition-discrete ℕ_discrete
settle_late_example =
    settle_late config (record { try_from_code = λ _. some true }) renewed running identity_lost
      (orders ∷ []) orders 2 3 refl refl refl

abbrev world : ℕ → World
world now = record {
  now = now;
  codec = record { try_from_code = λ _. some true };
  claim = claimed issued;
  transactions = none;
  enrol_answer = none;
  surroundings = surroundings;
}

abbrev turns : List (Wake × World)
turns =
    (received (append_to orders (queued 1 50)), world 0)
    ∷ (received (append_to orders (queued 2 9)), world 1)
    ∷ (timer, world 6)
    ∷ (received (flush 7), world 11)
    ∷ (
      finished (record { partitions = orders ∷ []; released = []; reset_identity = false }),
      world 12,
    )
    ∷ (handles_gone, world 13)
    ∷ []

run_loop-Bounded_example : Bounded config (run_loop config turns).partitions
run_loop-Bounded_example = run_loop-Bounded config config-IsSane turns

abbrev drained : Actor
drained = record running { partitions = (orders, new_state) ∷ []; flush_waiters = 7 ∷ [] }

settle_flushes_lem_example :
    ((settle_flushes drained).1 ≢ []
      → ((settle_flushes drained).1 ≡ drained.flush_waiters)
        × ((settle_flushes drained).0.flush_waiters ≡ [])
        × Every IsDrained drained.partitions)
    × ((settle_flushes drained).1 ≡ [] → (settle_flushes drained).0 ≡ drained)
settle_flushes_lem_example = settle_flushes_lem drained

dispatch_one-IsStamped_example :
    let turn = dispatch_one surroundings (some issued) orders two_waiting no_sequences in
    IsStamped surroundings.transactional no_sequences orders (some issued) turn.sequences turn.sent
dispatch_one-IsStamped_example =
    dispatch_one-IsStamped surroundings (some issued) orders two_waiting no_sequences
