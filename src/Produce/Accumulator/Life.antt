-- ===== src/Produce/Accumulator/Life.antt =====
-- The whole life of one partition's buffer (kafka-produce/src/accumulator.rs) as a list of events.
use kaas_lib.Prelude.{
  ℕ, suc, ◌+◌, ◌-◌, ◌≤◌, ◌≡◌, false, Option, none, some, List, [], ◌∷◌, ◌++◌, length,
}
use kaas_lib.Prelude.Text.{TopicPartition}
use kaas_lib.Conn.Errors.{Error}
use kaas_lib.Produce.Idempotence.{ProducerIdentity, Sequences}
use kaas_lib.Produce.Accumulator.Types.{Queued, PartitionState, Config, Ready, new_state}
use kaas_lib.Produce.Accumulator.Buffer.{
  close, close_lingered, append_record, expire, fail_all, fail_state, all_records,
}
use kaas_lib.Produce.Accumulator.Actor.{Surroundings, dispatch_one}
use kaas_lib.Produce.Accumulator.Order.{buffered}
use kaas_lib.Produce.Accumulator.Bounds.{StateInv}
use kaas_lib.Produce.Accumulator.Dispatch.{sent_records}
use kaas_lib.Produce.Accumulator.Subsequence.{Subsequence}

-- What can happen to one partition. `fail_closed` is a refused enrolment: only closed batches fail.
pub data Event : Type 0 where
  append : Queued → ℕ → Event
  close_now : Event
  linger expire_at : ℕ → Event
  fail_with : Error → Event
  fail_closed : Error → Event
  dispatch : Surroundings → Sequences → Event
  settled : Event

-- The buffer, every record appended so far, every record sent so far in the order of sending, the
-- sent batches that are not settled yet, and how many callers were answered that their record will
-- not be sent.
pub record Life : Type 0 where
  pub state : PartitionState
  pub appended : List Queued
  pub sent : List Queued
  pub outstanding : ℕ
  pub given_up : ℕ

abbrev pub count_sent : Option Ready → ℕ → ℕ
count_sent none n = n
count_sent (some _) n = suc n

module _ (c : Config) (identity : Option ProducerIdentity) (key : TopicPartition) where
  -- A settled answer concerns a batch that is on the wire.
  unfoldable pub step : Life → Event → Life
  step l (append q now) = record l {
    state = append_record c q now l.state;
    appended = l.appended ++ (q ∷ []);
  }
  step l close_now = record l { state = close l.state }
  step l (linger now) = record l { state = close_lingered c.linger now l.state }
  step l (expire_at now) = record l {
    state = (expire now c.delivery_timeout l.state).0;
    given_up = l.given_up + length (expire now c.delivery_timeout l.state).1;
  }
  step l (fail_with e) = record l {
    state = (fail_state e l.state).0;
    given_up = l.given_up + length (fail_state e l.state).1;
  }
  step l (fail_closed e) = record l {
    state = record (l.state) { pending = [] };
    given_up = l.given_up + length (fail_all e (all_records l.state.pending));
  }
  step l (dispatch env s) =
      let turn = dispatch_one env identity key l.state s in
      record l {
        state = turn.state;
        sent = l.sent ++ sent_records turn.sent;
        outstanding = count_sent turn.sent l.outstanding;
      }
  step l settled = record l {
    state = record (l.state) { in_flight = false };
    outstanding = l.outstanding - 1;
  }

  unfoldable pub run : Life → List Event → Life
  run l [] = l
  run l (e ∷ es) = run (step l e) es

-- One batch at most is on the wire, and then the partition is marked as busy.
abbrev pub OneAtMost : PartitionState → ℕ → Type 0
OneAtMost st n = (n ≤ 1) × (st.in_flight ≡ false → n ≡ 0)

pub record LifeInv (c : Config) (l : Life) : Type 0 where
  pub in_order : Subsequence (l.sent ++ buffered l.state) l.appended
  pub one_at_most : OneAtMost l.state l.outstanding
  pub bounded : StateInv c l.state
  pub conserved : length l.appended ≡ length l.sent + length (buffered l.state) + l.given_up

-- A partition that nothing was appended to.
abbrev pub unborn : Life
unborn = record { state = new_state; appended = []; sent = []; outstanding = 0; given_up = 0 }
