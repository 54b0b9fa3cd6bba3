-- ===== src/Consume/GroupConsumer.antt =====
-- kafka-consume/src/consumer.rs: `GroupConsumer`, a membership with a consumer inside.
-- A commit's answer is ignored by the code. A commit of no positions
-- asks nobody.
pub mod Laws
pub mod Settle
pub mod Beaten
pub mod Agreement
mod Tests
use kaas_lib.Prelude.{
  ℕ, Bool, true, false, not, ◌&&◌, ◌||◌, if◌then◌else◌, is_empty, map, Option, none, some, List, [],
  ◌∷◌, ◌++◌, String,
}
use kaas_lib.Prelude.Int.{ℤ}
use kaas_lib.Prelude.Text.{TopicPartition}
use kaas_lib.Conn.Errors.{Error}
use kaas_lib.Meta.Retry.Reask.{Result, ok, err}
use kaas_lib.Read.Record.{Record}
use kaas_lib.Read.Batch.{DecodeOptions, Decoder}
use kaas_lib.Consume.Group.{Membership, TopicId, has_joined, beat_due}
use kaas_lib.Consume.Group
use kaas_lib.Consume.Group.Reconcile.{Reconciliation}
use kaas_lib.Consume.Group.Beat.{Coordinator, beat}
use kaas_lib.Consume.Group.Beat as Beat
use kaas_lib.Consume.Consumer.{
  Assigned, Assignment, Consumer, Fetched, RevokedPartition, revoked_positions, fetch_once,
  assigned_keys,
}
use kaas_lib.Consume.Consumer
use kaas_lib.Consume.Consumer.Reassign.{Starts, committed_or_earliest, retain, reassign, asked_for}
use kaas_lib.Consume.Rebalance.{
  Pending, nothing_pending, Await, commit_as, at_lookup, revoke, assign, flush,
}
use kaas_lib.Consume.Task.{
  CommitAs, Event, commit, asked, Outcome, returned, dropped, Task, ◌>>=◌, ◌>>◌, done, fail, change,
  call, when,
}

pub record GroupConsumer : Type 0 where
  pub inner : Consumer
  pub membership : Membership
  pub ever_joined : Bool
  pub auto_commit : Bool
  pub listener : Bool
  pub pending : Option Pending

-- `subscribe`, once the heartbeat is known to be served and the topics are learnt.
unfoldable pub subscribe : String → List String → ℤ → String → GroupConsumer
unfolding Group.new Consumer.new
subscribe group_id subscription rebalance_timeout_ms fresh = record {
  inner = Consumer.new;
  membership = Group.new group_id subscription none rebalance_timeout_ms fresh;
  ever_joined = false;
  auto_commit = true;
  listener = false;
  pending = none;
}

unfoldable pub with_instance_id : String → GroupConsumer → GroupConsumer
with_instance_id id g = record g { membership = record g.membership { instance_id = some id } }

unfoldable pub with_auto_commit : Bool → GroupConsumer → GroupConsumer
with_auto_commit enabled g = record g { auto_commit = enabled }

unfoldable pub with_rebalance_listener : GroupConsumer → GroupConsumer
with_rebalance_listener g = record g { listener = true }

abbrev pub commit_identity : Membership → CommitAs
commit_identity m = record {
  member_id = m.member_id;
  epoch = m.member_epoch;
  instance_id = m.instance_id;
}

-- The offsets of `commit_as`: every assigned partition's position.
abbrev pub offset_of : TopicPartition × Assigned → TopicPartition × ℤ
offset_of entry = (entry.0, entry.1.position)

abbrev pub offsets_of : Consumer → List (TopicPartition × ℤ)
offsets_of c = map offset_of c.assignment

-- What one poll meets: the clock, a fresh member id, the ids of the topics, the coordinator, the
-- committed and the earliest offsets, the fetches, and the waits at which its future is dropped, in
-- the settling before the heartbeat and in the one after it.
pub record World : Type 0 where
  pub now : ℕ
  pub fresh : String
  pub topic_ids : List (String × TopicId)
  pub coordinator : Coordinator
  pub committed : List TopicPartition → Result Error Starts
  pub earliest : TopicPartition → Result Error ℤ
  pub fetches : List (Result Error (List Fetched))
  pub drops_before : Await → Bool
  pub drops_beat : Bool
  pub drops_after : Await → Bool
  pub drops_fetch : Bool

abbrev pub starts_in : World → List TopicPartition → Result Error Starts
starts_in w partitions = committed_or_earliest (some (w.committed partitions)) w.earliest partitions

abbrev pub lift :
    GroupConsumer → Result Error Unit × Consumer → Outcome Unit × List Event × GroupConsumer
lift g (r, c) = (returned r, [], record g { inner = c })

-- `reassign`: dropped while the starts are looked up, it has only shrunk the assignment.
unfoldable pub take_over : World → (Await → Bool) → Task GroupConsumer Unit
take_over w drops g =
    let owned = g.membership.owned in
    if drops at_lookup && not (is_empty (asked_for owned g.inner))
    then (
      dropped,
      [],
      record g { inner = record g.inner { assignment = retain owned g.inner.assignment } },
    )
    else lift g (reassign (starts_in w) owned g.inner)

unfoldable pub tell_revoked : (Await → Bool) → List RevokedPartition → Task GroupConsumer Unit
tell_revoked drops revoked g =
    flush g.listener drops g.auto_commit (commit_identity g.membership) (offsets_of g.inner) revoked
      g

unfoldable pub tell_gained : (Await → Bool) → List TopicPartition → Task GroupConsumer Unit
tell_gained drops gained g = when (not (is_empty gained)) (assign g.listener drops gained) g

-- The assignment follows what the member owns, and then the gain is told.
unfoldable pub move_over : World → (Await → Bool) → Pending → Task GroupConsumer Unit
move_over w drops p =
    take_over w drops >> change (λ g. record g { pending = none }) >> tell_gained drops p.gained

abbrev pub settle_from : World → (Await → Bool) → Option Pending → Task GroupConsumer Unit
settle_from w drops none = done tt
settle_from w drops (some p) =
    if nothing_pending p
    then change (λ g. record g { pending = none })
    else (tell_revoked drops p.revoked >> move_over w drops p)

unfoldable pub settle : World → (Await → Bool) → Task GroupConsumer Unit
settle w drops g = settle_from w drops g.pending g

-- What a heartbeat answered: a change is first noted, with the positions as they are, then settled.
unfoldable pub act_on : World → Result Error Reconciliation → Task GroupConsumer Unit
act_on w (err e) = fail e
act_on w (ok outcome) = when outcome.changed (
    change (λ g. record g {
      pending =
          some (record {
            revoked = revoked_positions g.inner outcome.revoked;
            gained = outcome.gained;
          });
    })
    >> settle w w.drops_after)

unfoldable pub heartbeat : World → Task GroupConsumer (Result Error Reconciliation)
heartbeat w g =
    let (answer, m) = beat w.coordinator w.fresh w.now w.topic_ids g.membership in
    done answer (record g { membership = m })

unfoldable pub beat_if_due : World → Task GroupConsumer Unit
beat_if_due w g =
    when (beat_due w.now g.membership) (call w.drops_beat asked >> (heartbeat w >>= act_on w)) g

module _ (d : Decoder) (options : DecodeOptions) where
  -- The inner poll: dropped while it fetches, it has taken in the answers that came.
  unfoldable pub fetch : World → Task GroupConsumer (List Record)
  fetch w g =
      if w.drops_fetch && is_empty g.inner.buffered
      then (dropped, [], record g { inner = (fetch_once d options w.fetches g.inner).1 })
      else let (r, c) = Consumer.poll d options w.fetches g.inner in
        (returned r, [], record g { inner = c })

  -- Notes whether the member was ever admitted, finishes what an earlier poll left, sends a heartbeat
  -- if one is due, and polls the consumer inside.
  unfoldable pub poll : World → Task GroupConsumer (List Record)
  poll w =
      change (λ g. record g { ever_joined = g.ever_joined || has_joined g.membership })
      >> settle w w.drops_before
      >> beat_if_due w
      >> fetch w

-- `leave`: the listener is told of all that is held, the offsets are committed, and the coordinator
-- is told.
unfoldable pub leave : World → Task GroupConsumer Unit
leave w g =
    let held = assigned_keys g.inner in
    (when (not (is_empty held)) (revoke g.listener w.drops_before (revoked_positions g.inner held))
        >> commit_as w.drops_before g.auto_commit (commit_identity g.membership)
            (offsets_of g.inner)
        >> (λ s.
            let (r, m) = Beat.leave w.coordinator w.fresh s.membership in
            (returned r, [], record s { membership = m })))
      g
