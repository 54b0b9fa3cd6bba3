-- ===== src/Consume/ClassicConsumer.antt =====
-- kafka-consume/src/consumer.rs: `ClassicConsumer`, a member of a classic group with a consumer inside.
-- A commit's answer is ignored by the code. A commit of no positions asks nobody.
pub mod Poll
pub mod Announce
pub mod Moves
pub mod Join
pub mod Rounds
mod Tests
use kaas_lib.Prelude.{
  ℕ, zero, suc, ◌+◌, Bool, true, false, not, ◌&&◌, ◌||◌, if◌then◌else◌, is_empty, filter, length,
  ltb, ◌^◌, Option, none, some, List, [], ◌∷◌, ◌++◌, String,
}
use kaas_lib.Prelude.Int.{ℤ, eq_ℤ, ltb_ℤ}
use kaas_lib.Prelude.Map.{insert, contains}
use kaas_lib.Prelude.Sort.{sort}
use kaas_lib.Prelude.Text.{String-discrete, TopicPartition, TopicPartition-discrete, leb_String}
use kaas_lib.Conn.Errors.{Error, code_of, invalid_request}
use kaas_lib.Conn.ErrorCode.{
  ErrorCode, member_id_required, rebalance_in_progress, unknown_member_id, illegal_generation,
}
use kaas_lib.Conn.Sanitize.{Text}
use kaas_lib.Meta.Retry.Reask.{Result, ok, err}
use kaas_lib.Meta.Snapshot.{MetadataSnapshot, TopicInfo, topic_by_name}
use kaas_lib.Read.Record.{Record}
use kaas_lib.Read.Batch.{DecodeOptions, Decoder}
use kaas_lib.Consume.Assign.{Assignor, MemberSubscription}
use kaas_lib.Consume.Classic.Wire.{Codec, no_generation}
use kaas_lib.Consume.Classic.Messages.{Coordinator}
use kaas_lib.Consume.Classic.Member.{
  ClassicMembership, is_cooperative, join_request, join_group, sync_request, sync_group, forget,
  heartbeat, set_assignors,
}
use kaas_lib.Consume.Classic.Member as Member
use kaas_lib.Consume.Consumer.{
  Consumer, Fetched, RevokedPartition, revoked_positions, fetch_once, assigned_keys,
}
use kaas_lib.Consume.Consumer
use kaas_lib.Consume.Consumer.Reassign.{Starts, committed_or_earliest, retain, reassign, asked_for}
use kaas_lib.Consume.GroupConsumer.{offsets_of}
use kaas_lib.Consume.Rebalance.{Await, at_lookup, revoke, assign, flush}
use kaas_lib.Consume.Task.{
  CommitAs, Event, commit, asked, Outcome, returned, dropped, Task, ◌>>=◌, ◌>>◌, done, fail, change,
  call, when,
}

pub record ClassicConsumer : Type 0 where
  pub inner : Consumer
  pub membership : ClassicMembership
  pub subscription : List String
  pub auto_commit : Bool
  pub rejoin : Bool
  pub listener : Bool
  pub pending_revoke : Option (List RevokedPartition)

-- `check_timeout_ordering`, and `subscribe` once the topics are learnt.
abbrev pub check_timeout_ordering : Text → ℤ → ℤ → Result Error Unit
check_timeout_ordering text session_timeout_ms rebalance_timeout_ms =
    if ltb_ℤ rebalance_timeout_ms session_timeout_ms then err (invalid_request text) else ok tt

unfoldable pub fresh_consumer : ClassicMembership → List String → ClassicConsumer
unfolding Consumer.new
fresh_consumer m subscription = record {
  inner = Consumer.new;
  membership = m;
  subscription = subscription;
  auto_commit = true;
  rejoin = true;
  listener = false;
  pending_revoke = none;
}

abbrev pub checked : {A : Type 0} → Result Error Unit → A → Result Error A
checked (err e) a = err e
checked (ok _) a = ok a

unfoldable pub subscribe : Text → String → List String → ℤ → ℤ → Result Error ClassicConsumer
subscribe text group_id subscription session_timeout_ms rebalance_timeout_ms =
    checked (check_timeout_ordering text session_timeout_ms rebalance_timeout_ms) (
      fresh_consumer (Member.new group_id subscription none session_timeout_ms rebalance_timeout_ms)
        subscription)

unfoldable pub with_rebalance_listener : ClassicConsumer → ClassicConsumer
with_rebalance_listener g = record g { listener = true }

unfoldable pub with_auto_commit : Bool → ClassicConsumer → ClassicConsumer
with_auto_commit enabled g = record g { auto_commit = enabled }

-- An empty list is ignored.
unfoldable pub with_assignors : List Assignor → ClassicConsumer → ClassicConsumer
with_assignors assignors g =
    if is_empty assignors then g else record g { membership = set_assignors assignors g.membership }

-- A static member is a new one, with the timeouts and the assignors as they were.
unfoldable pub with_instance_id : String → ClassicConsumer → ClassicConsumer
with_instance_id id g =
    let m = g.membership in
    record g {
      membership = set_assignors m.assignors (
          Member.new m.group_id g.subscription (some id) m.session_timeout_ms
            m.rebalance_timeout_ms);
    }

abbrev pub commit_identity : ClassicMembership → CommitAs
commit_identity m = record {
  member_id = m.member_id;
  epoch = m.generation_id;
  instance_id = m.instance_id;
}

-- What one turn of the loop meets: the metadata, the coordinator, the committed and the earliest
-- offsets, and the waits at which the future is dropped.
pub record Round : Type 0 where
  pub snapshot : Result Error MetadataSnapshot
  pub coordinator : Coordinator
  pub committed : List TopicPartition → Result Error Starts
  pub earliest : TopicPartition → Result Error ℤ
  pub drops : Await → Bool
  pub drops_counts : Bool
  pub drops_join : Bool
  pub drops_sync : Bool
  pub drops_beat : Bool

abbrev pub starts_in : Round → List TopicPartition → Result Error Starts
starts_in w partitions = committed_or_earliest (some (w.committed partitions)) w.earliest partitions

-- A count that is no i32 becomes 0.
abbrev pub i32_count : ℕ → ℕ
i32_count n = if ltb n (2 ^ 31) then n else 0

-- `partition_counts`: the count of each subscribed topic that is known, in the order of the topics.
abbrev pub counted : String → Option TopicInfo → List (String × ℕ) → List (String × ℕ)
counted topic none out = out
counted topic (some info) out =
    insert String-discrete topic (i32_count (length info.partitions)) out

unfoldable pub count_topics : MetadataSnapshot → List String → List (String × ℕ) → List (String × ℕ)
count_topics s [] out = sort (λ a b. leb_String a.0 b.0) out
count_topics s (topic ∷ topics) out =
    count_topics s topics (counted topic (topic_by_name s topic) out)

abbrev pub answer : {A : Type 0} → Result Error A → Task ClassicConsumer A
answer r g = (returned r, [], g)

unfoldable pub partition_counts : Round → Task ClassicConsumer (List (String × ℕ))
partition_counts w =
    call w.drops_counts asked
    >> (answer w.snapshot >>= λ s g. done (count_topics s g.subscription []) g)

-- What was noted as revoked is told and committed; a dropped future keeps the note.
abbrev pub settle_from : (Await → Bool) → Option (List RevokedPartition) → Task ClassicConsumer Unit
settle_from drops none = done tt
settle_from drops (some revoked) =
    (λ g.
      flush g.listener drops g.auto_commit (commit_identity g.membership) (offsets_of g.inner)
        revoked g)
    >> change (λ g. record g { pending_revoke = none })

unfoldable pub settle : (Await → Bool) → Task ClassicConsumer Unit
settle drops g = settle_from drops g.pending_revoke g

-- Notes partitions as revoked, with their positions as they are, and settles.
unfoldable pub announce : (Await → Bool) → List TopicPartition → Task ClassicConsumer Unit
announce drops keys =
    change (λ g. record g { pending_revoke = some (revoked_positions g.inner keys) })
    >> settle drops

abbrev pub lift :
    ClassicConsumer → Result Error Unit × Consumer → Outcome Unit × List Event × ClassicConsumer
lift g (r, c) = (returned r, [], record g { inner = c })

-- `reassign`: dropped while the starts are looked up, it has only shrunk the assignment.
unfoldable pub take_over : Round → List TopicPartition → Task ClassicConsumer Unit
take_over w assigned g =
    if w.drops at_lookup && not (is_empty (asked_for assigned g.inner))
    then (
      dropped,
      [],
      record g { inner = record g.inner { assignment = retain assigned g.inner.assignment } },
    )
    else lift g (reassign (starts_in w) assigned g.inner)

abbrev pub without : List TopicPartition → List TopicPartition → List TopicPartition
without keys target = filter (λ key. not (contains TopicPartition-discrete key target)) keys

-- A join that succeeded. A cooperative member is told of what it lost before the reassignment, and joins
-- again if it lost any.
unfoldable pub follow :
    Round → Bool → List TopicPartition → List TopicPartition → Task ClassicConsumer Unit
follow w cooperative held assigned =
    let lost = if cooperative then without held assigned else [] in
    let gained = if cooperative then without assigned held else assigned in
    when (not (is_empty lost)) (announce w.drops lost)
    >> take_over w assigned
    >> change (λ g. record g { rejoin = cooperative && not (is_empty lost) })
    >> (λ g. when (not (is_empty gained)) (assign g.listener w.drops gained) g)

-- An evicted member drops its identity and all that it holds.
unfoldable pub evicted : Round → Task ClassicConsumer Unit
evicted w =
    change (λ g. record g { membership = forget g.membership })
    >> (λ g.
        let held = assigned_keys g.inner in when (not (is_empty held)) (announce w.drops held) g)
    >> take_over w []

-- What a join that failed means: most are answered by joining again.
abbrev pub rejected : Round → Error → Option ErrorCode → Task ClassicConsumer Unit
rejected w e (some member_id_required) = done tt
rejected w e (some unknown_member_id) = evicted w
rejected w e (some illegal_generation) = evicted w
rejected w e (some rebalance_in_progress) = done tt
rejected w e _ = fail e

abbrev pub follow_now :
    Round → List TopicPartition → List TopicPartition → Task ClassicConsumer Unit
follow_now w held assigned g = follow w (is_cooperative g.membership) held assigned g

abbrev pub conclude :
    Round → List TopicPartition → Result Error (List TopicPartition) → Task ClassicConsumer Unit
conclude w held (err e) = rejected w e (code_of e)
conclude w held (ok assigned) = follow_now w held assigned

-- A request that could not be written is not sent.
abbrev pub is_sent : {A : Type 0} → Result Error A → Bool
is_sent (err _) = false
is_sent (ok _) = true

module _ (codec : Codec) where
  -- `join`: the join, and the sync of a member that was let in.
  abbrev pub then_sync :
      Round
      → List (String × ℕ)
      → Result Error (List MemberSubscription)
      → Task ClassicConsumer (Result Error (List TopicPartition))
  then_sync w sizes (err e) = done (err e)
  then_sync w sizes (ok members) =
      (λ g.
        when (is_sent (sync_request codec g.membership members sizes)) (call w.drops_sync asked) g)
      >> (λ g. done (sync_group codec w.coordinator g.membership members sizes) g)

  abbrev pub joining :
      Round → List TopicPartition → Task ClassicConsumer (Result Error (List MemberSubscription))
  joining w held g =
      let (answer, m) = join_group codec w.coordinator held g.membership in
      done answer (record g { membership = m })

  unfoldable pub join_round : Round → Task ClassicConsumer Unit
  join_round w = partition_counts w >>= λ sizes g.
      let held = assigned_keys g.inner in
      (when (is_sent (join_request codec held g.membership)) (call w.drops_join asked)
          >> (joining w held >>= λ members. then_sync w sizes members >>= conclude w held))
        g

-- `heartbeat_says_rejoin`: an eager member is told at once that all it holds is revoked.
abbrev pub heard : Round → Bool → Task ClassicConsumer Bool
heard w false = done false
heard w true =
    change (λ g. record g { rejoin = true })
    >> (λ g. when (not (is_cooperative g.membership)) (announce w.drops (assigned_keys g.inner)) g)
    >> done true

-- Without a generation nobody is asked.
unfoldable pub ask_beat : Round → Task ClassicConsumer Unit
ask_beat w g =
    when (not (eq_ℤ g.membership.generation_id no_generation)) (call w.drops_beat asked) g

abbrev pub hear : Round → Result Error Bool → Task ClassicConsumer Bool
hear w (err e) = fail e
hear w (ok b) = heard w b

unfoldable pub heartbeat_says_rejoin : Round → Task ClassicConsumer Bool
heartbeat_says_rejoin w = ask_beat w >>= λ _ g. hear w (heartbeat w.coordinator g.membership) g
