-- ===== src/Consume/Group/Beat.antt =====
-- `build`, `beat` and `leave`: what a member sends, and what it does with the answer.
use kaas_lib.Prelude.{
  ℕ, Option, none, some, List, [], ◌∷◌, ◌++◌, false, not, ◌&&◌, if◌then◌else◌, String,
}
use kaas_lib.Prelude.Int.{ℤ, pos, pos_part, eq_ℤ, leb_ℤ, ltb_ℤ}
use kaas_lib.Prelude.Map.{lookup, insert, set_insert}
use kaas_lib.Prelude.Text.{String-discrete, TopicPartition, TopicPartition-discrete}
use kaas_lib.Conn.Errors.{Error, from_code}
use kaas_lib.Conn.ErrorCode.{ErrorCode}
use kaas_lib.Conn.Sanitize.{Text}
use kaas_lib.Meta.Retry.Reask.{Result, ok, err}
use kaas_lib.Consume.Group.{
  Membership, Request, TopicId, TopicId-discrete, epoch_join, epoch_leave, epoch_static_leave,
  nonzero, or_default, membership_lost, reset, is_zero,
}
use kaas_lib.Consume.Group.Reconcile.{Reconciliation, nothing, reconcile}

abbrev pub Claims : Type 0
Claims = List (TopicId × List ℤ)

-- `by_topic.entry(id).or_default().push(partition)`
abbrev pub add_claim : Option TopicId → ℤ → Claims → Claims
add_claim none partition by_topic = by_topic
add_claim (some id) partition by_topic =
    insert TopicId-discrete id
      (or_default (lookup TopicId-discrete id by_topic) ++ (partition ∷ [])) by_topic

-- The owned partitions whose topic has a known id, by that id.
unfoldable pub claims_of : List (String × TopicId) → Claims → List TopicPartition → Claims
claims_of topic_ids by_topic [] = by_topic
claims_of topic_ids by_topic (key ∷ owned) =
    claims_of topic_ids
      (add_claim (nonzero (lookup String-discrete key.topic topic_ids)) key.partition by_topic)
      owned

-- The heartbeat of a member: the subscription when joining, the claims when they are owed.
unfoldable pub build : List (String × TopicId) → Membership → Request
build topic_ids m =
    let joining = eq_ℤ m.member_epoch epoch_join in
    record {
      group_id = m.group_id;
      member_id = m.member_id;
      member_epoch = m.member_epoch;
      instance_id = m.instance_id;
      rebalance_timeout_ms = if joining then some m.rebalance_timeout_ms else none;
      subscribed_topic_names = if joining then some m.subscription else none;
      topic_partitions =
          some (if m.ack_owed && not joining then claims_of topic_ids [] m.owned else []);
    }

-- `ConsumerGroupHeartbeatResponse`, as far as it is read.
pub record Response : Type 0 where
  pub error_code : ℤ
  pub error_message : Option Text
  pub member_id : Option String
  pub member_epoch : ℤ
  pub heartbeat_interval_ms : ℤ
  pub assignment : Option Claims

-- `by_id`: the names of the topics with an id, by that id.
unfoldable pub by_id : List (TopicId × String) → List (String × TopicId) → List (TopicId × String)
by_id names [] = names
by_id names ((name, id) ∷ topic_ids) =
    by_id (if is_zero id then names else insert TopicId-discrete id name names) topic_ids

-- `for partition in topic.partitions { target.insert((name, partition)) }`
unfoldable pub target_topic : String → List ℤ → List TopicPartition → List TopicPartition
target_topic name [] target = target
target_topic name (p ∷ ps) target =
    target_topic name ps
      (set_insert TopicPartition-discrete (record { topic = name; partition = p }) target)

-- A topic whose id has no name is left out.
abbrev pub target_entry : Option String → List ℤ → List TopicPartition → List TopicPartition
target_entry none ps target = target
target_entry (some name) ps target = target_topic name ps target

unfoldable pub target_of :
    List (TopicId × String) → Claims → List TopicPartition → List TopicPartition
target_of names [] target = target
target_of names ((id, ps) ∷ topics) target =
    target_of names topics (target_entry (lookup TopicId-discrete id names) ps target)

abbrev pub or_own : Option String → String → String
or_own none own = own
or_own (some id) own = id

-- Takes the member's id, its epoch and the heartbeat interval from the response.
unfoldable pub adopt : Response → Membership → Membership
adopt r m = record m {
  member_id = or_own r.member_id m.member_id;
  member_epoch = r.member_epoch;
  heartbeat_interval =
      if ltb_ℤ (pos 0) r.heartbeat_interval_ms
      then pos_part r.heartbeat_interval_ms
      else m.heartbeat_interval;
}

-- Moves ownership to the target; without an assignment nothing changes.
unfoldable pub follow :
    List (String × TopicId) → Option Claims → Membership → Reconciliation × Membership
follow topic_ids none m = (nothing, record m { ack_owed = false })
follow topic_ids (some assignment) m =
    let target = target_of (by_id [] topic_ids) assignment [] in
    let outcome = reconcile m.owned target in
    (outcome, record m { owned = target; ack_owed = outcome.changed })

-- The coordinator's answer to a request, the codec's reading of a code, and the text of a code.
pub record Coordinator : Type 0 where
  pub send : Request → Result Error Response
  pub read_code : ℤ → Option ErrorCode
  pub to_string : ErrorCode → Text

module _ (c : Coordinator) (fresh : String) where
  -- What a response makes of the member: its own error first.
  abbrev pub apply_response :
      List (String × TopicId)
      → Option ErrorCode
      → Response
      → Membership
      → Result Error Reconciliation × Membership
  apply_response topic_ids (some code) r m =
      if membership_lost code
      then (ok nothing, reset fresh m)
      else (err (from_code c.to_string code r.error_message), m)
  apply_response topic_ids none r m =
      let (outcome, m') = follow topic_ids r.assignment (adopt r m) in (ok outcome, m')

  abbrev pub receive :
      ℕ
      → List (String × TopicId)
      → Result Error Response
      → Membership
      → Result Error Reconciliation × Membership
  receive now topic_ids (err e) m = (err e, m)
  receive now topic_ids (ok r) m =
      apply_response topic_ids (c.read_code r.error_code) r (record m { last_beat = some now })

  unfoldable pub beat :
      ℕ → List (String × TopicId) → Membership → Result Error Reconciliation × Membership
  beat now topic_ids m = receive now topic_ids (c.send (build topic_ids m)) m

  abbrev pub leave_epoch : Option String → ℤ
  leave_epoch (some _) = epoch_static_leave
  leave_epoch none = epoch_leave

  unfoldable pub leave_request : Membership → Request
  leave_request m = record {
    group_id = m.group_id;
    member_id = m.member_id;
    member_epoch = leave_epoch m.instance_id;
    instance_id = m.instance_id;
    rebalance_timeout_ms = none;
    subscribed_topic_names = none;
    topic_partitions = none;
  }

  -- A member that the broker has already forgotten has left.
  abbrev pub leave_answer : Option ErrorCode → Result Error Unit
  leave_answer none = ok tt
  leave_answer (some code) =
      if membership_lost code then ok tt else err (from_code c.to_string code none)

  abbrev pub left : Result Error Response → Membership → Result Error Unit × Membership
  left (err e) m = (err e, m)
  left (ok r) m = (leave_answer (c.read_code r.error_code), reset fresh m)

  unfoldable pub leave : Membership → Result Error Unit × Membership
  leave m =
      if leb_ℤ m.member_epoch epoch_join then (ok tt, m) else left (c.send (leave_request m)) m
