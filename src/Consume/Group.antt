-- ===== src/Consume/Group.antt =====
-- kafka-consume/src/group.rs: one member's view of its KIP-848 group.
-- A set or a map is a list in no particular order, a topic id is its bytes, a duration and a moment
-- are milliseconds. A member id is drawn at random: it enters as an argument. The coordinator's
-- answer to a request, and the codec's reading of an error code, are parameters.
pub mod Reconcile
pub mod Beat
pub mod Laws
mod Tests
use kaas_lib.Prelude.{
  ℕ, ◌-◌, ◌==◌, leb, ltb, Option, none, some, List, [], ◌∷◌, Bool, true, false, not, ◌&&◌, ◌||◌,
  if◌then◌else◌, is_empty, all, String, ℕ_discrete,
}
use kaas_lib.Prelude.Int.{ℤ, pos, negsuc, eq_ℤ, ltb_ℤ, leb_ℤ}
use kaas_lib.Prelude.Map.{lookup, insert, contains, set_insert}
use kaas_lib.Prelude.Text.{TopicPartition}
use kaas_lib.Conn.ErrorCode.{
  ErrorCode, unknown_member_id, fenced_member_epoch, rebalance_in_progress,
}
use kaas_lib.Conn.Sanitize.{Text}

-- Join; leave and release the assignment; leave as a static member, which parks it.
abbrev pub epoch_join : ℤ
epoch_join = pos 0

abbrev pub epoch_leave : ℤ
epoch_leave = negsuc 0

abbrev pub epoch_static_leave : ℤ
epoch_static_leave = negsuc 1

-- Whether an error means that the membership is gone and the member must join from scratch.
unfoldable pub membership_lost : ErrorCode → Bool
membership_lost unknown_member_id = true
membership_lost fenced_member_epoch = true
membership_lost rebalance_in_progress = true
membership_lost _ = false

-- A topic's id, with `TopicId::is_zero`.
abbrev pub TopicId : Type 0
TopicId = List ℕ

unfoldable pub TopicId-discrete : Discrete TopicId
unfolding ℕ_discrete
TopicId-discrete = hlevel ℕ_discrete

abbrev pub is_zero : TopicId → Bool
is_zero = all (λ byte. byte == 0)

pub record Membership : Type 0 where
  pub group_id : String
  pub instance_id : Option String
  pub subscription : List String
  pub member_id : String
  pub member_epoch : ℤ
  pub heartbeat_interval : ℕ
  pub rebalance_timeout_ms : ℤ
  pub owned : List TopicPartition
  pub last_beat : Option ℕ
  pub ack_owed : Bool

unfoldable pub new : String → List String → Option String → ℤ → String → Membership
new group_id subscription instance_id rebalance_timeout_ms fresh = record {
  group_id = group_id;
  instance_id = instance_id;
  subscription = subscription;
  member_id = fresh;
  member_epoch = epoch_join;
  heartbeat_interval = 5000;
  rebalance_timeout_ms = rebalance_timeout_ms;
  owned = [];
  last_beat = none;
  ack_owed = false;
}

-- Whether the coordinator has ever admitted this member.
abbrev pub has_joined : Membership → Bool
has_joined m = ltb_ℤ epoch_join m.member_epoch

-- Whether the last beat is at least an interval ago.
abbrev pub interval_over : Option ℕ → ℕ → ℕ → Bool
interval_over none interval now = false
interval_over (some last) interval now = leb interval (now - last)

abbrev pub never_beat : Option ℕ → Bool
never_beat none = true
never_beat (some last) = false

-- Whether a heartbeat is due at a moment.
unfoldable pub beat_due : ℕ → Membership → Bool
beat_due now m =
    if m.ack_owed || never_beat m.last_beat
    then true
    else interval_over m.last_beat m.heartbeat_interval now

-- A member that starts again under a fresh id owns nothing and owes nothing.
unfoldable pub reset : String → Membership → Membership
reset fresh m = record m {
  member_id = fresh;
  member_epoch = epoch_join;
  owned = [];
  ack_owed = false;
}

-- `ConsumerGroupHeartbeatRequest`, with the fields that the client sets; `none` is a field left at its default.
pub record Request : Type 0 where
  pub group_id : String
  pub member_id : String
  pub member_epoch : ℤ
  pub instance_id : Option String
  pub rebalance_timeout_ms : Option ℤ
  pub subscribed_topic_names : Option (List String)
  pub topic_partitions : Option (List (TopicId × List ℤ))

-- `topic_ids.get(topic)`, unless the id is zero.
abbrev pub nonzero : Option TopicId → Option TopicId
nonzero none = none
nonzero (some id) = if is_zero id then none else some id

-- `by_topic.entry(id).or_default()`
abbrev pub or_default : Option (List ℤ) → List ℤ
or_default none = []
or_default (some partitions) = partitions
