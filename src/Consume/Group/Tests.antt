-- ===== src/Consume/Group/Tests.antt =====
-- A member on small assignments.
use kaas_lib.Prelude.{◌≡◌, true, none, some, List, [], ◌∷◌, String}
use kaas_lib.Prelude.Int.{ℤ, pos}
use kaas_lib.Prelude.Text.{TopicPartition}
use kaas_lib.Meta.Retry.Reask.{ok}
use kaas_lib.Consume.Group.{Membership, TopicId}
use kaas_lib.Consume.Group.Beat.{Claims, Coordinator, build, beat}
use kaas_lib.Consume.Group.Laws.{claims, owns_it, Kept, beat-Kept, build_lem}

abbrev at : String → ℤ → TopicPartition
at topic partition = record { topic = topic; partition = partition }

abbrev orders_id : TopicId
orders_id = 1 ∷ 2 ∷ []

abbrev topic_ids : List (String × TopicId)
topic_ids = ("orders", orders_id) ∷ ("ghost", 0 ∷ 0 ∷ []) ∷ []

abbrev member : Membership
member = record {
  group_id = "g";
  instance_id = none;
  subscription = "orders" ∷ [];
  member_id = "m-1";
  member_epoch = pos 4;
  heartbeat_interval = 5000;
  rebalance_timeout_ms = pos 60000;
  owned = at "orders" (pos 0) ∷ at "orders" (pos 1) ∷ [];
  last_beat = none;
  ack_owed = true;
}

-- The coordinator moves the member from the partitions 0 and 1 to 1 and 2.
abbrev moving : Coordinator
moving = record {
  send = λ _. ok (record {
    error_code = pos 0;
    error_message = none;
    member_id = none;
    member_epoch = pos 5;
    heartbeat_interval_ms = pos 3000;
    assignment = some ((orders_id, pos 1 ∷ pos 2 ∷ []) ∷ []);
  });
  read_code = λ _. none;
  to_string = λ _. [];
}

beat-Kept_example : Kept member (beat moving "m-2" 100 topic_ids member)
beat-Kept_example = beat-Kept moving "m-2" topic_ids 100 member

build_lem_example :
    (by_topic : Claims) × ((build topic_ids member).topic_partitions ≡ some by_topic)
    × (claims orders_id (pos 1) by_topic ≡ owns_it topic_ids orders_id (pos 1) member.owned)
build_lem_example = (build_lem topic_ids orders_id (pos 1) member).2
