-- ===== src/Consume/GroupConsumer/Tests.antt =====
-- A member that joins, and one that is moved off a partition.
use kaas_lib.Prelude.{ℕ_discrete, ◌≡◌, refl, true, false, none, some, List, [], ◌∷◌}
use kaas_lib.Prelude.Map
use kaas_lib.Prelude.Sort
use kaas_lib.Prelude.Text
use kaas_lib.Prelude.Int
use kaas_lib.Consume.Group
use kaas_lib.Consume.Rebalance
use kaas_lib.Consume.Consumer
use kaas_lib.Consume.GroupConsumer
use kaas_lib.Consume.Group.Beat
use kaas_lib.Consume.Group.Reconcile
use kaas_lib.Consume.Consumer.Reassign
use kaas_lib.Prelude.Int.{ℤ, pos, negsuc}
use kaas_lib.Prelude.Text.{TopicPartition}
use kaas_lib.Meta.Retry.Reask.{ok}
use kaas_lib.Read.Batch.{Decoder, default_options}
use kaas_lib.Consume.Group.{TopicId}
use kaas_lib.Consume.Group.Beat.{Coordinator, Response}
use kaas_lib.Consume.Consumer.{RevokedPartition}
use kaas_lib.Consume.GroupConsumer.{GroupConsumer, World, poll, subscribe, with_rebalance_listener}
use kaas_lib.Consume.Rebalance.Told.{told}
use kaas_lib.Consume.GroupConsumer.Laws.{Agrees}
use kaas_lib.Consume.GroupConsumer.Beaten.{KeepsMember}
use kaas_lib.Consume.GroupConsumer.Agreement.{
  Reached, subscribed, listening, polled, OnSuccess, poll-Agrees, poll-Told,
}

abbrev decoder : Decoder
decoder = record {
  codecs = record {
    take_to_end = λ _ n input. ok input;
    framed = λ input. ok input;
    decompress_len = λ input. ok 0;
    decompress = λ input buffer. ok buffer;
    refused = [];
  };
  decode = λ _ _. ok [];
  too_many = λ _ _. [];
}

abbrev orders_id : TopicId
orders_id = 1 ∷ 2 ∷ []

abbrev response : List ℤ → Response
response partitions = record {
  error_code = pos 0;
  error_message = none;
  member_id = none;
  member_epoch = pos 5;
  heartbeat_interval_ms = pos 3000;
  assignment = some ((orders_id, partitions) ∷ []);
}

abbrev coordinator : List ℤ → Coordinator
coordinator partitions = record {
  send = λ _. ok (response partitions);
  read_code = λ _. none;
  to_string = λ _. [];
}

abbrev world : List ℤ → World
world partitions = record {
  now = 100;
  fresh = "m-2";
  topic_ids = ("orders", orders_id) ∷ [];
  coordinator = coordinator partitions;
  committed = λ _. ok [];
  earliest = λ _. ok (pos 7);
  fetches = [];
  drops_before = λ _. false;
  drops_beat = false;
  drops_after = λ _. false;
  drops_fetch = false;
}

keeps : (partitions : List ℤ) → KeepsMember (coordinator partitions)
keeps partitions q r h = refl

abbrev started : GroupConsumer
started = with_rebalance_listener (subscribe "g" ("orders" ∷ []) (pos 60000) "m-1")

started-Reached : Reached decoder default_options started
started-Reached =
    listening (subscribe "g" ("orders" ∷ []) (pos 60000) "m-1")
      (subscribed "g" ("orders" ∷ []) (pos 60000) "m-1")

poll-Agrees_example :
    let (outcome, events, g) = poll decoder default_options (world (pos 0 ∷ pos 1 ∷ [])) started in
    OnSuccess outcome (Agrees g)
poll-Agrees_example =
    poll-Agrees decoder default_options started started-Reached (world (pos 0 ∷ pos 1 ∷ []))
      (keeps (pos 0 ∷ pos 1 ∷ []))

abbrev joined : GroupConsumer
joined = (poll decoder default_options (world (pos 0 ∷ pos 1 ∷ [])) started).2

abbrev first_partition : TopicPartition
first_partition = record { topic = "orders"; partition = pos 0 }

poll-Told_example :
    told first_partition (poll decoder default_options (world (pos 1 ∷ [])) joined).1 ≡ true
unfolding poll subscribe with_rebalance_listener GroupConsumer.settle GroupConsumer.beat_if_due
    GroupConsumer.heartbeat GroupConsumer.act_on GroupConsumer.fetch GroupConsumer.move_over
    GroupConsumer.take_over GroupConsumer.tell_gained GroupConsumer.tell_revoked Rebalance.flush
    Group.new Group.beat_due Group.TopicId-discrete Group.membership_lost Beat.beat Beat.build
    Beat.claims_of Beat.follow Beat.adopt Beat.target_of Beat.by_id Beat.target_topic
    Reconcile.reconcile Consumer.new Consumer.fetch_once Consumer.poll Consumer.revoked_positions
    Reassign.committed_or_earliest Reassign.fill_earliest Reassign.insert_all Reassign.insert_fresh
    Reassign.reassign Reassign.retain Sort.sort Sort.place Map.lookup Map.insert Map.set_insert
    Map.contains Text.String-discrete Text.TopicPartition-discrete Int.ℤ-discrete ℕ_discrete
poll-Told_example =
    poll-Told decoder default_options joined
      (polled (world (pos 0 ∷ pos 1 ∷ [])) (keeps (pos 0 ∷ pos 1 ∷ [])) started started-Reached)
      (world (pos 1 ∷ [])) (keeps (pos 1 ∷ [])) first_partition refl refl refl
