-- ===== src/Consume/ClassicConsumer/Tests.antt =====
-- A cooperative member that joins, and is evicted at its next join; and a subscription on the wire.
use kaas_lib.Prelude.{
  ℕ, zero, suc, map, Option, ◌≡◌, refl, sym, ap, ◌∙◌, Bool, true, false, none, some, [], ◌∷◌,
  String, ℕ_discrete,
}
use kaas_lib.Prelude.Int.{ℤ, ℤ-discrete, pos}
use kaas_lib.Prelude.Map
use kaas_lib.Prelude.Sort
use kaas_lib.Prelude.Text.{TopicPartition, TopicPartition-discrete, String-discrete}
use kaas_lib.Conn.ErrorCode.{ErrorCode, rebalance_in_progress, unknown_member_id}
use kaas_lib.Conn.ErrorCode
use kaas_lib.Conn.Errors
use kaas_lib.Conn.Errors.{Error}
use kaas_lib.Meta.Retry.Reask.{Result, ok, err}
use kaas_lib.Meta.Snapshot.{MetadataSnapshot}
use kaas_lib.Read.Record.{Bytes}
use kaas_lib.Read.Batch.{Decoder, default_options}
use kaas_lib.Consume.Assign
use kaas_lib.Consume.Consumer
use kaas_lib.Consume.Consumer.Reassign
use kaas_lib.Consume.Rebalance
use kaas_lib.Consume.Rebalance.Told.{told}
use kaas_lib.Consume.Classic.Wire
use kaas_lib.Consume.Classic.Wire.{
  Codec, Subscription, ReadsBack, encode_subscription, decode_subscription, subscription_at,
  be_bytes,
}
use kaas_lib.Consume.Classic.Member
use kaas_lib.Consume.Classic.Messages
use kaas_lib.Consume.Classic.Messages.{Coordinator, JoinResponse}
use kaas_lib.Consume.ClassicConsumer
use kaas_lib.Consume.ClassicConsumer.{
  ClassicConsumer, Round, fresh_consumer, with_rebalance_listener,
}
use kaas_lib.Consume.ClassicConsumer.Poll
use kaas_lib.Consume.ClassicConsumer.Poll.{poll}
use kaas_lib.Consume.ClassicConsumer.Join.{NamesCooperative}
use kaas_lib.Consume.ClassicConsumer.Rounds.{
  Reached, subscribed, listening, polled, classic_poll-Told,
}

abbrev decoder : Decoder
decoder = record {
  codecs = record {
    take_to_end = λ _ n input. ok input;
    framed = λ input. ok input;
    decompress_len = λ input. ok 0;
    decompress = λ input buffer. ok buffer;
    refused = [];
  };
  decode = λ _ _. ok [];
  too_many = λ _ _. [];
}

-- A codec whose assignments are the numbers of the partitions.
abbrev codec : Codec
codec = record {
  encode_subscription = λ _ _. ok [];
  decode_subscription = λ _ _. err [];
  max_version = pos 3;
  encode_assignment = λ _ _. ok [];
  decode_assignment = λ _ bytes. ok (("orders", map pos bytes) ∷ []);
  payload = [];
  too_short = [];
  subscription = [];
  assignment = [];
}

-- A member that is not the leader, of a group that keeps rebalancing.
abbrev response : JoinResponse
response = record {
  error_code = pos 0;
  member_id = "m-1";
  generation_id = pos 1;
  protocol_name = some "cooperative-sticky";
  leader = "m-2";
  members = [];
}

abbrev coordinator : Bytes → Coordinator
coordinator partitions = record {
  join = λ _. ok response;
  sync = λ _. ok (record { error_code = pos 0; assignment = 0 ∷ 0 ∷ partitions });
  heartbeat = λ _. ok (pos 27);
  read_code = λ code. elim code [ pos zero ↦ none | _ ↦ some rebalance_in_progress ];
  to_string = λ _. [];
}

abbrev name_of : Result Error JoinResponse → Option String
name_of (ok r) = r.protocol_name
name_of (err _) = none

abbrev no_topics : MetadataSnapshot
no_topics = record {
  brokers = [];
  brokers_by_id = [];
  topics = [];
  topics_by_name = [];
  controller_id = none;
  cluster_id = none;
}

abbrev round : Bytes → Bool → Bool → Round
round partitions drops_counts drops_beat = record {
  snapshot = ok no_topics;
  coordinator = coordinator partitions;
  committed = λ _. ok [];
  earliest = λ _. ok (pos 7);
  drops = λ _. false;
  drops_counts = drops_counts;
  drops_join = false;
  drops_sync = false;
  drops_beat = drops_beat;
}

-- A coordinator that no longer knows the member: the heartbeat asks it to join, and the join is refused
-- with no protocol named.
abbrev refusal : JoinResponse
refusal = record response { error_code = pos 25; protocol_name = none }

abbrev evicting : Bool → Round
evicting drops_counts = record (round [] drops_counts false) {
  coordinator = record (coordinator []) {
    join = λ _. ok refusal;
    read_code = λ code. elim code [ pos zero ↦ none | _ ↦ some unknown_member_id ];
  };
}

-- A poll that is dropped at the heartbeat after its join, and one that evicts and is dropped before its
-- second join.
abbrev first_world : Bytes → ℕ → Round
first_world partitions zero = round partitions false false
first_world partitions (suc _) = round partitions false true

abbrev second_world : ℕ → Round
second_world zero = evicting false
second_world (suc zero) = evicting false
second_world (suc (suc _)) = evicting true

cooperative :
    (partitions : Bytes) (drops_counts drops_beat : Bool)
    → NamesCooperative (round partitions drops_counts drops_beat).coordinator
cooperative partitions drops_counts drops_beat q r h _ =
    ap (λ (o : Result Error JoinResponse). name_of o) (sym h)

first_cooperative :
    (partitions : Bytes) (i : ℕ) → NamesCooperative (first_world partitions i).coordinator
first_cooperative partitions zero = cooperative partitions false false
first_cooperative partitions (suc _) = cooperative partitions false true

abbrev code_of_join : Result Error JoinResponse → ℤ
code_of_join (ok r) = r.error_code
code_of_join (err _) = pos 25

abbrev is_known : Option ErrorCode → Bool
is_known none = true
is_known (some _) = false

-- A refused join need not name a protocol.
refused_cooperative : (drops_counts : Bool) → NamesCooperative (evicting drops_counts).coordinator
refused_cooperative drops_counts q r h known =
    let code : pos 25 ≡ r.error_code = ap code_of_join h in
    let clash : false ≡ true =
      ap (λ c. is_known ((evicting drops_counts).coordinator.read_code c)) code
      ∙ ap is_known known in
    absurd (cc)

second_cooperative : (i : ℕ) → NamesCooperative (second_world i).coordinator
second_cooperative zero = refused_cooperative false
second_cooperative (suc zero) = refused_cooperative false
second_cooperative (suc (suc _)) = refused_cooperative true

abbrev started : ClassicConsumer
started =
    with_rebalance_listener (
      fresh_consumer (Member.new "g" ("orders" ∷ []) none (pos 45000) (pos 300000)) ("orders" ∷ []))

abbrev joined : ClassicConsumer
joined =
    (poll codec decoder default_options (λ _. false) (first_world (0 ∷ 1 ∷ [])) false [] started).2

joined-Reached : Reached codec decoder default_options joined
joined-Reached =
    polled (λ _. false) (first_world (0 ∷ 1 ∷ [])) false [] (first_cooperative (0 ∷ 1 ∷ [])) started
      (listening _ (subscribed _ _))

abbrev first_partition : TopicPartition
first_partition = record { topic = "orders"; partition = pos 0 }

classic_poll-Told_example :
    told first_partition
      (poll codec decoder default_options (λ _. false) second_world false [] joined).1
    ≡ true
unfolding poll with_rebalance_listener fresh_consumer ClassicConsumer.settle Poll.rounds
    ClassicConsumer.join_round ClassicConsumer.partition_counts ClassicConsumer.count_topics
    ClassicConsumer.heartbeat_says_rejoin ClassicConsumer.ask_beat ClassicConsumer.announce
    ClassicConsumer.follow ClassicConsumer.evicted ClassicConsumer.take_over Member.forget
    Member.join_group Member.join_request Messages.collect Member.new Member.sync_group
    Member.sync_request Member.heartbeat Assign.is_eager Assign.name Wire.encode_subscription
    Wire.decode_assignment Wire.take_version Wire.be_bytes Wire.by_topic Consumer.new
    Consumer.assigned_keys Consumer.revoked_positions Reassign.committed_or_earliest
    Reassign.fill_earliest Reassign.insert_all Reassign.insert_fresh Reassign.reassign
    Reassign.retain Rebalance.flush Sort.sort Sort.place Map.lookup Map.insert Map.contains
    String-discrete TopicPartition-discrete ℤ-discrete ℕ_discrete Errors.code_of Errors.from_code
    ErrorCode.is_authentication ErrorCode.is_authorization
classic_poll-Told_example =
    classic_poll-Told codec decoder default_options joined joined-Reached (λ _. false) second_world
      false [] second_cooperative first_partition refl refl refl
