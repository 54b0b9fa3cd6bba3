-- ===== src/Consume/Classic/Member.antt =====
-- `ClassicMembership`: joining and syncing, the heartbeat and leaving.
use kaas_lib.Prelude.{
  ℕ, Bool, true, false, ◌||◌, if◌then◌else◌, map, Option, none, some, List, [], ◌∷◌, String,
}
use kaas_lib.Prelude.Int.{ℤ, pos, eq_ℤ}
use kaas_lib.Prelude.Sort.{sort}
use kaas_lib.Prelude.Text.{TopicPartition, leb_String}
use kaas_lib.Conn.Errors.{Error, from_code}
use kaas_lib.Conn.ErrorCode.{
  ErrorCode, member_id_required, rebalance_in_progress, unknown_member_id, illegal_generation,
}
use kaas_lib.Meta.Retry.Reask.{Result, ok, err}
use kaas_lib.Read.Record.{Bytes}
use kaas_lib.Consume.Assign.{
  Assignor, range, round_robin, cooperative_sticky, name, is_eager, MemberSubscription, Plan,
  is_text,
}
use kaas_lib.Consume.Assign.Balance.{assign}
use kaas_lib.Consume.Classic.Wire.{
  Codec, by_name, encode_subscription, decode_subscription, encode_assignment, decode_assignment,
  no_generation, protocol_version, cooperative_protocol_version,
}
use kaas_lib.Consume.Classic.Messages.{
  collect, then_ok, JoinRequest, JoinResponse, SyncRequest, SyncResponse, Coordinator,
}

pub record ClassicMembership : Type 0 where
  pub group_id : String
  pub subscription : List String
  pub instance_id : Option String
  pub member_id : String
  pub generation_id : ℤ
  pub leader : Bool
  pub protocol : String
  pub assignors : List Assignor
  pub session_timeout_ms : ℤ
  pub rebalance_timeout_ms : ℤ

-- `SUPPORTED`
abbrev pub supported : List Assignor
supported = range ∷ round_robin ∷ cooperative_sticky ∷ []

unfoldable pub new : String → List String → Option String → ℤ → ℤ → ClassicMembership
unfolding name
new group_id subscription instance_id session_timeout_ms rebalance_timeout_ms = record {
  group_id = group_id;
  subscription = subscription;
  instance_id = instance_id;
  member_id = "";
  generation_id = no_generation;
  leader = false;
  protocol = name range;
  assignors = supported;
  session_timeout_ms = session_timeout_ms;
  rebalance_timeout_ms = rebalance_timeout_ms;
}

unfoldable pub set_assignors : List Assignor → ClassicMembership → ClassicMembership
set_assignors assignors m = record m { assignors = assignors }

-- `is_cooperative`, of a protocol's name and of a member.
abbrev pub names_cooperative : String → Bool
names_cooperative protocol = is_text protocol "cooperative-sticky"

abbrev pub is_cooperative : ClassicMembership → Bool
is_cooperative m = names_cooperative m.protocol

module _ (w : Codec) where
  -- Nothing is owned under an eager assignor.
  abbrev pub protocol_of :
      List TopicPartition → ClassicMembership → Assignor → Result Error (String × Bytes)
  protocol_of owned m a =
      then_ok
        (if is_eager a
          then encode_subscription w m.subscription [] m.generation_id protocol_version
          else encode_subscription w m.subscription owned m.generation_id
              cooperative_protocol_version)
        (λ metadata. (name a, metadata))

  unfoldable pub join_request : List TopicPartition → ClassicMembership → Result Error JoinRequest
  join_request owned m = then_ok (collect (protocol_of owned m) m.assignors) (λ protocols. record {
    group_id = m.group_id;
    session_timeout_ms = m.session_timeout_ms;
    rebalance_timeout_ms = m.rebalance_timeout_ms;
    member_id = m.member_id;
    instance_id = m.instance_id;
    protocol_type = "consumer";
    protocols = protocols;
  })

  -- One member's subscription, as the leader sees it.
  abbrev pub member_of : String × Bytes → Result Error MemberSubscription
  member_of (member, metadata) = then_ok (decode_subscription w metadata) (λ decoded. record {
    member_id = member;
    topics = decoded.topics;
    owned = decoded.owned;
    generation = decoded.generation;
  })

  -- What the leader sends to each member, in the order of the two maps.
  abbrev pub encoded_plan : Plan → Result Error (List (String × Bytes))
  encoded_plan plan =
      collect
        (λ (entry : String × List (String × List ℕ)).
          then_ok
            (encode_assignment w (sort by_name (map (λ (topic, ps). (topic, map pos ps)) entry.1)))
            (λ bytes. (entry.0, bytes)))
        (sort (λ a b. leb_String a.0 b.0) plan)

  abbrev pub assignments_of :
      ClassicMembership
      → List MemberSubscription
      → List (String × ℕ)
      → Result Error (List (String × Bytes))
  assignments_of m members sizes =
      if m.leader then encoded_plan (assign m.protocol members sizes) else ok []

  unfoldable pub sync_request :
      ClassicMembership → List MemberSubscription → List (String × ℕ) → Result Error SyncRequest
  sync_request m members sizes = then_ok (assignments_of m members sizes) (λ assignments. record {
    group_id = m.group_id;
    generation_id = m.generation_id;
    member_id = m.member_id;
    instance_id = m.instance_id;
    protocol_type = "consumer";
    protocol_name = m.protocol;
    assignments = assignments;
  })

  module _ (c : Coordinator) where
    -- The coordinator refuses a first join and hands back the id to use.
    abbrev pub granted : ErrorCode → JoinResponse → ClassicMembership → ClassicMembership
    granted member_id_required r m = record m { member_id = r.member_id }
    granted _ r m = m

    abbrev pub or_range : Option String → String
    or_range none = name range
    or_range (some protocol) = protocol

    abbrev pub admitted : JoinResponse → ClassicMembership → ClassicMembership
    admitted r m = record m {
      member_id = r.member_id;
      generation_id = r.generation_id;
      protocol = or_range r.protocol_name;
      leader = is_text r.leader r.member_id;
    }

    -- Only the leader is given the members.
    abbrev pub joined :
        Option ErrorCode
        → JoinResponse
        → ClassicMembership
        → Result Error (List MemberSubscription) × ClassicMembership
    joined (some code) r m = (err (from_code c.to_string code none), granted code r m)
    joined none r m =
        let m' = admitted r m in (if m'.leader then collect member_of r.members else ok [], m')

    abbrev pub join_answer :
        Result Error JoinResponse
        → ClassicMembership
        → Result Error (List MemberSubscription) × ClassicMembership
    join_answer (err e) m = (err e, m)
    join_answer (ok r) m = joined (c.read_code r.error_code) r m

    abbrev pub send_join :
        Result Error JoinRequest
        → ClassicMembership
        → Result Error (List MemberSubscription) × ClassicMembership
    send_join (err e) m = (err e, m)
    send_join (ok request) m = join_answer (c.join request) m

    unfoldable pub join_group :
        List TopicPartition
        → ClassicMembership
        → Result Error (List MemberSubscription) × ClassicMembership
    join_group owned m = send_join (join_request owned m) m

    abbrev pub synced : Option ErrorCode → SyncResponse → Result Error (List TopicPartition)
    synced (some code) r = err (from_code c.to_string code none)
    synced none r = decode_assignment w r.assignment

    abbrev pub sync_answer : Result Error SyncResponse → Result Error (List TopicPartition)
    sync_answer (err e) = err e
    sync_answer (ok r) = synced (c.read_code r.error_code) r

    abbrev pub send_sync : Result Error SyncRequest → Result Error (List TopicPartition)
    send_sync (err e) = err e
    send_sync (ok request) = sync_answer (c.sync request)

    unfoldable pub sync_group :
        ClassicMembership
        → List MemberSubscription
        → List (String × ℕ)
        → Result Error (List TopicPartition)
    sync_group m members sizes = send_sync (sync_request m members sizes)

-- The member starts again under no id.
unfoldable pub forget : ClassicMembership → ClassicMembership
forget m = record m { member_id = ""; generation_id = no_generation; leader = false }

module _ (c : Coordinator) where
  -- The codes that mean joining again.
  abbrev pub says_join : Option ErrorCode → Result Error Bool
  says_join none = ok false
  says_join (some rebalance_in_progress) = ok true
  says_join (some unknown_member_id) = ok true
  says_join (some illegal_generation) = ok true
  says_join (some code) = err (from_code c.to_string code none)

  abbrev pub beat_answer : Result Error ℤ → Result Error Bool
  beat_answer (err e) = err e
  beat_answer (ok code) = says_join (c.read_code code)

  -- Whether the member has to join again; without a generation nobody is asked.
  unfoldable pub heartbeat : ClassicMembership → Result Error Bool
  heartbeat m =
      if eq_ℤ m.generation_id no_generation
      then ok true
      else beat_answer (
          c.heartbeat (record {
            group_id = m.group_id;
            generation_id = m.generation_id;
            member_id = m.member_id;
            instance_id = m.instance_id;
          }))

-- `leave`: the member id that the coordinator is told, if it is told, and the member afterwards. What
-- it answers is ignored.
abbrev pub is_static : Option String → Bool
is_static none = false
is_static (some _) = true

unfoldable pub leave : ClassicMembership → Option String × ClassicMembership
leave m =
    if is_text m.member_id "" || is_static m.instance_id
    then (none, record m { generation_id = no_generation })
    else (some m.member_id, record m { member_id = ""; generation_id = no_generation })
