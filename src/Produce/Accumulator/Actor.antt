-- ===== src/Produce/Accumulator/Actor.antt =====
-- kafka-produce/src/accumulator.rs: the actor that owns every partition's batches.
-- What a transaction allows and which broker leads a partition are read from other components and
-- enter as arguments. A send task is the list of batches that it is given.
use kaas_lib.Prelude.{
  ℕ, ◌+◌, min, Bool, true, false, ◌&&◌, ◌||◌, not, if◌then◌else◌, Option, none, some, List, [], ◌∷◌,
  ◌++◌, length, is_empty,
}
use kaas_lib.Prelude.Int.{ℤ, ℤ-discrete}
use kaas_lib.Prelude.Words.{u32_max}
use kaas_lib.Prelude.Map.{lookup, insert}
use kaas_lib.Prelude.Text.{TopicPartition, TopicPartition-discrete}
use kaas_lib.Conn.Errors.{Error, Codec, retriable}
use kaas_lib.Produce.Idempotence.{
  ProducerIdentity, BatchIdentity, Sequences, reserve, release, reset,
}
use kaas_lib.Produce.Accumulator.Types.{
  Queued, Batch, PartitionState, Config, Ready, Completed, Outcome, new_state, idle,
}
use kaas_lib.Produce.Accumulator.Buffer.{close, close_lingered, append_record, expire, fail_state}

abbrev pub Partitions : Type 0
Partitions = List (TopicPartition × PartitionState)

pub record Actor : Type 0 where
  pub partitions : Partitions
  pub flush_waiters : List ℕ
  pub identity : Option ProducerIdentity
  pub identity_attempts : ℕ
  pub sequences : Sequences

-- `values_mut()`: one function at every partition.
unfoldable pub map_states : (PartitionState → PartitionState) → Partitions → Partitions
map_states f [] = []
map_states f ((k, s) ∷ ps) = (k, f s) ∷ map_states f ps

-- The same, where each partition also answers callers.
unfoldable pub map_answering :
    (PartitionState → PartitionState × List (ℕ × Outcome))
    → Partitions
    → Partitions × List (ℕ × Outcome)
map_answering f [] = ([], [])
map_answering f ((k, s) ∷ ps) =
    let (s', answers) = f s in
    let (ps', rest) = map_answering f ps in ((k, s') ∷ ps', answers ++ rest)

abbrev pub or_new_state : Option PartitionState → PartitionState
or_new_state (some s) = s
or_new_state none = new_state

-- `partitions.entry((topic, partition)).or_default()`, and the append there.
unfoldable pub append : Config → TopicPartition → Queued → ℕ → Actor → Actor
append c key q now a = record a {
  partitions =
      insert TopicPartition-discrete key
        (append_record c q now (or_new_state (lookup TopicPartition-discrete key a.partitions)))
        a.partitions;
}

unfoldable pub close_all : Actor → Actor
close_all a = record a { partitions = map_states close a.partitions }

unfoldable pub close_expired : Config → ℕ → Actor → Actor
close_expired c now a = record a {
  partitions = map_states (close_lingered c.linger now) a.partitions;
}

pub data Command : Type 0 where
  append_to : TopicPartition → Queued → Command
  flush : ℕ → Command

unfoldable pub handle : Config → ℕ → Command → Actor → Actor
unfolding append close_all
handle c now (append_to key q) a = append c key q now a
handle c now (flush waiter) a = record (close_all a) {
  flush_waiters = a.flush_waiters ++ (waiter ∷ []);
}

-- `if let Some(state) = get_mut(&key) { state.in_flight = false }`
abbrev pub land : Option PartitionState → TopicPartition → Partitions → Partitions
land none key ps = ps
land (some s) key ps = insert TopicPartition-discrete key (record s { in_flight = false }) ps

unfoldable pub land_all : List TopicPartition → Partitions → Partitions
land_all [] ps = ps
land_all (key ∷ ks) ps = land_all ks (land (lookup TopicPartition-discrete key ps) key ps)

unfoldable pub release_all : List (TopicPartition × ℤ) → Sequences → Sequences
release_all [] s = s
release_all ((key, base) ∷ rs) s = release_all rs (release s key base)

-- Apply a finished send task's bookkeeping.
unfoldable pub settle : Completed → Actor → Actor
unfolding land_all release_all
settle done a =
    let ps = land_all done.partitions a.partitions in
    let s = release_all done.released a.sequences in
    if done.reset_identity
    then record a { partitions = ps; sequences = reset s; identity = none }
    else record a { partitions = ps; sequences = s }

-- Whether any partition has a batch waiting for the wire.
unfoldable pub has_work : Partitions → Bool
has_work [] = false
has_work ((k, s) ∷ ps) = not (is_empty s.pending) || has_work ps

unfoldable pub is_idle : Partitions → Bool
is_idle [] = true
is_idle ((k, s) ∷ ps) = idle s && is_idle ps

-- How the claim of a producer id ended.
pub data Claim : Type 0 where
  claimed : ProducerIdentity → Claim
  refused : Error → Claim

abbrev pub take_claim : Codec → Claim → Actor → Actor × List (ℕ × Outcome)
take_claim codec (claimed identity) a =
    (record a { identity = some identity; identity_attempts = 0 }, [])
take_claim codec (refused error) a =
    if retriable codec error
    then (record a { identity_attempts = min u32_max (a.identity_attempts + 1) }, [])
    else let (ps, answers) = map_answering (fail_state error) a.partitions in
      (record a { partitions = ps }, answers)

abbrev pub has_identity : Option ProducerIdentity → Bool
has_identity (some _) = true
has_identity none = false

-- `ensure_identity` of a producer with no transactions; `claim` is what the broker would answer.
unfoldable pub ensure_identity : Config → Codec → Claim → Actor → Actor × List (ℕ × Outcome)
ensure_identity c codec claim a =
    if not c.idempotent || (has_identity a.identity || not (has_work a.partitions))
    then (a, [])
    else take_claim codec claim a

-- Fail every buffered record whose deadline has passed.
unfoldable pub expire_overdue : Config → ℕ → Actor → Actor × List (ℕ × Outcome)
expire_overdue c now a =
    let (ps, answers) = map_answering (expire now c.delivery_timeout) a.partitions in
    (record a { partitions = ps }, answers)

-- What dispatch reads of other components: whether a transaction is open, which partitions are
-- enrolled in it, and the leader that the snapshot names.
pub record Surroundings : Type 0 where
  pub transactional : Bool
  pub enrolled : TopicPartition → Bool
  pub leader : TopicPartition → Option ℤ

-- The identity that a batch gets, and the sequences after its numbers are reserved.
abbrev pub stamp :
    Option ProducerIdentity
    → Bool
    → TopicPartition
    → ℕ
    → Sequences
    → Sequences × Option BatchIdentity
stamp none transactional key count s = (s, none)
stamp (some issued) transactional key count s =
    let (s', base) = reserve s key count in
    (
      s',
      some (record {
        producer_id = issued.producer_id;
        producer_epoch = issued.producer_epoch;
        base_sequence = base;
        transactional = transactional;
      }),
    )

-- What the loop of `dispatch_ready` does to one partition.
pub record Turn : Type 0 where
  pub state : PartitionState
  pub sequences : Sequences
  pub sent : Option Ready

-- `pending.pop_front()`: the oldest batch goes.
abbrev pub send_first :
    Option ProducerIdentity → Bool → TopicPartition → PartitionState → Sequences → List Batch → Turn
send_first identity transactional key st s [] = record { state = st; sequences = s; sent = none }
send_first identity transactional key st s (b ∷ bs) =
    let (s', stamped) = stamp identity transactional key (length b.records) s in
    record {
      state = record st { pending = bs; in_flight = true };
      sequences = s';
      sent = some (record { key = key; records = b.records; identity = stamped });
    }

unfoldable pub dispatch_one :
    Surroundings → Option ProducerIdentity → TopicPartition → PartitionState → Sequences → Turn
dispatch_one env identity key st s =
    if st.in_flight || (env.transactional && not (env.enrolled key))
    then record { state = st; sequences = s; sent = none }
    else send_first identity env.transactional key st s st.pending

-- `groups.entry(leader).or_default().push(ready)`
unfoldable pub Leader-discrete : Discrete (Option ℤ)
unfolding ℤ-discrete
Leader-discrete = hlevel ℤ-discrete

abbrev pub or_none_yet : Option (List Ready) → List Ready
or_none_yet (some rs) = rs
or_none_yet none = []

abbrev pub push_group :
    Option ℤ → Option Ready → List (Option ℤ × List Ready) → List (Option ℤ × List Ready)
push_group leader none groups = groups
push_group leader (some r) groups =
    insert Leader-discrete leader (or_none_yet (lookup Leader-discrete leader groups) ++ (r ∷ []))
      groups

-- The loop over the partitions: their states, the sequences, and the groups by leader.
unfoldable pub dispatch_all :
    Surroundings
    → Option ProducerIdentity
    → Partitions
    → Sequences
    → List (Option ℤ × List Ready)
    → Partitions × Sequences × List (Option ℤ × List Ready)
dispatch_all env identity [] s groups = ([], s, groups)
dispatch_all env identity ((k, st) ∷ ps) s groups =
    let turn = dispatch_one env identity k st s in
    let (ps', s', groups') =
      dispatch_all env identity ps turn.sequences (push_group (env.leader k) turn.sent groups) in
    ((k, turn.state) ∷ ps', s', groups')

-- Hand every partition that is free and has work to a send task, one for each leader.
unfoldable pub dispatch_ready : Config → Surroundings → Actor → Actor × List (Option ℤ × List Ready)
unfolding dispatch_all
dispatch_ready c env a =
    if c.idempotent && not (has_identity a.identity)
    then (a, [])
    else let (ps, s, groups) = dispatch_all env a.identity a.partitions a.sequences [] in
      (record a { partitions = ps; sequences = s }, groups)

-- Every waiting flush is answered once nothing is outstanding.
unfoldable pub settle_flushes : Actor → Actor × List ℕ
unfolding is_idle
settle_flushes a =
    if is_empty a.flush_waiters || not (is_idle a.partitions)
    then (a, [])
    else (record a { flush_waiters = [] }, a.flush_waiters)

-- Drop the bookkeeping of partitions with nothing outstanding.
unfoldable pub retain_busy : Partitions → Partitions
retain_busy [] = []
retain_busy ((k, s) ∷ ps) = let rest = retain_busy ps in if idle s then rest else (k, s) ∷ rest

unfoldable pub forget_idle : Actor → Actor
unfolding retain_busy
forget_idle a = record a { partitions = retain_busy a.partitions }
