-- ===== src/Consume/Classic/Wire.antt =====
-- The subscription and the assignment inside a join and a sync: a version of two bytes in front of
-- what the codec writes. The codec is a parameter.
use kaas_lib.Prelude.{
  ℕ, ◌+◌, ◌*◌, ◌/◌, ◌%◌, ◌^◌, ◌-◌, ◌≡◌, Bool, if◌then◌else◌, is_empty, map, Option, none, some,
  List, [], ◌∷◌, ◌++◌, String,
}
use kaas_lib.Prelude.Int.{ℤ, pos, negsuc, leb_ℤ}
use kaas_lib.Prelude.Map.{lookup, insert}
use kaas_lib.Prelude.Sort.{sort}
use kaas_lib.Prelude.Text.{String-discrete, TopicPartition, leb_String}
use kaas_lib.Conn.Errors.{Error, invalid_request, decode}
use kaas_lib.Conn.Sanitize.{Text}
use kaas_lib.Meta.Retry.Reask.{Result, ok, err}
use kaas_lib.Read.Record.{Bytes, max_ℤ}
use kaas_lib.Read.Header.{signed}

-- `NO_GENERATION`, `PROTOCOL_VERSION` and `COOPERATIVE_PROTOCOL_VERSION`
abbrev pub no_generation : ℤ
no_generation = negsuc 0

abbrev pub protocol_version : ℤ
protocol_version = pos 0

abbrev pub cooperative_protocol_version : ℤ
cooperative_protocol_version = pos 2

abbrev pub ByTopic : Type 0
ByTopic = List (String × List ℤ)

-- `ConsumerProtocolSubscription`, as far as it is set and read.
pub record Subscription : Type 0 where
  pub topics : List String
  pub owned_partitions : ByTopic
  pub generation_id : ℤ

-- The codec of the embedded messages, and the texts of the failures.
pub record Codec : Type 0 where
  pub encode_subscription : ℤ → Subscription → Result Text Bytes
  pub decode_subscription : ℤ → Bytes → Result Text Subscription
  pub max_version : ℤ
  pub encode_assignment : ℤ → ByTopic → Result Text Bytes
  pub decode_assignment : ℤ → Bytes → Result Text ByTopic
  pub payload : Text
  pub too_short : Text
  pub subscription : Text
  pub assignment : Text

-- `version.to_be_bytes()`, and `i16::from_be_bytes`.
abbrev pub bits_of : ℤ → ℕ
bits_of (pos n) = n % 2 ^ 16
bits_of (negsuc n) = 2 ^ 16 - 1 - n % 2 ^ 16

unfoldable pub be_bytes : ℤ → Bytes
be_bytes version = (bits_of version / 256) ∷ (bits_of version % 256) ∷ []

module _ (c : Codec) where
  -- The version in front, and the rest.
  unfoldable pub take_version : Bytes → Result Error (ℤ × Bytes)
  take_version (high ∷ low ∷ rest) = ok (signed 16 (high * 256 + low), rest)
  take_version _ = err (decode c.payload c.too_short)

  abbrev pub framed : ℤ → Result Text Bytes → Result Error Bytes
  framed version (err text) = err (invalid_request text)
  framed version (ok payload) = ok (be_bytes version ++ payload)

-- `by_topic.entry(topic).or_default().push(partition)`, and the entries of the `BTreeMap` in order.
abbrev pub partitions_or : Option (List ℤ) → List ℤ
partitions_or none = []
partitions_or (some partitions) = partitions

unfoldable pub by_topic : List TopicPartition → ByTopic → ByTopic
by_topic [] groups = groups
by_topic (key ∷ owned) groups = by_topic owned (
    insert String-discrete key.topic
      (partitions_or (lookup String-discrete key.topic groups) ++ (key.partition ∷ [])) groups)

abbrev pub by_name : String × List ℤ → String × List ℤ → Bool
by_name a b = leb_String a.0 b.0

-- `flat_map`: every partition of every topic.
abbrev pub keyed : String → ℤ → TopicPartition
keyed topic partition = record { topic = topic; partition = partition }

abbrev pub flat : ByTopic → List TopicPartition
flat [] = []
flat ((topic, partitions) ∷ groups) = map (keyed topic) partitions ++ flat groups

-- What a subscription says at a version: the owned partitions from 1 on, the generation from 2 on.
abbrev pub subscription_at : ℤ → List String → List TopicPartition → ℤ → Subscription
subscription_at version topics owned generation = record {
  topics = topics;
  owned_partitions = if leb_ℤ (pos 1) version then sort by_name (by_topic owned []) else [];
  generation_id = if leb_ℤ (pos 2) version then generation else no_generation;
}

-- `DecodedSubscription`
pub record DecodedSubscription : Type 0 where
  pub topics : List String
  pub owned : List TopicPartition
  pub generation : ℤ

-- `version.clamp(0, max)`
abbrev pub clamped : ℤ → ℤ → ℤ
clamped most version =
    if leb_ℤ version (pos 0) then pos 0 else if leb_ℤ most version then most else version

module _ (c : Codec) where
  unfoldable pub encode_subscription :
      List String → List TopicPartition → ℤ → ℤ → Result Error Bytes
  encode_subscription topics owned generation version =
      framed c version
        (c.encode_subscription version (subscription_at version topics owned generation))

  abbrev pub read_subscription : Result Text Subscription → Result Error DecodedSubscription
  read_subscription (err text) = err (decode c.subscription text)
  read_subscription (ok s) =
      ok (record {
        topics = s.topics;
        owned = flat s.owned_partitions;
        generation = s.generation_id;
      })

  abbrev pub decode_rest : Result Error (ℤ × Bytes) → Result Error DecodedSubscription
  decode_rest (err e) = err e
  decode_rest (ok (version, rest)) =
      read_subscription (c.decode_subscription (clamped c.max_version version) rest)

  unfoldable pub decode_subscription : Bytes → Result Error DecodedSubscription
  decode_subscription bytes = decode_rest (take_version c bytes)

  unfoldable pub encode_assignment : ByTopic → Result Error Bytes
  encode_assignment assigned =
      framed c protocol_version (c.encode_assignment protocol_version assigned)

  abbrev pub read_assignment : Result Text ByTopic → Result Error (List TopicPartition)
  read_assignment (err text) = err (decode c.assignment text)
  read_assignment (ok assigned) = ok (flat assigned)

  abbrev pub assignment_rest : Result Error (ℤ × Bytes) → Result Error (List TopicPartition)
  assignment_rest (err e) = err e
  assignment_rest (ok (version, rest)) =
      read_assignment (c.decode_assignment (max_ℤ version (pos 0)) rest)

  unfoldable pub decode_assignment : Bytes → Result Error (List TopicPartition)
  decode_assignment bytes = if is_empty bytes then ok [] else assignment_rest (take_version c bytes)

-- What the codec writes at a version it reads back at that version.
pub record ReadsBack (c : Codec) : Type 0 where
  pub subscriptions :
      (version : ℤ) (s : Subscription) (payload : Bytes)
      → c.encode_subscription version s ≡ ok payload
      → c.decode_subscription version payload ≡ ok s
  pub assignments :
      (version : ℤ) (assigned : ByTopic) (payload : Bytes)
      → c.encode_assignment version assigned ≡ ok payload
      → c.decode_assignment version payload ≡ ok assigned
