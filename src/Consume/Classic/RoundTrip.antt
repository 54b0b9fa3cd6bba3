-- ===== src/Consume/Classic/RoundTrip.antt =====
-- What a member writes of its subscription is what the leader reads.
use kaas_lib.Prelude.{
  ℕ, ◌≤◌, ◌+◌, ◌*◌, ◌/◌, ◌%◌, ◌≡◌, refl, sym, ap, ◌∙◌, subst, Bool, true, false, ◌&&◌, ◌||◌,
  if◌then◌else◌, any, map, some, List, [], ◌∷◌, ◌++◌, String, arith,
}
use mathlib.Core.Logic.{if_pos, if_neg}
use kaas_lib.Prelude.Int.{ℤ, pos, leb_ℤ, ◌≤ℤ◌}
use kaas_lib.Prelude.Map.{lookup, insert, contains}
use kaas_lib.Prelude.Sort.{sort, any-sort}
use kaas_lib.Prelude.Text.{String-discrete, TopicPartition, TopicPartition-discrete}
use kaas_lib.Conn.Errors.{Error}
use kaas_lib.Conn.Sanitize.{Text}
use kaas_lib.Meta.Retry.Reask.{Result, ok, err}
use kaas_lib.Read.Record.{Bytes}
use kaas_lib.Read.Header.{signed}
use kaas_lib.Consume.Group.Reconcile.{owns}
use kaas_lib.Consume.Classic.Wire.{
  ByTopic, Codec, ReadsBack, DecodedSubscription, bits_of, be_bytes, take_version, framed, by_topic,
  by_name, partitions_or, keyed, flat, subscription_at, clamped, encode_subscription,
  decode_subscription, no_generation,
}

abbrev dec : Discrete TopicPartition
dec = TopicPartition-discrete

contains-append :
    (k : TopicPartition) (xs ys : List TopicPartition) → owns k (xs ++ ys) ≡ owns k xs || owns k ys
unfolding contains
contains-append k [] ys = refl
contains-append k (x ∷ xs) ys = ground (arith, contains-append k xs ys)

-- Whether an entry holds a partition.
abbrev holds : TopicPartition → String × List ℤ → Bool
holds k entry = owns k (map (keyed entry.0) entry.1)

owns-flat : (k : TopicPartition) (groups : ByTopic) → owns k (flat groups) ≡ any (holds k) groups
unfolding contains
owns-flat k [] = refl
owns-flat k ((topic, ps) ∷ groups) =
    ground (arith, contains-append k (map (keyed topic) ps) (flat groups), owns-flat k groups)

holds-push :
    (k : TopicPartition) (topic : String) (ps : List ℤ) (p : ℤ)
    → holds k (topic, ps ++ (p ∷ [])) ≡ holds k (topic, ps) || owns k (keyed topic p ∷ [])
unfolding contains
holds-push k topic [] p = refl
holds-push k topic (q ∷ ps) p = ground (arith, holds-push k topic ps p)

-- The entries after a topic's partitions grew by one.
grown_lem :
    (k : TopicPartition) (topic : String) (ps : List ℤ) (x : Bool) (groups : ByTopic)
    → holds k (topic, ps)
      ≡ holds k (topic, partitions_or (lookup String-discrete topic groups)) || x
    → any (holds k) (insert String-discrete topic ps groups) ≡ any (holds k) groups || x
unfolding lookup insert contains
grown_lem k topic ps x [] h = ground (arith, h)
grown_lem k topic ps x ((j, qs) ∷ groups) h = elim (String-discrete j topic) [
  | yes e ↦
      let same : holds k (topic, qs) ≡ holds k (j, qs) = ap (λ t. holds k (t, qs)) (sym e) in
      let found =
        if_pos (String-discrete j topic) e (some qs) (lookup String-discrete topic groups) in
      let held : holds k (topic, ps) ≡ holds k (j, qs) || x =
        h ∙ ap (λ o. holds k (topic, partitions_or o) || x) found ∙ ap (λ b. b || x) same in
      rw
        (if_pos (String-discrete j topic) e ((topic, ps) ∷ groups)
          ((j, qs) ∷ insert String-discrete topic ps groups))
        (ground (arith, held))
  | no n ↦
      let missed =
        if_neg (String-discrete j topic) n (some qs) (lookup String-discrete topic groups) in
      let later =
        grown_lem k topic ps x groups
          (h ∙ ap (λ o. holds k (topic, partitions_or o) || x) missed) in
      rw
        (if_neg (String-discrete j topic) n ((topic, ps) ∷ groups)
          ((j, qs) ∷ insert String-discrete topic ps groups))
        (ground (arith, later))
]

pushed_lem :
    (k : TopicPartition) (topic : String) (p : ℤ) (groups : ByTopic)
    → any (holds k) (
        insert String-discrete topic
          (partitions_or (lookup String-discrete topic groups) ++ (p ∷ []))
          groups)
      ≡ any (holds k) groups || owns k (keyed topic p ∷ [])
pushed_lem k topic p groups =
    let before = partitions_or (lookup String-discrete topic groups) in
    grown_lem k topic (before ++ (p ∷ [])) (owns k (keyed topic p ∷ [])) groups
      (holds-push k topic before p)

or_assoc : (a b c : Bool) → (a || b) || c ≡ a || (b || c)
or_assoc true b c = refl
or_assoc false b c = refl

any-by_topic :
    (k : TopicPartition) (owned : List TopicPartition) (groups : ByTopic)
    → any (holds k) (by_topic owned groups) ≡ any (holds k) groups || owns k owned
unfolding by_topic contains
any-by_topic k [] groups = ground arith
any-by_topic k (key ∷ owned) groups =
    let pushed =
      insert String-discrete key.topic
        (partitions_or (lookup String-discrete key.topic groups) ++ (key.partition ∷ [])) groups in
    let before = any (holds k) groups in
    let this = owns k (key ∷ []) in
    any-by_topic k owned pushed
    ∙ ap (λ b. b || owns k owned) (pushed_lem k key.topic key.partition groups)
    ∙ or_assoc before this (owns k owned)
    ∙ ap (λ b. before || b) (sym (contains-append k (key ∷ []) owned))

owns-sorted :
    (k : TopicPartition) (owned : List TopicPartition)
    → owns k (flat (sort by_name (by_topic owned []))) ≡ owns k owned
owns-sorted k owned =
    owns-flat k (sort by_name (by_topic owned []))
    ∙ any-sort by_name (holds k) (by_topic owned [])
    ∙ any-by_topic k owned []

-- A version that fits two bytes is read back from them.
signed_lem :
    (n : ℕ) → n ≤ 32767 → signed 16 (bits_of (pos n) / 256 * 256 + bits_of (pos n) % 256) ≡ pos n
signed_lem n h = ground arith

clamped_lem :
    (most version : ℤ) → pos 0 ≤ℤ version → version ≤ℤ most → clamped most version ≡ version
clamped_lem most version low high = ground arith

-- Exactly the given partitions are named, or none.
abbrev pub Names : Bool → List TopicPartition → List TopicPartition → Type 0
Names with_owned owned decoded = (k : TopicPartition) → owns k decoded ≡ with_owned && owns k owned

-- What the leader reads of a subscription that was written at a version.
abbrev pub ReadAs :
    ℤ → List String → List TopicPartition → ℤ → Result Error DecodedSubscription → Type 0
ReadAs version topics owned generation (err e) = ⊥
ReadAs version topics owned generation (ok d) =
    (d.topics ≡ topics)
    × Names (leb_ℤ (pos 1) version) owned d.owned
    × (d.generation ≡ (if leb_ℤ (pos 2) version then generation else no_generation))

module _ (c : Codec) (back : ReadsBack c) (topics : List String) (owned : List TopicPartition)
    (generation : ℤ) where
  names_lem : (b : Bool) → Names b owned (flat (if b then sort by_name (by_topic owned []) else []))
  unfolding contains
  names_lem true = λ k. owns-sorted k owned
  names_lem false = λ k. refl

  framed_lem :
      (n : ℕ) (r : Result Text Bytes) (bytes : Bytes)
      → n ≤ 32767
      → pos n ≤ℤ c.max_version
      → c.encode_subscription (pos n) (subscription_at (pos n) topics owned generation) ≡ r
      → framed c (pos n) r ≡ ok bytes
      → ReadAs (pos n) topics owned generation (decode_subscription c bytes)
  unfolding decode_subscription take_version be_bytes
  framed_lem n (err text) bytes fits known encoded h = absurd (cc)
  framed_lem n (ok payload) bytes fits known encoded h =
      let version = clamped_lem c.max_version (pos n) (omega arith) known in
      let read : c.decode_subscription (clamped c.max_version (pos n)) payload
          ≡ ok (subscription_at (pos n) topics owned generation) =
        ap (λ v. c.decode_subscription v payload) version
        ∙ back.subscriptions (pos n) (subscription_at (pos n) topics owned generation) payload
            encoded in
      let bytes_are : be_bytes (pos n) ++ payload ≡ bytes = cc in
      subst (λ b. ReadAs (pos n) topics owned generation (decode_subscription c b)) bytes_are
        (rw (signed_lem n fits) (rw read (refl, names_lem (leb_ℤ (pos 1) (pos n)), refl)))

  -- Where the codec reads back what it wrote, a version is not negative, fits two bytes and is one that
  -- the codec knows: a subscription that could be written is read as one of the same topics, with
  -- exactly the owned partitions if the version is 1 or more and none otherwise, and with the
  -- generation if it is 2 or more and -1 otherwise.
  pub decode_subscription-encode_subscription :
      (n : ℕ) (bytes : Bytes)
      → n ≤ 32767
      → pos n ≤ℤ c.max_version
      → encode_subscription c topics owned generation (pos n) ≡ ok bytes
      → ReadAs (pos n) topics owned generation (decode_subscription c bytes)
  unfolding encode_subscription
  decode_subscription-encode_subscription n bytes fits known h =
      framed_lem n (c.encode_subscription (pos n) (subscription_at (pos n) topics owned generation))
        bytes fits known refl h
