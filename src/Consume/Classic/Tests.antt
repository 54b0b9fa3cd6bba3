-- ===== src/Consume/Classic/Tests.antt =====
-- A subscription of one topic on the wire.
use kaas_lib.Prelude.{◌≡◌, refl, ap, List, [], ◌∷◌, ℕ_discrete, arith}
use mathlib.Core.Logic.{ite}
use kaas_lib.Prelude.Int.{ℤ-discrete, pos}
use kaas_lib.Prelude.Map
use kaas_lib.Prelude.Sort
use kaas_lib.Prelude.Text.{TopicPartition, String-discrete}
use kaas_lib.Conn.Sanitize.{Text}
use kaas_lib.Meta.Retry.Reask.{Result, ok, err}
use kaas_lib.Read.Record.{Bytes}
use kaas_lib.Consume.Classic.Wire
use kaas_lib.Consume.Classic.Wire.{
  ByTopic, Codec, Subscription, ReadsBack, encode_subscription, decode_subscription,
  subscription_at,
}
use kaas_lib.Consume.Classic.RoundTrip.{ReadAs, decode_subscription-encode_subscription}

abbrev owned : List TopicPartition
owned = record { topic = "orders"; partition = pos 3 } ∷ []

abbrev known : Subscription
known = record {
  topics = "orders" ∷ [];
  owned_partitions = ("orders", pos 3 ∷ []) ∷ [];
  generation_id = pos 9;
}

Subscription-discrete : Discrete Subscription
unfolding String-discrete ℤ-discrete ℕ_discrete
Subscription-discrete = hlevel (String-discrete, ℤ-discrete)

-- A codec that knows one subscription and one assignment.
abbrev codec : Codec
codec = record {
  encode_subscription = λ _ s. ite (Subscription-discrete known s) (ok (7 ∷ [])) (err []);
  decode_subscription = λ _ _. ok known;
  max_version = pos 3;
  encode_assignment = λ _ _. err [];
  decode_assignment = λ _ _. err [];
  payload = [];
  too_short = [];
  subscription = [];
  assignment = [];
}

abbrev wrote : {s : Subscription} → Dec (known ≡ s) → Result Text Bytes
wrote d = ite d (ok (7 ∷ [])) (err [])

reads_known :
    (s : Subscription) (payload : Bytes) (d : Dec (known ≡ s))
    → wrote d ≡ ok payload
    → ◌≡◌ {A = Result Text Subscription} (ok known) (ok s)
reads_known s payload (yes e) h = ap ok e
reads_known s payload (no n) h = absurd (cc)

codec-ReadsBack : ReadsBack codec
codec-ReadsBack = record {
  subscriptions = λ v s payload h. reads_known s payload (Subscription-discrete known s) h;
  assignments = λ v assigned payload h. absurd (cc);
}

decode_subscription-encode_subscription_example :
    ReadAs (pos 2) ("orders" ∷ []) owned (pos 9) (decode_subscription codec (0 ∷ 2 ∷ 7 ∷ []))
unfolding encode_subscription Subscription-discrete Wire.be_bytes Wire.by_topic Map.lookup
    Map.insert Sort.sort Sort.place String-discrete ℤ-discrete ℕ_discrete
decode_subscription-encode_subscription_example =
    decode_subscription-encode_subscription codec codec-ReadsBack ("orders" ∷ []) owned (pos 9) 2
      (0 ∷ 2 ∷ 7 ∷ []) (omega arith) (omega arith) refl
