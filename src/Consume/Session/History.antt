-- ===== src/Consume/Session/History.antt =====
-- A session over many requests: answered ones, and ones that find the session lost.
use kaas_lib.Prelude.{some, List, [], ◌∷◌, ◌≡◌, refl, ap, ◌∙◌, arith, true, false}
use kaas_lib.Prelude.Int.{ℤ, pos, eq_ℤ}
use kaas_lib.Prelude.Map.{keys, lookup, IsFunctional}
use kaas_lib.Prelude.Text.{TopicPartition}
use kaas_lib.Consume.Session.{
  no_session, PartitionState, Assignment, FetchSession, new, is_known, changed, remember,
  forget_gone, next, accept, reset,
}
use kaas_lib.Prelude.Words.{i32_saturating_add}
use kaas_lib.Consume.Session.Broker.{dec, apply_delta}
use kaas_lib.Consume.Session.Sync.{InSync, apply_delta-next}

-- How a request ends: the broker answers with the session that it recorded, or it has dropped the
-- session (an error for which `session_lost` holds) and keeps some other view.
pub data Reply : Type 0 where
  answered : ℤ → ℤ → Reply
  lost : Assignment → Reply

-- One request, the broker's work on it, and the client's handling of the reply.
unfoldable pub exchange : FetchSession → Assignment → Assignment → Reply → FetchSession × Assignment
exchange s view wanted (answered id epoch) =
    (accept (next s wanted).0 id epoch, apply_delta (next s wanted).1 view)
exchange s view wanted (lost other) = (reset (next s wanted).0, other)

unfoldable pub run :
    FetchSession → Assignment → List (Assignment × Reply) → FetchSession × Assignment
run s view [] = (s, view)
run s view ((wanted, reply) ∷ es) =
    let (s', view') = exchange s view wanted reply in run s' view' es

-- What a caller passes to `next` is a map.
abbrev pub AreMaps : List (Assignment × Reply) → Type 0
AreMaps [] = Unit {0}
AreMaps ((wanted, _) ∷ es) = IsFunctional dec wanted wanted × AreMaps es

new-InSync : (view : Assignment) → InSync new view
unfolding new
new-InSync view = record { nothing_owed = refl; same_view = λ h k. absurd (cc) }

exchange-InSync :
    (s : FetchSession) (view wanted : Assignment) (reply : Reply)
    → InSync s view
    → IsFunctional dec wanted wanted
    → InSync (exchange s view wanted reply).0 (exchange s view wanted reply).1
exchange-InSync s view wanted (answered id epoch) h f =
    unfold exchange in
    record {
      nothing_owed = unfold accept next in refl;
      same_view =
          λ _ k. unfold accept in (apply_delta-next s view wanted h f k ∙ (unfold next in refl));
    }
exchange-InSync s view wanted (lost other) h f = unfold exchange reset in new-InSync other

run-InSync :
    (s : FetchSession) (view : Assignment) (es : List (Assignment × Reply))
    → InSync s view
    → AreMaps es
    → InSync (run s view es).0 (run s view es).1
unfolding run
run-InSync s view [] h m = h
run-InSync s view ((wanted, reply) ∷ es) h m =
    let (s', view') = exchange s view wanted reply in
    run-InSync s' view' es (exchange-InSync s view wanted reply h m.0) m.1

-- Where every assignment that the caller passes is a map: from a new session and whatever view the
-- broker has, after any history of answered requests and lost sessions, the next request leaves the
-- broker with exactly the wanted assignment.
pub apply_delta-run :
    (view : Assignment) (es : List (Assignment × Reply)) (wanted : Assignment)
    → AreMaps es
    → IsFunctional dec wanted wanted
    → (k : TopicPartition)
    → let (s, view') = run new view es in
      lookup dec k (apply_delta (next s wanted).1 view') ≡ lookup dec k wanted
apply_delta-run view es wanted m f =
    let (s, view') = run new view es in
    apply_delta-next s view' wanted (run-InSync new view es (new-InSync view) m) f

is_known_refl : (v : PartitionState) → is_known (some v) v ≡ true
is_known_refl v = ground arith

changed_same : (known es : Assignment) → IsFunctional dec known es → changed known es ≡ []
unfolding changed
changed_same known [] f = refl
changed_same known ((j, w) ∷ es) f = rw (f.0, is_known_refl w) (changed_same known es f.1)

forget_gone_same :
    (known es : Assignment) (s : List TopicPartition)
    → IsFunctional dec known es
    → forget_gone known s (keys es) ≡ s
unfolding forget_gone
forget_gone_same known [] s f = refl
forget_gone_same known ((j, w) ∷ es) s f =
    ap (λ o. forget_gone known (remember o j s) (keys es)) f.0 ∙ forget_gone_same known es s f.1

-- In steady state a request carries nothing: once the broker has answered a request with a session
-- (an id other than that of no session), where the wanted assignment is a map, asking for the same assignment again includes no partition, forgets none, and names that session
-- at the epoch after the broker's.
pub next_steady :
    (s : FetchSession) (wanted : Assignment) (id epoch : ℤ)
    → eq_ℤ id no_session ≡ false
    → IsFunctional dec wanted wanted
    → let d = (next (accept (next s wanted).0 id epoch) wanted).1 in
      (d.include ≡ [])
      × (d.forget ≡ [])
      × (d.session_id ≡ id)
      × (d.session_epoch ≡ i32_saturating_add epoch (pos 1))
unfolding next accept
next_steady s wanted id epoch h f =
    rw h (changed_same wanted wanted f, forget_gone_same wanted wanted [] f, refl, refl)
