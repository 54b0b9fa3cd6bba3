-- ===== src/Consume/GroupConsumer/Beaten.antt =====
-- What a heartbeat that keeps the membership says of what the member owns.
use kaas_lib.Prelude.{
  ℕ, ◌≡◌, refl, Bool, true, false, not, ◌&&◌, ◌||◌, is_empty, Option, none, some, List, [], String,
  arith,
}
use kaas_lib.Prelude.Map.{contains}
use kaas_lib.Prelude.Text.{TopicPartition}
use kaas_lib.Conn.Errors.{Error}
use kaas_lib.Conn.ErrorCode.{ErrorCode}
use kaas_lib.Meta.Retry.Reask.{Result, ok, err}
use kaas_lib.Consume.Group.{Membership, Request, TopicId, membership_lost}
use kaas_lib.Consume.Group.Reconcile.{Reconciliation, reconcile, owns, revoked_lem, unchanged}
use kaas_lib.Consume.Group.Beat.{
  Claims, Coordinator, Response, build, beat, receive, apply_response, follow, adopt, target_of,
  by_id,
}
use kaas_lib.Consume.Consumer.{}
use kaas_lib.Consume.Task.{}
use kaas_lib.Consume.Rebalance.Lost.{}
use kaas_lib.Consume.GroupConsumer.{}
use kaas_lib.Consume.GroupConsumer.Laws.{}

-- Whether an answer's code says that the membership is gone.
abbrev pub lost : Option ErrorCode → Bool
lost none = false
lost (some code) = membership_lost code

-- The coordinator does not answer that the membership is gone.
abbrev pub KeepsMember : Coordinator → Type 0
KeepsMember c =
    (q : Request) (r : Response) → c.send q ≡ ok r → lost (c.read_code r.error_code) ≡ false

-- What a reconciliation says of what was owned and of what is owned now.
abbrev pub Explained : List TopicPartition → List TopicPartition → Reconciliation → Type 0
Explained before now r =
    (r.changed ≡ not (is_empty r.revoked && is_empty r.gained))
    × ((k : TopicPartition)
        → ((not (owns k before) || owns k now || owns k r.revoked) ≡ true)
          × (r.changed ≡ false → owns k before ≡ owns k now))

abbrev pub Beaten : Membership → Result Error Reconciliation × Membership → Type 0
Beaten m (err e, m') = m'.owned ≡ m.owned
Beaten m (ok r, m') = Explained m.owned m'.owned r

reconcile-Explained :
    (before now : List TopicPartition) → Explained before now (reconcile before now)
reconcile-Explained before now =
    (changed_lem, λ k. (ground (arith, revoked_lem k before now), unchanged k before now))
  where
    changed_lem :
        (reconcile before now).changed
        ≡ not (is_empty (reconcile before now).revoked && is_empty (reconcile before now).gained)
    changed_lem = unfold reconcile in ground arith

follow-Explained :
    (topic_ids : List (String × TopicId)) (a : Option Claims) (m : Membership)
    → let (r, m') = follow topic_ids a m in Explained m.owned m'.owned r
unfolding follow contains
follow-Explained topic_ids none m = (refl, λ k. (ground arith, λ _. refl))
follow-Explained topic_ids (some a) m =
    reconcile-Explained m.owned (target_of (by_id [] topic_ids) a [])

module _ (c : Coordinator) (keeps : KeepsMember c) (fresh : String)
    (topic_ids : List (String × TopicId)) where
  apply_response-Beaten :
      (code : Option ErrorCode) (r : Response) (m : Membership)
      → lost code ≡ false
      → Beaten m (apply_response c fresh topic_ids code r m)
  unfolding adopt
  apply_response-Beaten none r m h = follow-Explained topic_ids r.assignment (adopt r m)
  apply_response-Beaten (some code) r m h = rw h refl

  receive-Beaten :
      (now : ℕ) (q : Request) (answer : Result Error Response) (m : Membership)
      → c.send q ≡ answer
      → Beaten m (receive c fresh now topic_ids answer m)
  receive-Beaten now q (err e) m h = refl
  receive-Beaten now q (ok r) m h =
      apply_response-Beaten (c.read_code r.error_code) r (record m { last_beat = some now })
        (keeps q r h)

  pub beat-Beaten : (now : ℕ) (m : Membership) → Beaten m (beat c fresh now topic_ids m)
  unfolding beat
  beat-Beaten now m = receive-Beaten now (build topic_ids m) (c.send (build topic_ids m)) m refl
