-- ===== src/Consume/Group/Laws.antt =====
-- What a heartbeat does to what a member owns, and what a member claims to own.
use kaas_lib.Prelude.{
  ℕ, Option, none, some, List, [], ◌∷◌, ◌++◌, ◌≡◌, refl, ◌⊎◌, inl, inr, Bool, true, false, not,
  ◌&&◌, ◌||◌, if◌then◌else◌, String, Bool-cases, arith,
}
use kaas_lib.Prelude.Int.{ℤ, ℤ-discrete, eq_ℤ, leb_ℤ}
use mathlib.Core.Logic.{ite, if_pos, if_neg}
use kaas_lib.Prelude.Map.{lookup, lookup-insert, contains}
use kaas_lib.Prelude.Text.{String-discrete, TopicPartition}
use kaas_lib.Conn.Errors.{Error}
use kaas_lib.Conn.ErrorCode.{ErrorCode}
use kaas_lib.Meta.Retry.Reask.{Result, ok, err}
use kaas_lib.Consume.Group.{
  Membership, TopicId, TopicId-discrete, epoch_join, nonzero, or_default, reset, membership_lost,
}
use kaas_lib.Consume.Group.Reconcile.{
  Reconciliation, nothing, reconcile, owns, revoked_lem, gained_lem,
}
use kaas_lib.Consume.Group.Beat.{
  target_of, by_id, Claims, add_claim, claims_of, build, Response, follow, adopt, Coordinator,
  apply_response, receive, beat, left, leave, leave_request,
}

-- The reconciliation accounts for the whole change of what is owned.
abbrev pub Accounts : List TopicPartition → List TopicPartition → Reconciliation → Type 0
Accounts before after r =
    (k : TopicPartition)
    → owns k after ≡ (owns k before && not (owns k r.revoked)) || owns k r.gained

-- The member starts again: at the join epoch, owning and owing nothing.
abbrev pub StartsAgain : Membership → Type 0
StartsAgain m = (m.member_epoch ≡ epoch_join) × (m.owned ≡ []) × (m.ack_owed ≡ false)

-- Where a heartbeat may leave a member.
abbrev pub Kept : Membership → Result Error Reconciliation × Membership → Type 0
Kept m (err e, m') =
    (m'.owned ≡ m.owned) × (m'.member_epoch ≡ m.member_epoch) × (m'.ack_owed ≡ m.ack_owed)
Kept m (ok r, m') =
    ((r ≡ nothing) × StartsAgain m') ⊎ (Accounts m.owned m'.owned r × (m'.ack_owed ≡ r.changed))

nothing-Accounts : (owned : List TopicPartition) → Accounts owned owned nothing
unfolding contains
nothing-Accounts owned k = ground arith

reconcile-Accounts :
    (owned target : List TopicPartition) → Accounts owned target (reconcile owned target)
reconcile-Accounts owned target k =
    ground (arith, revoked_lem k owned target, gained_lem k owned target)

follow-Accounts :
    (topic_ids : List (String × TopicId)) (a : Option Claims) (m : Membership)
    → let (r, m') = follow topic_ids a m in Accounts m.owned m'.owned r × (m'.ack_owed ≡ r.changed)
unfolding follow
follow-Accounts topic_ids none m = (nothing-Accounts m.owned, refl)
follow-Accounts topic_ids (some a) m =
    (reconcile-Accounts m.owned (target_of (by_id [] topic_ids) a []), refl)

-- Where leaving may leave a member.
abbrev pub LeftWith : Membership → Result Error Response → Result Error Unit × Membership → Type 0
LeftWith m (err e) after = after ≡ (err e, m)
LeftWith m (ok r) (result, m') = StartsAgain m' × (m'.group_id ≡ m.group_id)

-- The flag says that the member never joined.
abbrev pub Left :
    Bool → Membership → Result Error Response → Result Error Unit × Membership → Type 0
Left true m answer after = after ≡ (ok tt, m)
Left false m answer after = LeftWith m answer after

module _ (c : Coordinator) (fresh : String) (topic_ids : List (String × TopicId)) where
  apply_response-Kept :
      (code : Option ErrorCode) (r : Response) (m : Membership)
      → Kept m (apply_response c fresh topic_ids code r m)
  unfolding reset adopt
  apply_response-Kept none r m = inr (follow-Accounts topic_ids r.assignment (adopt r m))
  apply_response-Kept (some code) r m = elim (Bool-cases (membership_lost code)) [
    | inl lost ↦ rw lost (inl (refl, (refl, refl, refl)))
    | inr other ↦ rw other (refl, refl, refl)
  ]

  receive-Kept :
      (now : ℕ) (answer : Result Error Response) (m : Membership)
      → Kept m (receive c fresh now topic_ids answer m)
  receive-Kept now (err e) m = (refl, refl, refl)
  receive-Kept now (ok r) m =
      apply_response-Kept (c.read_code r.error_code) r (record m { last_beat = some now })

  -- A heartbeat that fails leaves what the member owns, its epoch and its debt of an acknowledgement
  -- as they were. One that succeeds either has lost the membership: the member is at the join epoch,
  -- owns nothing and owes nothing, and is told of no change; or the partitions owned afterwards are
  -- exactly those owned before less the revoked ones, with the gained ones, and an acknowledgement
  -- is owed exactly if the reconciliation says that something changed.
  pub beat-Kept : (now : ℕ) (m : Membership) → Kept m (beat c fresh now topic_ids m)
  unfolding beat
  beat-Kept now m = receive-Kept now (c.send (build topic_ids m)) m

module _ (c : Coordinator) (fresh : String) where
  left-Left :
      (answer : Result Error Response) (m : Membership) → LeftWith m answer (left c fresh answer m)
  unfolding reset
  left-Left (err e) m = refl
  left-Left (ok r) m = ((refl, refl, refl), refl)

  -- Leaving with an answer of the coordinator ends at the join epoch, owning and owing nothing,
  -- whatever the answer says; without one the member is unchanged and the error is returned. A member
  -- that has not joined asks for nothing and is unchanged.
  pub leave_lem :
      (m : Membership)
      → Left
          (leb_ℤ m.member_epoch epoch_join)
          m
          (c.send (leave_request c fresh m))
          (leave c fresh m)
  unfolding leave reset
  leave_lem m = elim (Bool-cases (leb_ℤ m.member_epoch epoch_join)) [
    | inl never ↦ rw never refl
    | inr joined ↦ rw joined (left-Left (c.send (leave_request c fresh m)) m)
  ]

-- Whether the claims name a partition of a topic id.
abbrev pub claims : TopicId → ℤ → Claims → Bool
claims id p by_topic = contains ℤ-discrete p (or_default (lookup TopicId-discrete id by_topic))

-- Whether a partition with this topic id is the one asked for.
abbrev pub is_it : TopicId → ℤ → Option TopicId → ℤ → Bool
is_it id p none q = false
is_it id p (some other) q = ite (TopicId-discrete other id) (ite (ℤ-discrete q p) true false) false

-- Whether an owned partition is the one asked for.
abbrev pub owns_it : List (String × TopicId) → TopicId → ℤ → List TopicPartition → Bool
owns_it topic_ids id p [] = false
owns_it topic_ids id p (key ∷ owned) =
    is_it id p (nonzero (lookup String-discrete key.topic topic_ids)) key.partition
    || owns_it topic_ids id p owned

contains-push :
    (p q : ℤ) (ps : List ℤ)
    → contains ℤ-discrete p (ps ++ (q ∷ []))
      ≡ contains ℤ-discrete p ps || ite (ℤ-discrete q p) true false
unfolding contains
contains-push p q [] = refl
contains-push p q (r ∷ ps) = ground (arith, contains-push p q ps)

claims-add_claim :
    (id : TopicId) (p : ℤ) (o : Option TopicId) (q : ℤ) (by_topic : Claims)
    → claims id p (add_claim o q by_topic) ≡ claims id p by_topic || is_it id p o q
claims-add_claim id p none q by_topic = ground arith
claims-add_claim id p (some other) q by_topic =
    let before = or_default (lookup TopicId-discrete other by_topic) in
    rw (lookup-insert TopicId-discrete other id (before ++ (q ∷ [])) by_topic)
      (elim (TopicId-discrete other id) [
        | yes e ↦
            rw
              (
                if_pos (TopicId-discrete other id) e,
                if_pos (TopicId-discrete other id) e (ite (ℤ-discrete q p) true false) false,
              )
              (rw (← e) (contains-push p q before))
        | no n ↦
            rw
              (
                if_neg (TopicId-discrete other id) n,
                if_neg (TopicId-discrete other id) n (ite (ℤ-discrete q p) true false) false,
              )
              (ground arith)
      ])

module _ (topic_ids : List (String × TopicId)) (id : TopicId) (p : ℤ) where
  claims-claims_of :
      (by_topic : Claims) (owned : List TopicPartition)
      → claims id p (claims_of topic_ids by_topic owned)
        ≡ claims id p by_topic || owns_it topic_ids id p owned
  unfolding claims_of
  claims-claims_of by_topic [] = ground arith
  claims-claims_of by_topic (key ∷ owned) =
      let o = nonzero (lookup String-discrete key.topic topic_ids) in
      ground (
        arith,
        claims-claims_of (add_claim o key.partition by_topic) owned,
        claims-add_claim id p o key.partition by_topic,
      )

  sent_lem :
      (send : Bool) (owned : List TopicPartition)
      → claims id p (if send then claims_of topic_ids [] owned else [])
        ≡ send && owns_it topic_ids id p owned
  unfolding lookup contains
  sent_lem true owned = claims-claims_of [] owned
  sent_lem false owned = refl

  -- A member at the join epoch sends its subscription and its rebalance timeout and claims no
  -- partition, whatever it owns. Another one sends neither, and claims a partition of a topic id
  -- exactly if an acknowledgement is owed and it owns that partition of a topic with that id, the
  -- all-zero id excepted. The field of the claims is never left out.
  pub build_lem :
      (m : Membership)
      → let request = build topic_ids m in
        let joining = eq_ℤ m.member_epoch epoch_join in
        (request.subscribed_topic_names ≡ (if joining then some m.subscription else none))
        × (request.rebalance_timeout_ms ≡ (if joining then some m.rebalance_timeout_ms else none))
        × ((by_topic : Claims) × (request.topic_partitions ≡ some by_topic)
            × (claims id p by_topic
                ≡ (m.ack_owed && not joining) && owns_it topic_ids id p m.owned))
  unfolding build
  build_lem m =
      let owed = m.ack_owed && not (eq_ℤ m.member_epoch epoch_join) in
      (
        refl,
        refl,
        ((if owed then claims_of topic_ids [] m.owned else []), refl, sent_lem owed m.owned),
      )
