-- ===== src/Consume/ClassicConsumer/Join.antt =====
-- The join of a classic consumer in a group that stays cooperative.
use kaas_lib.Prelude.{
  ℕ, Bool, ◌≡◌, refl, sym, ap, ◌∙◌, subst, true, not, ◌||◌, Option, none, some, List, [], String,
  arith,
}
use kaas_lib.Prelude.Text.{String-discrete, TopicPartition}
use kaas_lib.Conn.Errors.{Error, code_of}
use kaas_lib.Conn.ErrorCode.{
  ErrorCode, member_id_required, rebalance_in_progress, unknown_member_id, illegal_generation,
}
use kaas_lib.Meta.Retry.Reask.{Result, ok, err}
use kaas_lib.Consume.Group.Reconcile.{owns}
use kaas_lib.Consume.Assign.{MemberSubscription}
use kaas_lib.Consume.Classic.Wire.{Codec}
use kaas_lib.Consume.Classic.Messages.{Coordinator, JoinRequest, JoinResponse}
use kaas_lib.Consume.Classic.Member.{
  ClassicMembership, names_cooperative, is_cooperative, granted, admitted, joined, join_answer,
  send_join, join_request, join_group, sync_request, sync_group, forget,
}
use kaas_lib.Consume.Consumer.{Consumer, assigned_keys}
use kaas_lib.Consume.Task.{
  asked, ◌>>=◌, done, call, weaken-Ends, then-Ends, call-Ends, when, when-Ends,
}
use kaas_lib.Consume.Rebalance.Told.{names}
use kaas_lib.Consume.Rebalance.Lost.{fetches, owns-assigned_keys, LostTold-trans, LostTold-any}
use kaas_lib.Consume.ClassicConsumer.{
  ClassicConsumer, Round, is_sent, answer, partition_counts, count_topics, follow, evicted,
  rejected, conclude, then_sync, joining, join_round,
}
use kaas_lib.Consume.ClassicConsumer.Moves.{
  listens, inside, Told, Inv, EndsPoll, Anything, follow-Ends, evicted-Ends,
}

-- Every join that the coordinator answers without an error code names the cooperative protocol, as it must
-- where the members offer no other. An answer with an error code names what it likes.
abbrev pub NamesCooperative : Coordinator → Type 0
NamesCooperative c =
    (q : JoinRequest) (r : JoinResponse)
    → c.join q ≡ ok r
    → c.read_code r.error_code ≡ none
    → r.protocol_name ≡ some "cooperative-sticky"

-- A membership stays cooperative, and is so after a join that succeeded.
abbrev JoinKept :
    ClassicMembership → Result Error (List MemberSubscription) × ClassicMembership → Type 0
JoinKept m (err e, m') = (not (is_cooperative m) || is_cooperative m') ≡ true
JoinKept m (ok _, m') = is_cooperative m' ≡ true

sticky_lem : names_cooperative "cooperative-sticky" ≡ true
unfolding String-discrete
sticky_lem = refl

module _ (codec : Codec) (c : Coordinator) where
  granted_lem :
      (code : ErrorCode) (r : JoinResponse) (m : ClassicMembership)
      → is_cooperative (granted codec c code r m) ≡ is_cooperative m
  granted_lem member_id_required r m = refl
  granted_lem _ r m = refl

  cooperative-JoinKept :
      (r : Result Error (List MemberSubscription)) (m m' : ClassicMembership)
      → is_cooperative m' ≡ true
      → JoinKept m (r, m')
  cooperative-JoinKept (err e) m m' h = ground (arith, h)
  cooperative-JoinKept (ok _) m m' h = h

  joined-JoinKept :
      (code : Option ErrorCode) (r : JoinResponse) (m : ClassicMembership)
      → (code ≡ none → r.protocol_name ≡ some "cooperative-sticky")
      → JoinKept m (joined codec c code r m)
  joined-JoinKept (some code) r m h = ground (arith, granted_lem code r m)
  joined-JoinKept none r m h =
      cooperative-JoinKept (joined codec c none r m).0 m (admitted codec c r m)
        (rw (h refl) sticky_lem)

  join_answer-JoinKept :
      (q : JoinRequest) (a : Result Error JoinResponse) (m : ClassicMembership)
      → NamesCooperative c
      → c.join q ≡ a
      → JoinKept m (join_answer codec c a m)
  join_answer-JoinKept q (err e) m names h = ground arith
  join_answer-JoinKept q (ok r) m names h =
      joined-JoinKept (c.read_code r.error_code) r m (names q r h)

  send_join-JoinKept :
      (q : Result Error JoinRequest) (m : ClassicMembership)
      → NamesCooperative c
      → JoinKept m (send_join codec c q m)
  send_join-JoinKept (err e) m names = ground arith
  send_join-JoinKept (ok q) m names = join_answer-JoinKept q (c.join q) m names refl

  join_group-JoinKept :
      (held : List TopicPartition) (m : ClassicMembership)
      → NamesCooperative c
      → JoinKept m (join_group codec c held m)
  unfolding join_group
  join_group-JoinKept held m names = send_join-JoinKept (join_request codec held m) m names

-- What a part of a join answers, with the consumer inside as it was: if all went well, the member is
-- in a cooperative group.
abbrev Entered : {A : Type 0} → Consumer → Result Error A → ClassicConsumer → Type 0
Entered c (err e) t = t.inner ≡ c
Entered c (ok _) t = (t.inner ≡ c) × (is_cooperative t.membership ≡ true)

module _ (codec : Codec) (w : Round) where
  Entered-Ends :
      (g : ClassicConsumer) (r : Result Error (List MemberSubscription) × ClassicMembership)
      → Inv g
      → JoinKept g.membership r
      → EndsPoll (Entered g.inner) g (done r.0 (record g { membership = r.1 }))
  Entered-Ends g (err e, m) inv kept =
      ((refl, λ k. ground arith), λ k. ground (arith, inv k, kept), refl)
  Entered-Ends g (ok members, m) inv kept =
      ((refl, λ k. ground arith), λ k. ground (arith, kept), (refl, kept))

  joining-Ends :
      (held : List TopicPartition) (g : ClassicConsumer)
      → NamesCooperative w.coordinator
      → Inv g
      → EndsPoll (Entered g.inner) g (joining codec w held g)
  joining-Ends held g names inv =
      Entered-Ends g (join_group codec w.coordinator held g.membership) inv
        (join_group-JoinKept codec w.coordinator held g.membership names)

  answered-Entered :
      (c : Consumer) (r : Result Error (List TopicPartition)) (t : ClassicConsumer)
      → t.inner ≡ c
      → is_cooperative t.membership ≡ true
      → Entered c r t
  answered-Entered c (err e) t same coop = same
  answered-Entered c (ok _) t same coop = (same, coop)

  -- A request is sent or it is not.
  sent-Ends :
      (Q : Unit → ClassicConsumer → Type 0) (b drops : Bool) (g : ClassicConsumer)
      → Inv g
      → Q tt g
      → EndsPoll Q g (when b (call drops asked) g)
  sent-Ends Q b drops g inv q =
      let any = LostTold-any listens inside in
      when-Ends Inv Told any Q b (call drops asked) g inv (λ _. q)
        (λ _. call-Ends Inv Told any Q drops asked g inv q)

  then_sync-Ends :
      (sizes : List (String × ℕ)) (c : Consumer) (r : Result Error (List MemberSubscription))
      (t : ClassicConsumer)
      → Inv t
      → Entered c r t
      → EndsPoll (Entered c) t (then_sync codec w sizes r t)
  then_sync-Ends sizes c (err e) t inv same = ((refl, λ k. ground arith), inv, same)
  then_sync-Ends sizes c (ok members) t inv entered =
      let still = λ (_ : Unit {0}) (u : ClassicConsumer).
        (u.inner ≡ c) × (is_cooperative u.membership ≡ true) in
      then-Ends Inv Told (LostTold-trans listens inside) still (Entered c)
        (λ g.
          when (is_sent (sync_request codec g.membership members sizes)) (call w.drops_sync asked)
            g)
        (λ _ g. done (sync_group codec w.coordinator g.membership members sizes) g) t
        (sent-Ends still (is_sent (sync_request codec t.membership members sizes)) w.drops_sync t
          inv entered)
        (λ _ u inv' h. (
          LostTold-any listens inside u [],
          inv',
          answered-Entered c (sync_group codec w.coordinator u.membership members sizes) u h.0 h.1,
        ))

  rejected-Ends :
      (e : Error) (code : Option ErrorCode) (t : ClassicConsumer)
      → Inv t
      → EndsPoll Anything t (rejected w e code t)
  rejected-Ends e (some member_id_required) t inv = (LostTold-any listens inside t [], inv, tt)
  rejected-Ends e (some unknown_member_id) t inv =
      weaken-Ends Inv Told (λ (_ : Unit {0}) u. u.membership ≡ forget t.membership) Anything t
        (evicted w t) (λ _ _ _. tt) (evicted-Ends w t inv)
  rejected-Ends e (some illegal_generation) t inv =
      weaken-Ends Inv Told (λ (_ : Unit {0}) u. u.membership ≡ forget t.membership) Anything t
        (evicted w t) (λ _ _ _. tt) (evicted-Ends w t inv)
  rejected-Ends e (some rebalance_in_progress) t inv = (LostTold-any listens inside t [], inv, tt)
  rejected-Ends e _ t inv = (LostTold-any listens inside t [], inv, tt)

  conclude-Ends :
      (held : List TopicPartition) (c : Consumer) (r : Result Error (List TopicPartition))
      (t : ClassicConsumer)
      → ((k : TopicPartition) → fetches k c ≡ owns k held)
      → Inv t
      → Entered c r t
      → EndsPoll Anything t (conclude w held r t)
  conclude-Ends held c (err e) t matches inv same = rejected-Ends e (code_of e) t inv
  conclude-Ends held c (ok assigned) t matches inv (same, coop) =
      subst (λ b. EndsPoll (Anything {A = Unit {0}}) t (follow w b held assigned t)) (sym coop)
        (follow-Ends w t held assigned inv coop (λ k. ap (fetches k) same ∙ matches k))

  partition_counts-Ends : (g : ClassicConsumer) → Inv g → EndsPoll Anything g (partition_counts w g)
  unfolding partition_counts
  partition_counts-Ends g inv =
      then-Ends Inv Told (LostTold-trans listens inside) Anything Anything
        (call w.drops_counts asked)
        (λ _. answer w.snapshot >>= λ s g. done (count_topics s g.subscription []) g) g
        (call-Ends Inv Told (LostTold-any listens inside) Anything w.drops_counts asked g inv tt)
        (λ _ t inv' _. counted_all w.snapshot t inv')
    where
      counted_all :
          (r : Result Error _) (t : ClassicConsumer)
          → Inv t
          → EndsPoll Anything t ((answer r >>= λ s g. done (count_topics s g.subscription []) g) t)
      counted_all (err e) t inv' = (LostTold-any listens inside t [], inv', tt)
      counted_all (ok s) t inv' = (LostTold-any listens inside t [], inv', tt)

  pub join_round-Ends :
      (g : ClassicConsumer)
      → NamesCooperative w.coordinator
      → Inv g
      → EndsPoll Anything g (join_round codec w g)
  unfolding join_round
  join_round-Ends g names inv =
      let trans = LostTold-trans listens inside in
      then-Ends Inv Told trans Anything Anything (partition_counts w) _ g
        (partition_counts-Ends g inv)
        (λ sizes t inv' _.
          let held = assigned_keys t.inner in
          let inner_same = λ (_ : Unit {0}) (u : ClassicConsumer). u.inner ≡ t.inner in
          then-Ends Inv Told trans inner_same Anything
            (when (is_sent (join_request codec held t.membership)) (call w.drops_join asked))
            (λ _. joining codec w held >>= λ members.
              then_sync codec w sizes members >>= conclude w held)
            t
            (sent-Ends inner_same (is_sent (join_request codec held t.membership)) w.drops_join t
              inv' refl)
            (λ _ u inv'' same.
              then-Ends Inv Told trans (Entered u.inner) Anything (joining codec w held)
                (λ members. then_sync codec w sizes members >>= conclude w held) u
                (joining-Ends held u names inv'')
                (λ members v inv3 entered.
                  then-Ends Inv Told trans (Entered u.inner) Anything
                    (then_sync codec w sizes members) (conclude w held) v
                    (then_sync-Ends sizes u.inner members v inv3 entered)
                    (λ r x inv4 entered'.
                      conclude-Ends held u.inner r x
                        (λ k. ap (fetches k) same ∙ sym (owns-assigned_keys k t.inner)) inv4
                        entered'))))
