-- ===== src/Consume/GroupConsumer/Agreement.antt =====
-- A group consumer over any polls: what it fetches is what its member owns, and what it loses was
-- told before.
use kaas_lib.Prelude.{
  ◌≡◌, refl, sym, ap, ◌∙◌, subst, inl, inr, Bool, true, false, ◌&&◌, ◌||◌, if_cases, Bool-cases,
  is_empty, none, some, List, [], String, arith,
}
use kaas_lib.Prelude.Int.{ℤ}
use kaas_lib.Prelude.Map.{lookup, contains}
use kaas_lib.Prelude.Text.{TopicPartition}
use kaas_lib.Conn.Errors.{Error}
use kaas_lib.Meta.Retry.Reask.{Result, ok, err}
use kaas_lib.Read.Record.{Record}
use kaas_lib.Read.Batch.{DecodeOptions, Decoder}
use kaas_lib.Consume.Group.{Membership, beat_due, has_joined}
use kaas_lib.Consume.Group.Reconcile.{Reconciliation, owns}
use kaas_lib.Consume.Group.Beat.{beat}
use kaas_lib.Consume.Consumer.{
  Assigned, Consumer, Fetched, RevokedPartition, revoked_positions, fetch_once, absorb_all,
}
use kaas_lib.Consume.Consumer
use kaas_lib.Consume.Task.{
  Event, asked, Outcome, returned, dropped, after, ◌>>=◌, ◌>>◌, change, call, Post, then-Ends,
  when-Ends, call-Ends,
}
use kaas_lib.Consume.Rebalance.{Pending}
use kaas_lib.Consume.Rebalance.Lost.{
  fetches, LostTold-trans, LostTold-any, fetches-fetch_once, fetches-poll,
}
use kaas_lib.Consume.Rebalance.Told.{told, names-revoked_positions, is_empty-revoked_positions}
use kaas_lib.Consume.GroupConsumer.{
  GroupConsumer, World, settle, act_on, heartbeat, beat_if_due, fetch, poll, subscribe,
  with_instance_id, with_auto_commit, with_rebalance_listener,
}
use kaas_lib.Consume.GroupConsumer.Laws.{
  Inv, Told, listens, inside, Covered, EndsPoll, Agrees, Settled,
}
use kaas_lib.Consume.GroupConsumer.Beaten.{KeepsMember, Beaten, beat-Beaten}
use kaas_lib.Consume.GroupConsumer.Settle.{settle-Ends}

none_pending :
    (k : TopicPartition) (g : GroupConsumer)
    → Inv g
    → g.pending ≡ none
    → fetches k g.inner ≡ owns k g.membership.owned
none_pending k g inv e =
    subst (λ q. Covered k q (fetches k g.inner) (owns k g.membership.owned)) e (inv k)

module _ (w : World) (keeps : KeepsMember w.coordinator) where
  -- A heartbeat's answer: nothing moves without the caller having been told.
  acted-Ends :
      (g : GroupConsumer) (answer : Result Error Reconciliation) (m : Membership)
      → Inv g
      → g.pending ≡ none
      → Beaten g.membership (answer, m)
      → EndsPoll Settled g (act_on w answer (record g { membership = m }))
  unfolding act_on
  acted-Ends g (err e) m inv none_left h = (
    (refl, λ k. ground arith),
    λ k.
        subst (λ q. Covered k q (fetches k g.inner) (owns k m.owned)) (sym none_left)
          (none_pending k g inv none_left ∙ ap (owns k) (sym h)),
    tt,
  )
  acted-Ends g (ok r) m inv none_left h = elim (Bool-cases r.changed) [
    | inl moved ↦
        let p : Pending = record {
          revoked = revoked_positions g.inner r.revoked;
          gained = r.gained;
        } in
        let g' : GroupConsumer = record g { membership = m; pending = some p } in
        let noted : Inv g' = λ k. (
          ground (
            arith,
            (h.1 k).0,
            none_pending k g inv none_left,
            names-revoked_positions k g.inner r.revoked,
          ),
          ground (arith, h.0, moved, is_empty-revoked_positions g.inner r.revoked),
        ) in
        rw moved (settle-Ends w w.drops_after g' noted)
    | inr same ↦ rw same (
      (refl, λ k. ground arith),
      λ k.
          subst (λ q. Covered k q (fetches k g.inner) (owns k m.owned)) (sym none_left)
            (none_pending k g inv none_left ∙ (h.1 k).1 same),
      none_left,
    )
  ]

  beat_if_due-Ends :
      (g : GroupConsumer) → Inv g → g.pending ≡ none → EndsPoll Settled g (beat_if_due w g)
  unfolding beat_if_due heartbeat
  beat_if_due-Ends g inv none_left =
      when-Ends Inv Told (LostTold-any listens inside) Settled (beat_due w.now g.membership)
        (call w.drops_beat asked >> (heartbeat w >>= act_on w)) g inv (λ _. none_left)
        (λ _.
          then-Ends Inv Told (LostTold-trans listens inside) Settled Settled
            (call w.drops_beat asked) (λ _. heartbeat w >>= act_on w) g
            (call-Ends Inv Told (LostTold-any listens inside) Settled w.drops_beat asked g inv
              none_left)
            (λ _ t inv' none_left'.
              let r = beat w.coordinator w.fresh w.now w.topic_ids t.membership in
              acted-Ends t r.0 r.1 inv' none_left'
                (beat-Beaten w.coordinator keeps w.fresh w.topic_ids w.now t.membership)))

  module _ (d : Decoder) (options : DecodeOptions) where
    swapped-Ends :
        (o : Outcome (List Record)) (g : GroupConsumer) (c : Consumer)
        → Inv g
        → g.pending ≡ none
        → ((k : TopicPartition) → fetches k c ≡ fetches k g.inner)
        → EndsPoll (λ _. Agrees) g (o, [], record g { inner = c })
    swapped-Ends o g c inv none_left same = (
      (refl, λ k. ground (arith, same k)),
      λ k. subst (λ f. Covered k g.pending f (owns k g.membership.owned)) (sym (same k)) (inv k),
      agreed o,
    )
      where
        agreed :
            (o : Outcome (List Record))
            → Post Inv Told (λ (_ : List Record). Agrees) o (record g { inner = c })
        agreed (returned (ok _)) = λ k. same k ∙ none_pending k g inv none_left
        agreed (returned (err _)) = tt
        agreed dropped = tt

    fetch-Ends :
        (g : GroupConsumer)
        → Inv g
        → g.pending ≡ none
        → EndsPoll (λ _. Agrees) g (fetch d options w g)
    unfolding fetch
    fetch-Ends g inv none_left =
        let r = Consumer.poll d options w.fetches g.inner in
        if_cases {A = Outcome (List Record) × List Event × GroupConsumer}
          (EndsPoll (λ (_ : List Record). Agrees) g) (w.drops_fetch && is_empty g.inner.buffered)
          (λ _.
            swapped-Ends dropped g (fetch_once d options w.fetches g.inner).1 inv none_left
              (λ k. fetches-fetch_once d options k w.fetches g.inner))
          (λ _.
            swapped-Ends (returned r.0) g r.1 inv none_left
              (λ k. fetches-poll d options k w.fetches g.inner))

    poll-Ends : (g : GroupConsumer) → Inv g → EndsPoll (λ _. Agrees) g (poll d options w g)
    unfolding poll
    poll-Ends g inv =
        let latch = λ (s : GroupConsumer). record s {
          ever_joined = s.ever_joined || has_joined s.membership;
        } in
        then-Ends Inv Told (LostTold-trans listens inside) Settled (λ _. Agrees)
          (change latch >> settle w w.drops_before >> beat_if_due w) (λ _. fetch d options w) g
          (then-Ends Inv Told (LostTold-trans listens inside) Settled Settled
            (change latch >> settle w w.drops_before) (λ _. beat_if_due w) g
            (settle-Ends w w.drops_before (latch g) inv)
            (λ _ t inv' none_left. beat_if_due-Ends t inv' none_left))
          (λ _ t inv' none_left. fetch-Ends t inv' none_left)

-- The states that a group consumer reaches by polls, whichever of them fail or are dropped, as long as
-- the coordinator never answers that the membership is gone.
pub data Reached (d : Decoder) (options : DecodeOptions) : GroupConsumer → Type 0 where
  subscribed :
      (group_id : String) (topics : List String) (timeout : ℤ) (fresh : String)
      → Reached d options (subscribe group_id topics timeout fresh)
  configured :
      (id : String) (g : GroupConsumer)
      → Reached d options g
      → Reached d options (with_instance_id id g)
  committing :
      (enabled : Bool) (g : GroupConsumer)
      → Reached d options g
      → Reached d options (with_auto_commit enabled g)
  listening :
      (g : GroupConsumer) → Reached d options g → Reached d options (with_rebalance_listener g)
  polled :
      (w : World)
      → KeepsMember w.coordinator
      → (g : GroupConsumer) → Reached d options g
      → Reached d options (poll d options w g).2

Reached-Inv :
    {d : Decoder} {options : DecodeOptions} {g : GroupConsumer} → Reached d options g → Inv g
unfolding subscribe with_instance_id with_auto_commit with_rebalance_listener contains lookup
Reached-Inv (subscribed _ _ _ _) = λ k. refl
Reached-Inv (configured _ g r) = Reached-Inv r
Reached-Inv (committing _ g r) = Reached-Inv r
Reached-Inv (listening g r) = Reached-Inv r
Reached-Inv {d} {options} (polled w keeps g r) = (poll-Ends w keeps d options g (Reached-Inv r)).1

-- What a poll that returns records says of the state that it leaves.
abbrev pub OnSuccess : Outcome (List Record) → Type 0 → Type 0
OnSuccess (returned (ok _)) P = P
OnSuccess (returned (err _)) P = Unit
OnSuccess dropped P = Unit

module _ (d : Decoder) (options : DecodeOptions) (g : GroupConsumer) (reached : Reached d options g)
    (w : World) (keeps : KeepsMember w.coordinator) where
  -- After any polls of a subscribed consumer, whichever of them failed or were dropped while they
  -- waited, where the coordinator answers in none of them, nor in this one, that the membership is gone:
  -- a poll that returns records leaves exactly the partitions assigned that the member owns.
  pub poll-Agrees : let (outcome, events, g') = poll d options w g in OnSuccess outcome (Agrees g')
  poll-Agrees =
      on_success (poll d options w g).0 (poll-Ends w keeps d options g (Reached-Inv reached)).2
    where
      on_success :
          (o : Outcome (List Record))
          → Post Inv Told (λ (_ : List Record). Agrees) o (poll d options w g).2
          → OnSuccess o (Agrees (poll d options w g).2)
      on_success (returned (ok _)) h = h
      on_success (returned (err _)) h = tt
      on_success dropped h = tt

  -- Where the coordinator answers neither in a poll nor in any poll before it that the membership is gone:
  -- a partition that is assigned before the poll and not after it was told to the listener, if there is
  -- one, in that poll, as one to be revoked; so whether the poll returns records, fails, or is dropped
  -- where it waits, and whatever the polls before it did.
  pub poll-Told :
      (k : TopicPartition)
      → let (outcome, events, g') = poll d options w g in
        g.listener ≡ true
        → fetches k g.inner ≡ true
        → fetches k g'.inner ≡ false
        → told k events ≡ true
  poll-Told k listens before after =
      ground
        (arith, (poll-Ends w keeps d options g (Reached-Inv reached)).0.1 k, listens, before, after)
