-- ===== src/Consume/ClassicConsumer/Moves.antt =====
-- How a classic consumer's assignment moves in a join that succeeded, and on eviction.
use kaas_lib.Prelude.{
  ◌≡◌, refl, ap, ◌∙◌, Bool, true, not, ◌&&◌, ◌||◌, if_cases, is_empty, List, [], ◌∷◌, arith,
}
use kaas_lib.Prelude.Map.{contains, contains-filter}
use kaas_lib.Prelude.Text.{TopicPartition, TopicPartition-discrete}
use kaas_lib.Meta.Retry.Reask.{ok, err}
use kaas_lib.Consume.Group.Reconcile.{owns}
use kaas_lib.Consume.Consumer.{Consumer, assigned_keys}
use kaas_lib.Consume.Consumer.Reassign.{retain, reassign, reassign-IsReassigned, asked_for}
use kaas_lib.Consume.Classic.Member.{is_cooperative, forget}
use kaas_lib.Consume.Task.{
  Event, on_assign, Outcome, returned, dropped, Task, after, ◌>>◌, change, call, when, Post, Ends,
  weaken-Ends, then-Ends, when-Ends, call-Ends,
}
use kaas_lib.Consume.Rebalance.{Await, at_lookup, at_assign, assign}
use kaas_lib.Consume.Rebalance.Told.{told, told-append}
use kaas_lib.Consume.Rebalance.Lost.{
  fetches, owns-assigned_keys, Keeps, reassigned-Keeps, retained-Keeps, LostTold, LostTold-trans,
  LostTold-any,
}
use kaas_lib.Consume.ClassicConsumer.{
  ClassicConsumer, Round, starts_in, take_over, announce, without, follow, evicted,
}
use kaas_lib.Consume.ClassicConsumer.Announce.{Same, Announced, announce-Announced}

abbrev pub listens : ClassicConsumer → Bool
listens g = g.listener

abbrev pub inside : ClassicConsumer → Consumer
inside g = g.inner

abbrev pub Told : ClassicConsumer → List Event → ClassicConsumer → Type 0
Told = LostTold listens inside

-- A member that has partitions is in a cooperative group.
abbrev pub Inv : ClassicConsumer → Type 0
Inv g = (k : TopicPartition) → (not (fetches k g.inner) || is_cooperative g.membership) ≡ true

abbrev pub EndsPoll :
    {A : Type 0}
    → (A → ClassicConsumer → Type 0)
    → ClassicConsumer
    → Outcome A × List Event × ClassicConsumer
    → Type 0
EndsPoll = Ends Inv Told

abbrev pub Anything : {A : Type 0} → A → ClassicConsumer → Type 0
Anything a g = Unit

-- A partition that is no longer assigned is one of some, or was told to the listener on the way.
abbrev Loses : (TopicPartition → Bool) → ClassicConsumer → List Event → ClassicConsumer → Type 0
Loses all s es t =
    (t.listener ≡ s.listener)
    × ((k : TopicPartition)
        → (not s.listener || not (fetches k s.inner) || fetches k t.inner || all k || told k es)
          ≡ true)

Same-fetches :
    (k : TopicPartition) (g t : ClassicConsumer) → Same g t → fetches k t.inner ≡ fetches k g.inner
Same-fetches k g t same = ap (fetches k) same.0

Same-cooperative :
    (g t : ClassicConsumer) → Same g t → is_cooperative t.membership ≡ is_cooperative g.membership
Same-cooperative g t same = ap is_cooperative same.1

pub Same-Told : (g t : ClassicConsumer) (es : List Event) → Same g t → Told g es t
Same-Told g t es same = (same.2, λ k. ground (arith, Same-fetches k g t same))

pub Same-Inv : (g t : ClassicConsumer) → Same g t → Inv g → Inv t
Same-Inv g t same inv k = ground (arith, Same-fetches k g t same, Same-cooperative g t same, inv k)

pub Announced-Ends :
    (g : ClassicConsumer) (all : TopicPartition → Bool)
    (r : Outcome Unit × List Event × ClassicConsumer)
    → Announced g all r
    → Inv g
    → EndsPoll (λ _. Same g) g r
Announced-Ends g all (returned (ok _), es, t) (same, h) inv =
    (Same-Told g t es same, Same-Inv g t same inv, same)
Announced-Ends g all (returned (err _), es, t) h inv = absurd h
Announced-Ends g all (dropped, es, t) same inv = (Same-Told g t es same, Same-Inv g t same inv, tt)

-- What may be lost after it was announced.
told-then :
    {B : Type 0} (P : B → ClassicConsumer → Type 0) (g : ClassicConsumer)
    (all : TopicPartition → Bool) (rest : Task ClassicConsumer B)
    (r : Outcome Unit × List Event × ClassicConsumer)
    → Announced g all r
    → Inv g
    → ((t : ClassicConsumer) → Same g t → Ends Inv (Loses all) P t (rest t))
    → EndsPoll P g (after (λ _. rest) r)
told-then P g all rest (returned (err _), es, t) h inv next = absurd h
told-then P g all rest (dropped, es, t) same inv next =
    (Same-Told g t es same, Same-Inv g t same inv, tt)
told-then P g all rest (returned (ok _), es, t) (same, h) inv next =
    let moved = next t same in
    (
      (
        moved.0.0 ∙ same.2,
        λ k.
            ground (
              arith,
              h k,
              moved.0.1 k,
              Same-fetches k g t same,
              same.2,
              told-append k es (rest t).1,
            ),
      ),
      moved.1,
      moved.2,
    )

when-Announced :
    (drops : Await → Bool) (g : ClassicConsumer) (keys : List TopicPartition)
    → Announced g (λ k. owns k keys) (when (not (is_empty keys)) (announce drops keys) g)
unfolding contains
when-Announced drops g [] = ((refl, refl, refl, refl), λ k. ground arith)
when-Announced drops g (key ∷ keys) = announce-Announced drops g (key ∷ keys)

module _ (w : Round) (assigned : List TopicPartition) (all : TopicPartition → Bool) where
  taken-Ends :
      (o : Outcome Unit) (g : ClassicConsumer) (c : Consumer)
      → ((k : TopicPartition) → (not (owns k assigned) || is_cooperative g.membership) ≡ true)
      → ((k : TopicPartition) → (not (fetches k g.inner) || owns k assigned || all k) ≡ true)
      → Keeps assigned g.inner c
      → Ends Inv (Loses all) (λ _ t. t.membership ≡ g.membership) g (o, [], record g { inner = c })
  taken-Ends o g c member covered keeps = (
    (refl, λ k. ground (arith, covered k, (keeps k).0)),
    λ k. ground (arith, member k, (keeps k).1),
    unchanged o,
  )
    where
      unchanged :
          (o : Outcome Unit)
          → Post Inv
              (Loses all)
              (λ (_ : Unit {0}) t. t.membership ≡ g.membership)
              o
              (record g { inner = c })
      unchanged (returned (ok _)) = refl
      unchanged (returned (err _)) = tt
      unchanged dropped = tt

  take_over-Ends :
      (g : ClassicConsumer)
      → ((k : TopicPartition) → (not (owns k assigned) || is_cooperative g.membership) ≡ true)
      → ((k : TopicPartition) → (not (fetches k g.inner) || owns k assigned || all k) ≡ true)
      → Ends Inv (Loses all) (λ _ t. t.membership ≡ g.membership) g (take_over w assigned g)
  unfolding take_over
  take_over-Ends g member covered =
      let r = reassign (starts_in w) assigned g.inner in
      if_cases {A = Outcome Unit × List Event × ClassicConsumer}
        (Ends Inv (Loses all) (λ (_ : Unit {0}) t. t.membership ≡ g.membership) g)
        (w.drops at_lookup && not (is_empty (asked_for assigned g.inner)))
        (λ _.
          taken-Ends dropped g (record g.inner { assignment = retain assigned g.inner.assignment })
            member covered (retained-Keeps assigned g.inner))
        (λ _. taken-Ends (returned r.0) g r.1 member covered (
          reassigned-Keeps (starts_in w) assigned g.inner r
            (reassign-IsReassigned (starts_in w) assigned g.inner)))

module _ (w : Round) where
  owns-without :
      (k : TopicPartition) (held assigned : List TopicPartition)
      → owns k (without held assigned) ≡ owns k held && not (owns k assigned)
  owns-without k held assigned =
      contains-filter TopicPartition-discrete k (λ key. not (owns key assigned)) held

  -- A join that a cooperative member made: what it loses it is told of first.
  pub follow-Ends :
      (g : ClassicConsumer) (held assigned : List TopicPartition)
      → Inv g
      → is_cooperative g.membership ≡ true
      → ((k : TopicPartition) → fetches k g.inner ≡ owns k held)
      → EndsPoll Anything g (follow w true held assigned g)
  unfolding follow
  follow-Ends g held assigned inv coop matches =
      let lost = without held assigned in
      let gained = without assigned held in
      let trans = LostTold-trans listens inside in
      let any = LostTold-any listens inside in
      let stays = λ (_ : Unit {0}) (t : ClassicConsumer). t.membership ≡ g.membership in
      then-Ends Inv Told trans Anything Anything
        (when (not (is_empty lost)) (announce w.drops lost)
          >> take_over w assigned
          >> change (λ g. record g { rejoin = true && not (is_empty lost) }))
        (λ _ g. when (not (is_empty gained)) (assign g.listener w.drops gained) g) g
        (then-Ends Inv Told trans stays Anything
          (when (not (is_empty lost)) (announce w.drops lost) >> take_over w assigned)
          (λ _. change (λ g. record g { rejoin = true && not (is_empty lost) })) g
          (told-then stays g (λ k. owns k lost) (take_over w assigned)
            (when (not (is_empty lost)) (announce w.drops lost) g) (when-Announced w.drops g lost)
            inv
            (λ t same.
              weaken-Ends Inv (Loses (λ k. owns k lost))
                (λ (_ : Unit {0}) u. u.membership ≡ t.membership) stays t (take_over w assigned t)
                (λ _ u e. e ∙ same.1)
                (take_over-Ends w assigned (λ k. owns k lost) t
                  (λ k. ground (arith, Same-cooperative g t same, coop))
                  (λ k.
                    ground
                      (arith, Same-fetches k g t same, matches k, owns-without k held assigned)))))
          (λ _ t inv' e. ((refl, λ k. ground arith), inv', tt)))
        (λ _ t inv' _.
          when-Ends Inv Told any Anything (not (is_empty gained)) (assign t.listener w.drops gained)
            t inv' (λ _. tt)
            (λ _.
              when-Ends Inv Told any Anything t.listener
                (call (w.drops at_assign) (on_assign gained)) t inv' (λ _. tt)
                (λ _.
                  call-Ends Inv Told any Anything (w.drops at_assign) (on_assign gained) t inv'
                    tt)))

  -- An evicted member lets go of all that it held, and was told of it.
  pub evicted-Ends :
      (g : ClassicConsumer)
      → Inv g
      → EndsPoll (λ _ t. t.membership ≡ forget g.membership) g (evicted w g)
  unfolding evicted forget contains
  evicted-Ends g inv =
      let g' : ClassicConsumer = record g { membership = forget g.membership } in
      let held = assigned_keys g.inner in
      let forgets = λ (_ : Unit {0}) (t : ClassicConsumer). t.membership ≡ forget g.membership in
      told-then forgets g' (λ k. owns k held) (take_over w [])
        (when (not (is_empty held)) (announce w.drops held) g') (when-Announced w.drops g' held) inv
        (λ t same.
          weaken-Ends Inv (Loses (λ k. owns k held))
            (λ (_ : Unit {0}) u. u.membership ≡ t.membership) forgets t (take_over w [] t)
            (λ _ u e. e ∙ same.1)
            (take_over-Ends w [] (λ k. owns k held) t (λ k. refl)
              (λ k. ground (arith, Same-fetches k g' t same, owns-assigned_keys k g.inner))))
