-- ===== src/Consume/GroupConsumer/Laws.antt =====
-- How a settling and a poll move the assignment: what is lost was told before, and what the caller
-- was promised is what the member owns.
use kaas_lib.Prelude.{
  ◌≡◌, refl, sym, ap, ◌∙◌, subst, Bool, true, false, not, ◌&&◌, ◌||◌, if_cases, is_empty, Option,
  none, some, List, [], ◌++◌, arith,
}
use kaas_lib.Prelude.Int.{pos}
use kaas_lib.Prelude.Map.{lookup}
use kaas_lib.Prelude.Text.{TopicPartition, TopicPartition-discrete}
use kaas_lib.Conn.Errors.{Error}
use kaas_lib.Meta.Retry.Reask.{Result, ok, err}
use kaas_lib.Consume.Group.Reconcile.{owns}
use kaas_lib.Consume.Consumer.{Consumer}
use kaas_lib.Consume.Consumer.Reassign.{
  is_known, retain, lookup-retain, reassign, IsReassigned, reassign-IsReassigned, asked_for,
}
use kaas_lib.Consume.Task.{Event, Outcome, returned, dropped, Post, Ends}
use kaas_lib.Consume.Rebalance.{Pending, nothing_pending, Await, at_lookup}
use kaas_lib.Consume.Rebalance.Lost.{fetches, LostTold, fetches-entry_after, known-if}
use kaas_lib.Consume.Rebalance.Told.{names}
use kaas_lib.Consume.GroupConsumer.{GroupConsumer, World, starts_in, lift, take_over}

abbrev dec : Discrete TopicPartition
dec = TopicPartition-discrete

-- What is assigned belongs to the member, or is about to be revoked; with nothing pending exactly
-- what the member owns is assigned.
abbrev pub Covered : TopicPartition → Option Pending → Bool → Bool → Type 0
Covered k none fetched owned = fetched ≡ owned
Covered k (some p) fetched owned =
    ((not fetched || owned || names k p.revoked) ≡ true) × (nothing_pending p ≡ false)

abbrev pub Inv : GroupConsumer → Type 0
Inv g = (k : TopicPartition) → Covered k g.pending (fetches k g.inner) (owns k g.membership.owned)

abbrev pub listens : GroupConsumer → Bool
listens g = g.listener

abbrev pub inside : GroupConsumer → Consumer
inside g = g.inner

abbrev pub Told : GroupConsumer → List Event → GroupConsumer → Type 0
Told = LostTold listens inside

-- What the member owns stays assigned.
abbrev pub Stays : GroupConsumer → List Event → GroupConsumer → Type 0
Stays g es g' =
    (g'.listener ≡ g.listener)
    × (g'.membership ≡ g.membership)
    × ((k : TopicPartition)
        → (not (fetches k g.inner) || not (owns k g.membership.owned) || fetches k g'.inner) ≡ true)

pub Stays-trans :
    (g h i : GroupConsumer) (es fs : List Event)
    → Stays g es h
    → Stays h fs i
    → Stays g (es ++ fs) i
Stays-trans g h i es fs (l, o, p) (m, n, q) = (
  m ∙ l,
  n ∙ o,
  λ k.
      let same : owns k h.membership.owned ≡ owns k g.membership.owned =
        ap (λ s. owns k s.owned) o in
      ground (arith, p k, q k, same),
)

-- Exactly what the member owns is assigned.
abbrev pub Agrees : GroupConsumer → Type 0
Agrees g = (k : TopicPartition) → fetches k g.inner ≡ owns k g.membership.owned

abbrev pub EndsMove :
    {A : Type 0}
    → (A → GroupConsumer → Type 0)
    → GroupConsumer
    → Outcome A × List Event × GroupConsumer
    → Type 0
EndsMove = Ends Inv Stays

abbrev pub EndsPoll :
    {A : Type 0}
    → (A → GroupConsumer → Type 0)
    → GroupConsumer
    → Outcome A × List Event × GroupConsumer
    → Type 0
EndsPoll = Ends Inv Told

abbrev pub Anything : {A : Type 0} → A → GroupConsumer → Type 0
Anything a g = Unit

module _ (w : World) (drops : Await → Bool) (p : Pending) where
  -- Where the assignment of a rebalancing member becomes what it owns, less some of it perhaps.
  shrunk-Ends :
      {A : Type 0} (Q : A → GroupConsumer → Type 0) (o : Outcome A) (g : GroupConsumer)
      (c : Consumer)
      → g.pending ≡ some p
      → nothing_pending p ≡ false
      → ((k : TopicPartition) → fetches k c ≡ owns k g.membership.owned && fetches k g.inner)
      → Post Inv Stays Q o (record g { inner = c })
      → EndsMove Q g (o, [], record g { inner = c })
  shrunk-Ends Q o g c e some_left kept post = (
    (refl, refl, λ k. ground (arith, kept k)),
    λ k.
        subst (λ q. Covered k q (fetches k c) (owns k g.membership.owned)) (sym e)
          (ground (arith, kept k), some_left),
    post,
  )

  lift-Ends :
      (g : GroupConsumer) (r : Result Error Unit × Consumer)
      → g.pending ≡ some p
      → nothing_pending p ≡ false
      → IsReassigned (starts_in w) g.membership.owned g.inner r
      → EndsMove (λ _. Agrees) g (lift g r)
  lift-Ends g (err x, c) e some_left h =
      shrunk-Ends (λ (_ : Unit {0}). Agrees) (returned (err x)) g c e some_left
        (λ k.
          ap is_known (h.2 k)
          ∙ known-if (owns k g.membership.owned) (lookup dec k g.inner.assignment))
        tt
  lift-Ends g (ok _, c) e some_left (starts, looked_up, kept, h) =
      let exact : (k : TopicPartition) → fetches k c ≡ owns k g.membership.owned = λ k.
        ap is_known (h k)
        ∙ fetches-entry_after k starts g.membership.owned (lookup dec k g.inner.assignment) in
      (
        (refl, refl, λ k. ground (arith, exact k)),
        λ k.
            subst (λ q. Covered k q (fetches k c) (owns k g.membership.owned)) (sym e)
              (ground (arith, exact k), some_left),
        exact,
      )

  pub take_over-Ends :
      (g : GroupConsumer)
      → g.pending ≡ some p
      → nothing_pending p ≡ false
      → EndsMove (λ _. Agrees) g (take_over w drops g)
  unfolding take_over
  take_over-Ends g e some_left =
      let owned = g.membership.owned in
      if_cases (EndsMove (λ (_ : Unit {0}). Agrees) g)
        (drops at_lookup && not (is_empty (asked_for owned g.inner)))
        (λ _.
          shrunk-Ends (λ (_ : Unit {0}). Agrees) dropped g
            (record g.inner { assignment = retain owned g.inner.assignment }) e some_left
            (λ k.
              ap is_known (lookup-retain k owned g.inner.assignment)
              ∙ known-if (owns k owned) (lookup dec k g.inner.assignment))
            tt)
        (λ _.
          lift-Ends g (reassign (starts_in w) owned g.inner) e some_left
            (reassign-IsReassigned (starts_in w) owned g.inner))

abbrev pub any_key : TopicPartition
any_key = record { topic = ""; partition = pos 0 }

-- Nothing is left to be told.
abbrev pub Settled : {A : Type 0} → A → GroupConsumer → Type 0
Settled a g = g.pending ≡ none

pub Stays-any : (g : GroupConsumer) (es : List Event) → Stays g es g
Stays-any g es = (refl, refl, λ k. ground arith)
