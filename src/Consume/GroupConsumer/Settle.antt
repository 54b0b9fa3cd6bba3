-- ===== src/Consume/GroupConsumer/Settle.antt =====
-- A settling: it tells what is revoked, moves the assignment over, and tells what is gained.
use kaas_lib.Prelude.{
  ◌≡◌, refl, sym, subst, Bool, true, false, not, ◌||◌, is_empty, Option, none, some, List, [], ◌++◌,
  arith,
}
use kaas_lib.Prelude.Text.{TopicPartition}
use kaas_lib.Meta.Retry.Reask.{ok, err}
use kaas_lib.Consume.Group.Reconcile.{owns}
use kaas_lib.Consume.Consumer.Reassign.{}
use kaas_lib.Consume.Task.{
  Event, on_assign, Outcome, returned, dropped, after, ◌>>◌, change, call, when, then-Ends,
  when-Ends, call-Ends,
}
use kaas_lib.Consume.Rebalance.{Pending, nothing_pending, Await, at_assign}
use kaas_lib.Consume.Rebalance.Lost.{fetches, LostTold-any}
use kaas_lib.Consume.Rebalance.Told.{names, told, told-append, ToldAll, flush-ToldAll}
use kaas_lib.Consume.GroupConsumer.{
  GroupConsumer, World, take_over, tell_revoked, tell_gained, move_over, settle_from, settle,
  commit_identity, offsets_of,
}
use kaas_lib.Consume.GroupConsumer.Laws.{
  listens, inside, Told, Inv, Covered, Stays, Stays-trans, Stays-any, Agrees, Settled, EndsMove,
  EndsPoll, any_key, take_over-Ends,
}

module _ (w : World) (drops : Await → Bool) (p : Pending) where
  tell_gained-Ends :
      (g : GroupConsumer)
      → Inv g
      → g.pending ≡ none
      → EndsMove Settled g (tell_gained drops p.gained g)
  unfolding tell_gained
  tell_gained-Ends g inv e =
      when-Ends Inv Stays Stays-any Settled (not (is_empty p.gained))
        (when g.listener (call (drops at_assign) (on_assign p.gained))) g inv (λ _. e)
        (λ _.
          when-Ends Inv Stays Stays-any Settled g.listener
            (call (drops at_assign) (on_assign p.gained)) g inv (λ _. e)
            (λ _.
              call-Ends Inv Stays Stays-any Settled (drops at_assign) (on_assign p.gained) g inv e))

  move_over-Ends :
      (g : GroupConsumer)
      → g.pending ≡ some p
      → nothing_pending p ≡ false
      → EndsMove Settled g (move_over w drops p g)
  unfolding move_over
  move_over-Ends g e some_left =
      then-Ends Inv Stays Stays-trans Settled Settled
        (take_over w drops >> change (λ g. record g { pending = none }))
        (λ _. tell_gained drops p.gained) g
        (then-Ends Inv Stays Stays-trans (λ _. Agrees) Settled (take_over w drops)
          (λ _. change (λ g. record g { pending = none })) g
          (take_over-Ends w drops p g e some_left)
          (λ _ t inv agrees. ((refl, refl, λ k. ground arith), agrees, refl)))
        (λ _ t inv settled. tell_gained-Ends t inv settled)

  moved-Told :
      (g t : GroupConsumer) (es fs : List Event)
      → Inv g
      → g.pending ≡ some p
      → ((k : TopicPartition) → (not g.listener || not (names k p.revoked) || told k es) ≡ true)
      → Stays g fs t
      → Told g (es ++ fs) t
  moved-Told g t es fs inv e h (l, m, stays) = (
    l,
    λ k.
        let covered : Covered k (some p) (fetches k g.inner) (owns k g.membership.owned) =
          subst (λ q. Covered k q (fetches k g.inner) (owns k g.membership.owned)) e (inv k) in
        ground (arith, covered, h k, stays k, told-append k es fs),
  )

  told-Ends :
      (g : GroupConsumer) (r : Outcome Unit × List Event × GroupConsumer)
      → Inv g
      → g.pending ≡ some p
      → nothing_pending p ≡ false
      → ToldAll g.listener g p.revoked r
      → EndsPoll Settled g (after (λ _. move_over w drops p) r)
  told-Ends g (returned (err _), es, t) inv e some_left h = absurd h
  told-Ends g (dropped, es, t) inv e some_left h =
      subst (λ u. EndsPoll (Settled {A = Unit {0}}) g (dropped, es, u)) (sym h)
        (LostTold-any listens inside g es, inv, tt)
  told-Ends g (returned (ok _), es, t) inv e some_left (same, h) =
      let moved = move_over-Ends g e some_left in
      subst
        (λ u.
          EndsPoll (Settled {A = Unit {0}}) g
            (after (λ _. move_over w drops p) (returned (ok tt), es, u)))
        (sym same)
        (
          moved-Told g (move_over w drops p g).2 es (move_over w drops p g).1 inv e h moved.0,
          moved.1,
          moved.2,
        )

pub settle-Ends :
    (w : World) (drops : Await → Bool) (g : GroupConsumer)
    → Inv g
    → EndsPoll Settled g (settle w drops g)
unfolding settle tell_revoked
settle-Ends w drops g inv = from g.pending refl
  where
    from : (q : Option Pending) → g.pending ≡ q → EndsPoll Settled g (settle_from w drops q g)
    from none e = (LostTold-any listens inside g [], inv, e)
    from (some p) e =
        let some_left : nothing_pending p ≡ false =
          (subst
            (λ q. Covered any_key q (fetches any_key g.inner) (owns any_key g.membership.owned)) e
            (inv any_key)).1 in
        rw some_left (
          told-Ends w drops p g (tell_revoked drops p.revoked g) inv e some_left (
            flush-ToldAll g.listener g drops g.auto_commit (commit_identity g.membership)
              (offsets_of g.inner) p.revoked))
