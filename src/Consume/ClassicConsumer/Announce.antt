-- ===== src/Consume/ClassicConsumer/Announce.antt =====
-- What announcing a revocation of a classic consumer does: nothing but telling, and all of it.
use kaas_lib.Prelude.{◌≡◌, ap, subst, Bool, true, not, ◌||◌, none, some, List, [], arith}
use mathlib.Core.Path.{fun_ext}
use kaas_lib.Prelude.Text.{TopicPartition}
use kaas_lib.Meta.Retry.Reask.{ok, err}
use kaas_lib.Consume.Group.Reconcile.{owns}
use kaas_lib.Consume.Consumer.{RevokedPartition, revoked_positions}
use kaas_lib.Consume.Task.{Event, Outcome, returned, dropped, after, change}
use kaas_lib.Consume.Rebalance.{Await, flush}
use kaas_lib.Consume.Rebalance.Told.{
  names, told, told-append, names-revoked_positions, ToldAll, flush-ToldAll,
}
use kaas_lib.Consume.ClassicConsumer.{
  ClassicConsumer, commit_identity, offsets_of, settle_from, settle, announce,
}

-- All but the note of what is to be revoked is as it was.
abbrev pub Same : ClassicConsumer → ClassicConsumer → Type 0
Same g t =
    (t.inner ≡ g.inner)
    × (t.membership ≡ g.membership)
    × (t.listener ≡ g.listener)
    × (t.rejoin ≡ g.rejoin)

-- Nothing else changes, and unless the future is dropped the listener was told of all.
abbrev pub Announced :
    ClassicConsumer → (TopicPartition → Bool) → Outcome Unit × List Event × ClassicConsumer → Type 0
Announced g all (returned (ok _), es, t) =
    Same g t × ((k : TopicPartition) → (not g.listener || not (all k) || told k es) ≡ true)
Announced g all (returned (err _), es, t) = ⊥
Announced g all (dropped, es, t) = Same g t

flushed-Announced :
    (g : ClassicConsumer) (revoked : List RevokedPartition)
    (r : Outcome Unit × List Event × ClassicConsumer)
    → ToldAll g.listener g revoked r
    → Announced g
        (λ k. names k revoked)
        (after (λ _. change (λ g. record g { pending_revoke = none })) r)
flushed-Announced g revoked (returned (err _), es, t) h = absurd h
flushed-Announced g revoked (dropped, es, t) h =
    (ap (λ u. u.inner) h, ap (λ u. u.membership) h, ap (λ u. u.listener) h, ap (λ u. u.rejoin) h)
flushed-Announced g revoked (returned (ok _), es, t) (same, h) = (
  (
    ap (λ u. u.inner) same,
    ap (λ u. u.membership) same,
    ap (λ u. u.listener) same,
    ap (λ u. u.rejoin) same,
  ),
  λ k. ground (arith, h k, told-append k es []),
)

module _ (drops : Await → Bool) where
  pub settle_from-Announced :
      (g : ClassicConsumer) (revoked : List RevokedPartition)
      → Announced g (λ k. names k revoked) (settle_from drops (some revoked) g)
  settle_from-Announced g revoked =
      flushed-Announced g revoked
        (flush g.listener drops g.auto_commit (commit_identity g.membership) (offsets_of g.inner)
          revoked g)
        (flush-ToldAll g.listener g drops g.auto_commit (commit_identity g.membership)
          (offsets_of g.inner) revoked)

  -- Announcing some partitions.
  pub announce-Announced :
      (g : ClassicConsumer) (keys : List TopicPartition)
      → Announced g (λ k. owns k keys) (announce drops keys g)
  unfolding announce settle
  announce-Announced g keys =
      let revoked = revoked_positions g.inner keys in
      let noted : ClassicConsumer = record g { pending_revoke = some revoked } in
      let e : (λ k. names k revoked) ≡ (λ k. owns k keys) =
        fun_ext (λ k. names-revoked_positions k g.inner keys) in
      subst
        (λ (all : TopicPartition → Bool). Announced g all (settle_from drops (some revoked) noted))
        e (settle_from-Announced noted revoked)
