-- ===== src/Consume/Rebalance/Told.antt =====
-- Which partitions the listener was told to be revoked.
use kaas_lib.Prelude.{
  ◌≡◌, refl, Bool, true, false, not, ◌&&◌, ◌||◌, map, is_empty, List, [], ◌∷◌, ◌++◌, arith,
}
use kaas_lib.Prelude.Int.{ℤ}
use kaas_lib.Prelude.Map.{contains}
use kaas_lib.Prelude.Text.{TopicPartition}
use kaas_lib.Meta.Retry.Reask.{ok, err}
use kaas_lib.Consume.Group.Reconcile.{owns}
use kaas_lib.Consume.Consumer.{Consumer, RevokedPartition, revoked_positions}
use kaas_lib.Consume.Task.{
  CommitAs, Event, on_revoke, on_assign, commit, asked, Outcome, returned, dropped, after, call,
  when,
}
use kaas_lib.Consume.Rebalance.{Await, at_revoke, at_commit, flush}

abbrev key_of_revoked : RevokedPartition → TopicPartition
key_of_revoked r = r.revoked

-- Whether a list of revoked partitions names one, and whether the listener was called with it.
abbrev pub names : TopicPartition → List RevokedPartition → Bool
names k revoked = owns k (map key_of_revoked revoked)

abbrev pub told_by : TopicPartition → Event → Bool
told_by k (on_revoke revoked) = names k revoked
told_by k (on_assign _) = false
told_by k (commit _ _) = false
told_by k asked = false

abbrev pub told : TopicPartition → List Event → Bool
told k [] = false
told k (e ∷ es) = told_by k e || told k es

pub told-append :
    (k : TopicPartition) (es fs : List Event) → told k (es ++ fs) ≡ told k es || told k fs
told-append k [] fs = refl
told-append k (e ∷ es) fs = ground (arith, told-append k es fs)

pub names-revoked_positions :
    (k : TopicPartition) (c : Consumer) (ks : List TopicPartition)
    → names k (revoked_positions c ks) ≡ owns k ks
unfolding revoked_positions contains
names-revoked_positions k c [] = refl
names-revoked_positions k c (j ∷ ks) = ground (arith, names-revoked_positions k c ks)

pub is_empty-revoked_positions :
    (c : Consumer) (ks : List TopicPartition) → is_empty (revoked_positions c ks) ≡ is_empty ks
unfolding revoked_positions
is_empty-revoked_positions c [] = refl
is_empty-revoked_positions c (k ∷ ks) = refl

module _ {S : Type 0} (listener : Bool) (s : S) where
  -- What telling of a revocation leaves: the state as it was, and the caller told of all of it unless
  -- the future was dropped.
  abbrev pub ToldAll : List RevokedPartition → Outcome Unit × List Event × S → Type 0
  ToldAll revoked (returned (ok _), es, t) =
      (t ≡ s) × ((k : TopicPartition) → (not listener || not (names k revoked) || told k es) ≡ true)
  ToldAll revoked (returned (err _), es, t) = ⊥
  ToldAll revoked (dropped, es, t) = t ≡ s

  committed-ToldAll :
      (revoked : List RevokedPartition) (es : List Event) (b d : Bool) (event : Event)
      → ((k : TopicPartition) → (not listener || not (names k revoked) || told k es) ≡ true)
      → ToldAll revoked (after (λ _. when b (call d event)) (returned (ok tt), es, s))
  committed-ToldAll revoked es true true event h = refl
  committed-ToldAll revoked es true false event h =
      (refl, λ k. ground (arith, h k, told-append k es (event ∷ [])))
  committed-ToldAll revoked es false d event h =
      (refl, λ k. ground (arith, h k, told-append k es []))

  revoked-ToldAll :
      (drops : Await → Bool) (revoked : List RevokedPartition) (l d b : Bool) (event : Event)
      → l ≡ listener
      → ToldAll revoked (
          after
            (λ _. when b (call (drops at_commit) event))
            (when l (call d (on_revoke revoked)) s))
  revoked-ToldAll drops revoked true true b event e = refl
  revoked-ToldAll drops revoked true false b event e =
      committed-ToldAll revoked (on_revoke revoked ∷ []) b (drops at_commit) event
        (λ k. ground arith)
  revoked-ToldAll drops revoked false d b event e =
      committed-ToldAll revoked [] b (drops at_commit) event (λ k. ground (arith, e))

  pub flush-ToldAll :
      (drops : Await → Bool) (auto_commit : Bool) (identity : CommitAs)
      (offsets : List (TopicPartition × ℤ)) (revoked : List RevokedPartition)
      → ToldAll revoked (flush listener drops auto_commit identity offsets revoked s)
  unfolding flush contains
  flush-ToldAll drops auto_commit identity offsets [] = (refl, λ k. ground arith)
  flush-ToldAll drops auto_commit identity offsets (r ∷ revoked) =
      revoked-ToldAll drops (r ∷ revoked) listener (drops at_revoke)
        (auto_commit && not (is_empty offsets)) (commit identity offsets) refl
