-- ===== src/Consume/Session/Tests.antt =====
-- Fetch sessions on small assignments.
use kaas_lib.Prelude.{ℕ_discrete, ◌≡◌, refl, false, List, [], ◌∷◌}
use kaas_lib.Prelude.Int.{ℤ, pos}
use kaas_lib.Prelude.Map.{lookup, IsFunctional, set_insert, contains}
use kaas_lib.Prelude.Text.{TopicPartition, TopicPartition-discrete}
use kaas_lib.Consume.Session.{
  PartitionState, Assignment, FetchSession, new, changed, forget_gone, next,
}
use kaas_lib.Consume.Session.Broker.{dec, apply_delta}
use kaas_lib.Consume.Session.Sync.{InSync}
use kaas_lib.Consume.Session.History.{Reply, answered, lost, run, apply_delta-run}

abbrev orders : TopicPartition
orders = record { topic = "orders"; partition = pos 0 }

abbrev payments : TopicPartition
payments = record { topic = "payments"; partition = pos 3 }

abbrev at_offset : ℤ → PartitionState
at_offset n = record { offset = n; max_bytes = pos 1048576 }

abbrev both : Assignment
both = (orders, at_offset (pos 5)) ∷ (payments, at_offset (pos 0)) ∷ []

abbrev only_orders : Assignment
only_orders = (orders, at_offset (pos 9)) ∷ []

both-IsFunctional : IsFunctional dec both both
unfolding lookup TopicPartition-discrete ℕ_discrete
both-IsFunctional = (refl, (refl, tt))

only_orders-IsFunctional : IsFunctional dec only_orders only_orders
unfolding lookup TopicPartition-discrete ℕ_discrete
only_orders-IsFunctional = (refl, tt)

-- A session that the broker opened for both partitions.
abbrev opened : FetchSession
opened = record { id = pos 77; epoch = pos 1; known = both; forgotten = [] }

opened-InSync : InSync opened both
opened-InSync = record { nothing_owed = refl; same_view = λ _ k. refl }

-- The difference: one partition moved on, the other is dropped.
narrowed : (next opened only_orders).1 ≡ record {
  session_id = pos 77;
  session_epoch = pos 1;
  include = only_orders;
  forget = payments ∷ [];
  full = false;
}
unfolding next lookup changed forget_gone set_insert contains TopicPartition-discrete ℕ_discrete
narrowed = refl

abbrev history : List (Assignment × Reply)
history =
    (both, answered (pos 77) (pos 0))
    ∷ (only_orders, lost only_orders)
    ∷ (only_orders, answered (pos 78) (pos 0))
    ∷ []

apply_delta-run_example :
    let (s, view') = run new both history in
    lookup dec payments (apply_delta (next s both).1 view') ≡ lookup dec payments both
apply_delta-run_example =
    apply_delta-run both history both
      (both-IsFunctional, (only_orders-IsFunctional, (only_orders-IsFunctional, tt)))
      both-IsFunctional payments
