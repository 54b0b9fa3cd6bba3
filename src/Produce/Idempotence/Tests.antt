-- ===== src/Produce/Idempotence/Tests.antt =====
-- Sequence numbers on small inputs.
use kaas_lib.Prelude.{◌^◌, ◌-◌, ℕ_discrete, ◌≡◌, refl, none, List, [], ◌∷◌}
use kaas_lib.Prelude.Int.{pos, negsuc}
use kaas_lib.Prelude.Words.{i32_wrapping_add}
use kaas_lib.Prelude.Map.{lookup, insert}
use kaas_lib.Prelude.Text.{TopicPartition, TopicPartition-discrete}
use kaas_lib.Produce.Idempotence.{no_sequences, next_of, reserve, release}
use kaas_lib.Produce.Idempotence.Contiguous.{
  Event, dispatched, accepted, rejected, fresh, run, expected, IsContiguous, run-IsContiguous,
}

abbrev first : TopicPartition
first = record { topic = "orders"; partition = pos 0 }

abbrev second : TopicPartition
second = record { topic = "orders"; partition = pos 1 }

abbrev events : List Event
events =
    dispatched first 3
    ∷ dispatched second 5
    ∷ accepted first
    ∷ rejected second
    ∷ dispatched first 2
    ∷ accepted first
    ∷ dispatched second 1
    ∷ []

-- A released reservation is handed out again, and the numbers wrap.
reused : (reserve (release (reserve no_sequences first 100).0 first (pos 0)) first 100).1 ≡ pos 0
unfolding reserve release next_of lookup insert TopicPartition-discrete ℕ_discrete
reused = refl

wraps :
    (reserve (reserve (release no_sequences first (pos (2 ^ 31 - 2))) first 4).0 first 1).1
    ≡ negsuc (2 ^ 31 - 3)
unfolding reserve release next_of lookup insert TopicPartition-discrete ℕ_discrete i32_wrapping_add
wraps = refl

run-IsContiguous_example :
    IsContiguous (run fresh events).log
    × ((k : TopicPartition)
        → lookup TopicPartition-discrete k (run fresh events).on_wire ≡ none
        → next_of (run fresh events).sequences k ≡ expected k (run fresh events).log)
run-IsContiguous_example = run-IsContiguous events
