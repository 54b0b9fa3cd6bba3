-- ===== src/Prelude/Text.antt =====
-- Equality of texts, and the key `(topic, partition)` that the maps of the clients use.
use text.Mathlib.Text.{◌==◌}
use text.Mathlib.TextEquality.{eq_iff}
use Prim.Native.String.{String, compare}
use Prim.Native.Nat.{Ordering}
use mathlib.Core.Bool.{Bool, true, false}
use mathlib.Core.Logic.{inl, inr}
use native.Mathlib.Omega.{arith}
use kaas_lib.Prelude.Tests.{Bool-cases}
use kaas_lib.Prelude.Int.{ℤ, ℤ-discrete, leb_ℤ}

unfoldable pub String-discrete : Discrete String
unfolding Bool-cases
String-discrete a b = elim (Bool-cases (a == b)) [
  | inl same ↦ yes ((eq_iff a b).0 same)
  | inr differ ↦ no (λ e. ground (arith, (eq_iff a b).1 e))
]

-- `(String, i32)`
pub record TopicPartition : Type 0 where
  pub topic : String
  pub partition : ℤ

unfoldable pub TopicPartition-discrete : Discrete TopicPartition
unfolding String-discrete ℤ-discrete
TopicPartition-discrete = hlevel (String-discrete, ℤ-discrete)

-- The order of `String`, and of `(String, i32)`: by topic, then by partition.
abbrev pub leb_String : String → String → Bool
leb_String a b = elim (compare a b) [ Ordering.gt ↦ false | _ ↦ true ]

abbrev pub leb_TopicPartition : TopicPartition → TopicPartition → Bool
leb_TopicPartition a b = elim (compare a.topic b.topic) [
  | Ordering.lt ↦ true
  | Ordering.gt ↦ false
  | Ordering.eq ↦ leb_ℤ a.partition b.partition
]
