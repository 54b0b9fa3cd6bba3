-- ===== src/Consume/Group/Reconcile.antt =====
-- `reconcile`: what to give up and what is gained between what a member owns and its target.
use kaas_lib.Prelude.{
  List, [], ◌∷◌, ◌≡◌, refl, ◌∙◌, ap, Bool, true, false, not, ◌&&◌, ◌||◌, filter, is_empty, arith,
}
use kaas_lib.Prelude.Map.{contains, contains-filter}
use kaas_lib.Prelude.Sort.{sort, contains-sort}
use kaas_lib.Prelude.Text.{TopicPartition, TopicPartition-discrete, leb_TopicPartition}

-- What one heartbeat told the consumer to do.
pub record Reconciliation : Type 0 where
  pub revoked : List TopicPartition
  pub gained : List TopicPartition
  pub changed : Bool

-- `Reconciliation::default()`
abbrev pub nothing : Reconciliation
nothing = record { revoked = []; gained = []; changed = false }

-- `a.difference(b)`
abbrev pub difference : List TopicPartition → List TopicPartition → List TopicPartition
difference a b = filter (λ key. not (contains TopicPartition-discrete key b)) a

unfoldable pub reconcile : List TopicPartition → List TopicPartition → Reconciliation
reconcile owned target =
    let revoked = sort leb_TopicPartition (difference owned target) in
    let gained = sort leb_TopicPartition (difference target owned) in
    record {
      revoked = revoked;
      gained = gained;
      changed = not (is_empty revoked) || not (is_empty gained);
    }

abbrev pub owns : TopicPartition → List TopicPartition → Bool
owns = contains TopicPartition-discrete

module _ (k : TopicPartition) where
  pub revoked_lem :
      (owned target : List TopicPartition)
      → owns k (reconcile owned target).revoked ≡ owns k owned && not (owns k target)
  unfolding reconcile
  revoked_lem owned target =
      contains-sort TopicPartition-discrete leb_TopicPartition k (difference owned target)
      ∙ contains-filter TopicPartition-discrete k (λ key. not (owns key target)) owned

  pub gained_lem :
      (owned target : List TopicPartition)
      → owns k (reconcile owned target).gained ≡ owns k target && not (owns k owned)
  unfolding reconcile
  gained_lem owned target =
      contains-sort TopicPartition-discrete leb_TopicPartition k (difference target owned)
      ∙ contains-filter TopicPartition-discrete k (λ key. not (owns key owned)) target

is_empty-nil : (xs : List TopicPartition) → is_empty xs ≡ true → xs ≡ []
is_empty-nil [] h = refl
is_empty-nil (x ∷ xs) h = absurd (cc)

-- Without a change, both hold the same partitions.
pub unchanged :
    (k : TopicPartition) (owned target : List TopicPartition)
    → (reconcile owned target).changed ≡ false
    → owns k owned ≡ owns k target
unfolding reconcile contains
unchanged k owned target h =
    let revoked = (reconcile owned target).revoked in
    let gained = (reconcile owned target).gained in
    let none_revoked : revoked ≡ [] = is_empty-nil revoked (ground arith) in
    let none_gained : gained ≡ [] = is_empty-nil gained (ground arith) in
    let r : owns k revoked ≡ false = ap (owns k) none_revoked in
    let g : owns k gained ≡ false = ap (owns k) none_gained in
    ground (arith, revoked_lem k owned target, gained_lem k owned target, r, g)
