-- ===== src/Consume/Session/Changes.antt =====
-- What a request includes and forgets, against the assignment that the client wants.
use kaas_lib.Prelude.{
  Option, none, some, Option-cases, List, [], ◌∷◌, ◌≡◌, inl, inr, arith, true, false, Bool-cases,
}
use kaas_lib.Prelude.Map.{keys, lookup, IsFunctional, contains, set_insert, contains-set_insert}
use kaas_lib.Prelude.Text.{TopicPartition}
use kaas_lib.Consume.Session.{PartitionState, Assignment, is_known, changed, remember, forget_gone}
use mathlib.Core.Logic.{if_pos, if_neg}
use kaas_lib.Consume.Session.Broker.{dec, AllGone}

module _ (wanted : Assignment) (k : TopicPartition) where
  pub set_insert-AllGone :
      (j : TopicPartition) (s : List TopicPartition)
      → lookup dec j wanted ≡ none
      → AllGone wanted s
      → AllGone wanted (set_insert dec j s)
  unfolding set_insert
  set_insert-AllGone j s h g = elim (Bool-cases (contains dec j s)) [
    | inl old ↦ rw old g
    | inr new ↦ rw new (h, g)
  ]

  pub remember-AllGone :
      (j : TopicPartition) (s : List TopicPartition)
      → AllGone wanted s
      → AllGone wanted (remember (lookup dec j wanted) j s)
  remember-AllGone j s g = elim (Option-cases (lookup dec j wanted)) [
    | inl gone ↦ rw (gone, remember) (set_insert-AllGone j s gone g)
    | inr (v, kept) ↦ rw (kept, remember) g
  ]

  pub forget_gone-AllGone :
      (s ks : List TopicPartition) → AllGone wanted s → AllGone wanted (forget_gone wanted s ks)
  unfolding forget_gone
  forget_gone-AllGone s [] g = g
  forget_gone-AllGone s (j ∷ ks) g =
      forget_gone-AllGone (remember (lookup dec j wanted) j s) ks (remember-AllGone j s g)

  pub remember-keeps :
      (o : Option PartitionState) (j : TopicPartition) (s : List TopicPartition)
      → contains dec k s ≡ true
      → contains dec k (remember o j s) ≡ true
  remember-keeps (some v) j s p = p
  remember-keeps none j s p = elim (dec j k) [
    | yes e ↦ rw (contains-set_insert dec j k s) (if_pos (dec j k) e true (contains dec k s))
    | no n ↦ rw (contains-set_insert dec j k s) (rw (if_neg (dec j k) n) p)
  ]

  pub forget_gone-keeps :
      (s ks : List TopicPartition)
      → contains dec k s ≡ true
      → contains dec k (forget_gone wanted s ks) ≡ true
  unfolding forget_gone
  forget_gone-keeps s [] h = h
  forget_gone-keeps s (j ∷ ks) h =
      forget_gone-keeps (remember (lookup dec j wanted) j s) ks
        (remember-keeps (lookup dec j wanted) j s h)

  pub remember-hits :
      (j : TopicPartition) (s : List TopicPartition)
      → j ≡ k
      → lookup dec k wanted ≡ none
      → contains dec k (remember (lookup dec j wanted) j s) ≡ true
  remember-hits j s e h =
      let gone : lookup dec j wanted ≡ none = rw e h in
      rw (gone, remember)
        (rw (contains-set_insert dec j k s) (if_pos (dec j k) e true (contains dec k s)))

  pub forget_gone-hits :
      (s ks : List TopicPartition)
      → lookup dec k wanted ≡ none
      → contains dec k ks ≡ true
      → contains dec k (forget_gone wanted s ks) ≡ true
  unfolding forget_gone contains
  forget_gone-hits s [] h p = absurd (cc)
  forget_gone-hits s (j ∷ ks) h p = elim (dec j k) [
    | yes e ↦ forget_gone-keeps (remember (lookup dec j wanted) j s) ks (remember-hits j s e h)
    | no n ↦
        forget_gone-hits (remember (lookup dec j wanted) j s) ks h (rw (if_neg (dec j k) n) at p)
  ]

-- Of what the broker does not know, nothing that is wanted is left out.
module _ (wanted known : Assignment) where
  pub changed-IsFunctional :
      (es : Assignment) → IsFunctional dec wanted es → IsFunctional dec wanted (changed known es)
  unfolding changed
  changed-IsFunctional [] h = h
  changed-IsFunctional ((j, w) ∷ es) h = elim (Bool-cases (is_known (lookup dec j known) w)) [
    | inl old ↦ rw old (changed-IsFunctional es h.1)
    | inr new ↦ rw new (h.0, changed-IsFunctional es h.1)
  ]

  pub changed-hits :
      (k : TopicPartition) (v : PartitionState) (es : Assignment)
      → lookup dec k es ≡ some v
      → is_known (lookup dec k known) v ≡ false
      → lookup dec k (changed known es) ≡ some v
  unfolding changed lookup
  changed-hits k v [] p n = absurd (cc)
  changed-hits k v ((j, w) ∷ es) p n = ground (arith, changed-hits k v es)

pub is_known-eq :
    (o : Option PartitionState) (v : PartitionState) → is_known o v ≡ true → o ≡ some v
is_known-eq o v h = ground arith

pub contains-keys :
    (k : TopicPartition) (v : PartitionState) (es : Assignment)
    → lookup dec k es ≡ some v
    → contains dec k (keys es) ≡ true
unfolding lookup contains
contains-keys k v [] p = absurd (cc)
contains-keys k v ((j, w) ∷ es) p = ground (arith, contains-keys k v es)
