-- ===== src/Produce/Accumulator/Late.antt =====
-- A send task that settles after the producer's identity was reset.
use kaas_lib.Prelude.{ℕ, some, ap, not, ◌||◌, ◌≡◌, refl, ◌∙◌, true, false, none, List, [], ◌∷◌}
use kaas_lib.Prelude.Int.{ℤ}
use kaas_lib.Prelude.Text.{TopicPartition, TopicPartition-discrete}
use kaas_lib.Produce.Idempotence.{ProducerIdentity, reserve, next_of}
use kaas_lib.Produce.Idempotence.Contiguous.{next_of-release}
use kaas_lib.Produce.Accumulator.Types.{Config, Completed}
use kaas_lib.Conn.Errors.{Codec}
use mathlib.Core.Logic.{if_pos}
use kaas_lib.Produce.Accumulator.Actor.{
  Actor, settle, release_all, has_work, has_identity, claimed, ensure_identity,
}

-- The completion of a task that releases one reservation.
abbrev pub releasing : List TopicPartition → TopicPartition → ℤ → Completed
releasing ps key base = record {
  partitions = ps;
  released = (key, base) ∷ [];
  reset_identity = false;
}

-- The actor once it has reserved numbers for a batch, a task has lost the identity, and the task of that
-- batch has then settled and released its reservation.
abbrev pub settled_late : TopicPartition → ℕ → Completed → List TopicPartition → Actor → Actor
settled_late key count lost ps a =
    let (sequences, base) = reserve a.sequences key count in
    settle (releasing ps key base) (settle lost (record a { sequences = sequences }))

late_identity :
    (key : TopicPartition) (count : ℕ) (lost : Completed) (ps : List TopicPartition) (a : Actor)
    → lost.reset_identity ≡ true
    → (settled_late key count lost ps a).identity ≡ none
unfolding settle
late_identity key count lost ps a e = rw e refl

late_sequence :
    (key : TopicPartition) (count : ℕ) (lost : Completed) (ps : List TopicPartition) (a : Actor)
    → next_of (settled_late key count lost ps a).sequences key ≡ next_of a.sequences key
unfolding settle release_all reserve
late_sequence key count lost ps a =
    next_of-release _ key key (next_of a.sequences key)
    ∙ if_pos (TopicPartition-discrete key key) refl _ _

-- An idempotent producer with work and no identity takes the one that it claims, and nothing else of it
-- changes but the count of its attempts.
ensure_identity-claims :
    (c : Config) (codec : Codec) (new : ProducerIdentity) (a : Actor)
    → c.idempotent ≡ true
    → a.identity ≡ none
    → has_work a.partitions ≡ true
    → ensure_identity c codec (claimed new) a
      ≡ (record a { identity = some new; identity_attempts = 0 }, [])
unfolding ensure_identity
ensure_identity-claims c codec new a idempotent lost work =
    let claims : (not c.idempotent || (has_identity a.identity || not (has_work a.partitions)))
        ≡ false =
      rw (idempotent, lost, work) refl in
    rw claims refl

-- A batch reserves its numbers, another task settles that lost the identity, and the batch's own task
-- settles after it and releases its reservation. If the producer is idempotent, without transactions, and
-- has work, and it then claims a new identity, the first batch of the partition under the new identity is
-- numbered from where the batch of the lost identity was.
pub settle_late :
    (c : Config) (codec : Codec) (new : ProducerIdentity) (a : Actor) (lost : Completed)
    (ps : List TopicPartition) (key : TopicPartition) (count again : ℕ)
    → c.idempotent ≡ true
    → lost.reset_identity ≡ true
    → has_work (settled_late key count lost ps a).partitions ≡ true
    → let after = (ensure_identity c codec (claimed new) (settled_late key count lost ps a)).0 in
      (after.identity ≡ some new)
      × ((reserve after.sequences key again).1 ≡ next_of a.sequences key)
unfolding reserve
settle_late c codec new a lost ps key count again idempotent e work =
    let late = settled_late key count lost ps a in
    let claims =
      ensure_identity-claims c codec new late idempotent (late_identity key count lost ps a e)
        work in
    (
      ap (λ r. r.0.identity) claims,
      ap (λ r. (reserve r.0.sequences key again).1) claims ∙ late_sequence key count lost ps a,
    )
