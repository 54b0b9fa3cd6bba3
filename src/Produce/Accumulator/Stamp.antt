-- ===== src/Produce/Accumulator/Stamp.antt =====
-- The numbers that a dispatched batch carries.
use kaas_lib.Prelude.{
  ◌≡◌, refl, Bool, ◌&&◌, ◌||◌, not, Bool-cases, inl, inr, Option, none, some, List, [], ◌∷◌, length,
}
use kaas_lib.Prelude.Words.{i32_wrapping_add}
use kaas_lib.Prelude.Text.{TopicPartition, TopicPartition-discrete}
use kaas_lib.Produce.Idempotence.{
  ProducerIdentity, BatchIdentity, Sequences, next_of, reserve, count_i32,
}
use kaas_lib.Produce.Idempotence.Contiguous.{next_of-reserve}
use kaas_lib.Produce.Accumulator.Types.{Batch, PartitionState, Ready}
use kaas_lib.Produce.Accumulator.Actor.{Surroundings, send_first, dispatch_one}
use mathlib.Core.Logic.{ite}

-- The identity of a batch that starts at the partition's next number.
abbrev pub issued_at : Bool → Sequences → TopicPartition → ProducerIdentity → BatchIdentity
issued_at transactional s key issued = record {
  producer_id = issued.producer_id;
  producer_epoch = issued.producer_epoch;
  base_sequence = next_of s key;
  transactional = transactional;
}

-- What a turn does to the numbers: a turn that sends nothing, or has no identity, leaves them; a
-- batch that goes under an identity starts at its partition's next number, which moves on by the
-- count of the batch's records, and no other partition's does.
abbrev pub IsStamped :
    Bool → Sequences → TopicPartition → Option ProducerIdentity → Sequences → Option Ready → Type 0
IsStamped transactional s key identity after none = after ≡ s
IsStamped transactional s key none after (some r) = (after ≡ s) × (r.identity ≡ none)
IsStamped transactional s key (some issued) after (some r) =
    (r.identity ≡ some (issued_at transactional s key issued))
    × ((k : TopicPartition)
        → next_of after k
          ≡ ite (TopicPartition-discrete key k)
              (i32_wrapping_add (next_of s key) (count_i32 (length r.records))) (next_of s k))

send_first-IsStamped :
    (identity : Option ProducerIdentity) (transactional : Bool) (key : TopicPartition)
    (st : PartitionState) (s : Sequences) (pending : List Batch)
    → let turn = send_first identity transactional key st s pending in
      IsStamped transactional s key identity turn.sequences turn.sent
send_first-IsStamped identity transactional key st s [] = refl
send_first-IsStamped none transactional key st s (b ∷ bs) = (refl, refl)
send_first-IsStamped (some issued) transactional key st s (b ∷ bs) =
    (unfold reserve in refl, λ k. next_of-reserve s key k (length b.records))

-- A batch that a turn of the dispatch loop sends under an identity carries that identity and starts
-- at its partition's next number, which moves on by the count of the batch's records, and no other
-- partition's does; with no identity, or if nothing is sent, the numbers stay as they are.
pub dispatch_one-IsStamped :
    (env : Surroundings) (identity : Option ProducerIdentity) (key : TopicPartition)
    (st : PartitionState) (s : Sequences)
    → let turn = dispatch_one env identity key st s in
      IsStamped env.transactional s key identity turn.sequences turn.sent
unfolding dispatch_one
dispatch_one-IsStamped env identity key st s =
    elim (Bool-cases (st.in_flight || (env.transactional && not (env.enrolled key)))) [
      | inl held ↦ rw held refl
      | inr free ↦ rw free (send_first-IsStamped identity env.transactional key st s st.pending)
    ]
