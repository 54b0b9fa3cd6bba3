-- ===== src/Produce/Accumulator/Dispatch.antt =====
-- What one turn of the dispatch loop does to a partition.
use kaas_lib.Prelude.{
  ◌≡◌, refl, true, false, ◌&&◌, ◌||◌, not, Bool-cases, inl, inr, Option, none, some, List, [], ◌∷◌,
  ◌++◌, append_assoc, arith,
}
use kaas_lib.Prelude.Text.{TopicPartition}
use kaas_lib.Produce.Idempotence.{ProducerIdentity, Sequences}
use kaas_lib.Produce.Accumulator.Types.{Queued, Batch, PartitionState, Ready}
use kaas_lib.Produce.Accumulator.Buffer.{open_records, all_records}
use kaas_lib.Produce.Accumulator.Order.{buffered}
use kaas_lib.Produce.Accumulator.Actor.{Surroundings, send_first, dispatch_one}

-- The records that a turn sends.
abbrev pub sent_records : Option Ready → List Queued
sent_records none = []
sent_records (some r) = r.records

-- A turn that sends: nothing of the partition was on the wire and now something is, and in an open
-- transaction the partition is enrolled.
pub record MaySend (env : Surroundings) (key : TopicPartition) (before after : PartitionState)
    : Type 0 where
  pub was_free : before.in_flight ≡ false
  pub now_busy : after.in_flight ≡ true
  pub enrolled : env.transactional ≡ true → env.enrolled key ≡ true

abbrev pub WhenSent :
    Surroundings → TopicPartition → PartitionState → PartitionState → Option Ready → Type 0
WhenSent env key before after none = before ≡ after
WhenSent env key before after (some r) = MaySend env key before after × (r.key ≡ key)

module _ (env : Surroundings) (identity : Option ProducerIdentity) (key : TopicPartition)
    (st : PartitionState) (s : Sequences) where
  send_first_order :
      (pending : List Batch)
      → st.pending ≡ pending
      → let turn = send_first identity env.transactional key st s pending in
        buffered st ≡ sent_records turn.sent ++ buffered turn.state
  unfolding buffered
  send_first_order [] e = refl
  send_first_order (b ∷ bs) e =
      rw e (append_assoc b.records (all_records bs) (open_records st.open_batch))

  send_first_guard :
      (pending : List Batch)
      → st.in_flight ≡ false
      → (env.transactional ≡ true → env.enrolled key ≡ true)
      → let turn = send_first identity env.transactional key st s pending in
        WhenSent env key st turn.state turn.sent
  send_first_guard [] free may = refl
  send_first_guard (b ∷ bs) free may =
      (record { was_free = free; now_busy = refl; enrolled = may }, refl)

  -- A turn takes the oldest buffered records of the partition, in their order, and leaves the others;
  -- it sends only if nothing of the partition is on the wire and an open transaction has the
  -- partition enrolled, and marks the partition as busy; if it sends nothing it changes nothing.
  pub dispatch_one_lem :
      let turn = dispatch_one env identity key st s in
      (buffered st ≡ sent_records turn.sent ++ buffered turn.state)
      × WhenSent env key st turn.state turn.sent
  unfolding dispatch_one
  dispatch_one_lem =
      elim (Bool-cases (st.in_flight || (env.transactional && not (env.enrolled key)))) [
        | inl held ↦ rw held (refl, refl)
        | inr free ↦ rw free (
          send_first_order st.pending refl,
          send_first_guard st.pending (ground arith) (λ t. ground arith),
        )
      ]
