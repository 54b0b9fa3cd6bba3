-- ===== src/Produce/Accumulator/History.antt =====
-- The whole life of one partition's buffer, against a queue that drops and never reorders.
use kaas_lib.Prelude.{
  ℕ, ◌+◌, ◌-◌, ◌≤◌, ◌≡◌, refl, sym, ap, subst, ◌&&◌, ◌||◌, not, Bool, Bool-cases, inl, inr, Option,
  none, some, List, [], ◌∷◌, ◌++◌, append_assoc, leb, length, length-append, All, arith,
}
use kaas_lib.Prelude.Text.{TopicPartition}
use kaas_lib.Conn.Errors.{Error}
use kaas_lib.Produce.Idempotence.{ProducerIdentity, Sequences}
use kaas_lib.Produce.Accumulator.Types.{Queued, Batch, PartitionState, Config, Ready, size_of}
use kaas_lib.Produce.Accumulator.Buffer.{
  close, close_lingered, lingered, would_overflow, or_new, push, join_open, append_record, is_live,
  expire, fail_state, open_records, all_records,
}
use kaas_lib.Produce.Accumulator.Actor.{Surroundings, send_first, dispatch_one}
use kaas_lib.Produce.Accumulator.Order.{
  buffered, buffered-close, buffered-close_lingered, buffered-append_record,
}
use kaas_lib.Produce.Accumulator.Bounds.{
  IsSane, IsSendable, StateInv, close-StateInv, close_lingered-StateInv, append_record-StateInv,
}
use kaas_lib.Produce.Accumulator.Expiry.{expire-StateInv}
use kaas_lib.Produce.Accumulator.Answers.{
  buffered-expire, buffered-fail_state, length-buffered, length-expire, length-fail_state,
  length-fail_all,
}
use kaas_lib.Produce.Accumulator.Dispatch.{sent_records, WhenSent, dispatch_one_lem}
use kaas_lib.Produce.Accumulator.Subsequence.{
  Subsequence, done, Subsequence-refl, Subsequence-nil, Subsequence-append, Subsequence-trans,
  filter-Subsequence,
}
use kaas_lib.Produce.Accumulator.Life.{
  Event, append, close_now, linger, expire_at, fail_with, fail_closed, dispatch, settled, Life,
  count_sent, step, run, OneAtMost, LifeInv, unborn,
}

in_flight-append_record :
    (c : Config) (q : Queued) (now : ℕ) (s : PartitionState)
    → (append_record c q now s).in_flight ≡ s.in_flight
unfolding append_record join_open close
in_flight-append_record c q now s = elim (Bool-cases (would_overflow c (size_of q) s.open_batch)) [
  | inl over ↦ rw over (joined (close s))
  | inr fits ↦ rw fits (joined s)
]
  where
    joined : (t : PartitionState) → (join_open c q now t).in_flight ≡ t.in_flight
    joined t = elim (Bool-cases (leb c.batch_size (push q (or_new t.open_batch now)).bytes)) [
      | inl reached ↦ rw reached
      | inr room ↦ rw room
    ]

in_flight-close_lingered :
    (wait now : ℕ) (s : PartitionState) → (close_lingered wait now s).in_flight ≡ s.in_flight
unfolding close_lingered close
in_flight-close_lingered wait now s = elim (Bool-cases (lingered s.open_batch wait now)) [
  | inl late ↦ rw late
  | inr early ↦ rw early
]

module _ (c : Config) (sane : IsSane c) (identity : Option ProducerIdentity)
    (key : TopicPartition) where
  -- An event that only thins out or extends the buffered records keeps the order.
  thinned :
      (l : Life) (st : PartitionState)
      → Subsequence (buffered st) (buffered l.state)
      → LifeInv c l
      → Subsequence (l.sent ++ buffered st) l.appended
  thinned l st p h = Subsequence-trans (Subsequence-append (Subsequence-refl l.sent) p) h.in_order

  same_buffer :
      (st st' : PartitionState)
      → buffered st' ≡ buffered st
      → Subsequence (buffered st') (buffered st)
  same_buffer st st' e = rw e (Subsequence-refl (buffered st))

  append-LifeInv :
      (l : Life) (q : Queued) (now : ℕ)
      → LifeInv c l
      → LifeInv c (step c identity key l (append q now))
  unfolding step
  append-LifeInv l q now h = record {
    in_order =
        rw
          (
            buffered-append_record c q now l.state,
            ← append_assoc l.sent (buffered l.state) (q ∷ []),
          )
          (Subsequence-append h.in_order (Subsequence-refl (q ∷ [])));
    one_at_most = rw (in_flight-append_record c q now l.state) h.one_at_most;
    bounded = append_record-StateInv c sane q now l.state h.bounded;
    conserved = rw (buffered-append_record c q now l.state) (
        omega (
          arith,
          length-append l.appended (q ∷ []),
          length-append (buffered l.state) (q ∷ []),
          h.conserved,
        ));
  }

  expire-LifeInv :
      (l : Life) (now : ℕ) → LifeInv c l → LifeInv c (step c identity key l (expire_at now))
  unfolding step
  expire-LifeInv l now h = record {
    in_order =
        thinned l _
          (rw ((buffered-expire now c.delivery_timeout l.state).0)
            (filter-Subsequence (is_live now) (buffered l.state)))
          h;
    one_at_most = unfold expire in h.one_at_most;
    bounded = expire-StateInv c sane now c.delivery_timeout l.state h.bounded;
    conserved = omega (arith, length-expire now c.delivery_timeout l.state, h.conserved);
  }

  fail-LifeInv :
      (l : Life) (e : Error) → LifeInv c l → LifeInv c (step c identity key l (fail_with e))
  unfolding step
  fail-LifeInv l e h = record {
    in_order =
        thinned l _ (rw ((buffered-fail_state e l.state).0) (Subsequence-nil (buffered l.state))) h;
    one_at_most = unfold fail_state in h.one_at_most;
    bounded = unfold fail_state in record { accepting = tt; sendable = tt };
    conserved =
        rw ((buffered-fail_state e l.state).0)
          (omega (arith, length-fail_state e l.state, h.conserved));
  }

  open_only :
      (st : PartitionState) → Subsequence (buffered (record st { pending = [] })) (buffered st)
  unfolding buffered
  open_only st =
      Subsequence-append (Subsequence-nil (all_records st.pending))
        (Subsequence-refl (open_records st.open_batch))

  fail_closed-LifeInv :
      (l : Life) (e : Error) → LifeInv c l → LifeInv c (step c identity key l (fail_closed e))
  unfolding step
  fail_closed-LifeInv l e h = record {
    in_order = thinned l _ (open_only l.state) h;
    one_at_most = h.one_at_most;
    bounded = record { accepting = h.bounded.accepting; sendable = tt };
    conserved = omega (
      arith,
      length-fail_all e (all_records l.state.pending),
      length-buffered l.state,
      length-buffered (record (l.state) { pending = [] }),
      h.conserved,
    );
  }

  settled-LifeInv : (l : Life) → LifeInv c l → LifeInv c (step c identity key l settled)
  unfolding step
  settled-LifeInv l h = record {
    in_order = unfold buffered in h.in_order;
    one_at_most = (landed h.one_at_most.0, λ _. emptied h.one_at_most.0);
    bounded = record { accepting = h.bounded.accepting; sendable = h.bounded.sendable };
    conserved = unfold buffered in h.conserved;
  }
    where
      landed : l.outstanding ≤ 1 → l.outstanding - 1 ≤ 1
      landed few = omega arith

      emptied : l.outstanding ≤ 1 → l.outstanding - 1 ≡ 0
      emptied few = omega arith

  close-LifeInv : (l : Life) → LifeInv c l → LifeInv c (step c identity key l close_now)
  unfolding step
  close-LifeInv l h = record {
    in_order = thinned l _ (same_buffer l.state _ (buffered-close l.state)) h;
    one_at_most = unfold close in h.one_at_most;
    bounded = close-StateInv c sane l.state h.bounded;
    conserved = rw (buffered-close l.state) h.conserved;
  }

  linger-LifeInv :
      (l : Life) (now : ℕ) → LifeInv c l → LifeInv c (step c identity key l (linger now))
  unfolding step
  linger-LifeInv l now h = record {
    in_order = thinned l _ (same_buffer l.state _ (buffered-close_lingered c.linger now l.state)) h;
    one_at_most = rw (in_flight-close_lingered c.linger now l.state) h.one_at_most;
    bounded = close_lingered-StateInv c sane now l.state h.bounded;
    conserved = rw (buffered-close_lingered c.linger now l.state) h.conserved;
  }

  after-OneAtMost :
      (env : Surroundings) (before after : PartitionState) (r : Option Ready) (n : ℕ)
      → WhenSent env key before after r
      → OneAtMost before n
      → OneAtMost after (count_sent r n)
  after-OneAtMost env before after none n same h = rw (sym same) h
  after-OneAtMost env before after (some r) n (may, _) h =
      let free : n ≡ 0 = h.1 may.was_free in
      (omega arith, λ no. absurd (ground (arith, may.now_busy, no)))

  send_first-StateInv :
      (transactional : Bool) (st : PartitionState) (s : Sequences) (pending : List Batch)
      → st.pending ≡ pending
      → StateInv c st
      → StateInv c (send_first identity transactional key st s pending).state
  send_first-StateInv transactional st s [] e h = h
  send_first-StateInv transactional st s (b ∷ bs) e h = record {
    accepting = h.accepting;
    sendable = (subst (All (IsSendable c)) e h.sendable).1;
  }

  pub dispatch_one-StateInv :
      (env : Surroundings) (st : PartitionState) (s : Sequences)
      → StateInv c st
      → StateInv c (dispatch_one env identity key st s).state
  unfolding dispatch_one
  dispatch_one-StateInv env st s h =
      elim (Bool-cases (st.in_flight || (env.transactional && not (env.enrolled key)))) [
        | inl held ↦ rw held h
        | inr free ↦ rw free (send_first-StateInv env.transactional st s st.pending refl h)
      ]

  taken :
      (sent now_sent left before appended : List Queued) (given_up : ℕ)
      → before ≡ now_sent ++ left
      → length appended ≡ length sent + length before + given_up
      → length appended ≡ length (sent ++ now_sent) + length left + given_up
  taken sent now_sent left before appended given_up e h =
      let moved : length before ≡ length (now_sent ++ left) = ap length e in
      omega (arith, length-append sent now_sent, length-append now_sent left)

  dispatch-LifeInv :
      (l : Life) (env : Surroundings) (s : Sequences)
      → LifeInv c l
      → LifeInv c (step c identity key l (dispatch env s))
  unfolding step
  dispatch-LifeInv l env s h =
      let turn = dispatch_one env identity key l.state s in
      let (order, guard) = dispatch_one_lem env identity key l.state s in
      record {
        in_order =
            rw (append_assoc l.sent (sent_records turn.sent) (buffered turn.state), ← order)
              h.in_order;
        one_at_most =
            after-OneAtMost env l.state turn.state turn.sent l.outstanding guard h.one_at_most;
        bounded = dispatch_one-StateInv env l.state s h.bounded;
        conserved =
            taken l.sent (sent_records turn.sent) (buffered turn.state) (buffered l.state)
              l.appended l.given_up order h.conserved;
      }

  step-LifeInv : (l : Life) (e : Event) → LifeInv c l → LifeInv c (step c identity key l e)
  step-LifeInv l (append q now) h = append-LifeInv l q now h
  step-LifeInv l close_now h = close-LifeInv l h
  step-LifeInv l (linger now) h = linger-LifeInv l now h
  step-LifeInv l (expire_at now) h = expire-LifeInv l now h
  step-LifeInv l (fail_with e) h = fail-LifeInv l e h
  step-LifeInv l (fail_closed e) h = fail_closed-LifeInv l e h
  step-LifeInv l (dispatch env s) h = dispatch-LifeInv l env s h
  step-LifeInv l settled h = settled-LifeInv l h

  pub run-LifeInv : (l : Life) (es : List Event) → LifeInv c l → LifeInv c (run c identity key l es)
  unfolding run
  run-LifeInv l [] h = h
  run-LifeInv l (e ∷ es) h = run-LifeInv (step c identity key l e) es (step-LifeInv l e h)

-- With the size bounds below the largest `usize`, after any sequence of appends, closings, linger
-- and deadline sweeps, failures of all buffered or of all closed batches, dispatches and settled sends
-- that starts with an untouched partition: the records sent and then those still buffered are the appended records, in the order
-- of appending, less those that were dropped, which are as many as the callers told so; one sent batch at most is unsettled, and none when
-- the partition is not marked busy; and every buffered batch is within both size bounds or has one
-- record only.
pub run-unborn-LifeInv :
    (c : Config) (sane : IsSane c) (identity : Option ProducerIdentity) (key : TopicPartition)
    (es : List Event)
    → LifeInv c (run c identity key unborn es)
run-unborn-LifeInv c sane identity key es = run-LifeInv c sane identity key unborn es (record {
  in_order = unfold buffered in done;
  one_at_most = (omega arith, λ _. refl);
  bounded = record { accepting = tt; sendable = tt };
  conserved = unfold buffered in refl;
})
