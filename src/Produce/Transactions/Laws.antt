-- ===== src/Produce/Transactions/Laws.antt =====
-- What holds of the transactional state after any interleaving of completions.
use kaas_lib.Prelude.{
  String, Option, none, some, List, [], ◌∷◌, ◌≡◌, refl, true, false, Bool-cases, if_cases, inl, inr,
}
use kaas_lib.Prelude.Int.{ℤ}
use kaas_lib.Prelude.Text.{TopicPartition}
use kaas_lib.Conn.Sanitize.{Text}
use kaas_lib.Conn.ErrorCode.{ErrorCode}
use kaas_lib.Conn.Errors.{Error, code_of, from_code}
use kaas_lib.Meta.Retry.Reask.{Result, ok, err}
use kaas_lib.Produce.Idempotence.{ProducerIdentity}
use kaas_lib.Produce.Transactions.{
  State, Texts, fresh_state, fenced_error, check_open, is_fencing, note, call, judge_code,
}
use kaas_lib.Produce.Transactions.Operations.{
  IdentityResponse, PlainResponse, Results, finish_init, claim, begin, open_with, finish_enrol,
  each_partition, unless_refused, refused, enrol_all, finish_add_offsets, finish_commit_offsets,
  finish_end, close, init, enrol, send_offsets, end, codes_of, first_nonzero, next_identity,
}

-- What changes the state, in any order: the completions of requests, and `begin`.
pub data Step : Type 0 where
  inited : Result Error IdentityResponse → Step
  began : Step
  enrolled : List TopicPartition → Result Error Results → Step
  offsets_added : Result Error PlainResponse → Step
  offsets_committed : Result Error Results → Step
  ended : Result Error IdentityResponse → Step

module _ (t : Texts) where
  abbrev pub step : Step → State → State
  step (inited a) s = (finish_init t a s).1
  step began s = (begin t s).1
  step (enrolled partitions a) s = (finish_enrol t partitions a s).1
  step (offsets_added a) s = (finish_add_offsets t a s).1
  step (offsets_committed a) s = (finish_commit_offsets t a s).1
  step (ended a) s = (finish_end t a s).1

  abbrev pub run : List Step → State → State
  run [] s = s
  run (e ∷ es) s = run es (step e s)

  -- A property of states that a note, and each completion, keeps.
  pub record IsKept (P : State → Type 0) : Type 0 where
    pub noted : (s : State) → P s → P (record s { fenced = true; is_open = false })
    pub claimed :
        (s : State) (identity : ProducerIdentity)
        → P s
        → P (record s { identity = some identity; enrolled = []; is_open = false })
    pub opened :
        (s : State) (identity : ProducerIdentity)
        → s.identity ≡ some identity
        → s.fenced ≡ false
        → P s
        → P (record s { is_open = true; enrolled = [] })
    pub recorded : (s : State) (keys : List TopicPartition) → P s → P (record s { enrolled = keys })
    pub closed :
        (s : State) (o : Option ProducerIdentity)
        → P s
        → P (record s { identity = o; is_open = false; enrolled = [] })

  module _ {P : State → Type 0} (kept : IsKept P) where
    note-kept : (e : Error) (s : State) → P s → P (note e s)
    unfolding note
    note-kept e s h = elim (Bool-cases (is_fencing (code_of e))) [
      | inl fencing ↦ rw fencing (kept.noted s h)
      | inr other ↦ rw other h
    ]

    module _ {R : Type 0} (code : R → ℤ) where
      judge_code-kept :
          (c : Option ErrorCode) (r : R) (s : State) → P s → P (judge_code t code c r s).1
      judge_code-kept none r s h = h
      judge_code-kept (some c) r s h = note-kept (from_code t.to_string c none) s h

      call-kept : (a : Result Error R) (s : State) → P s → P (call t code a s).1
      unfolding call
      call-kept (err e) s h = h
      call-kept (ok r) s h = judge_code-kept (t.read_code (code r)) r s h

    claim-kept : (r : Result Error IdentityResponse × State) → P r.1 → P (claim t r).1
    claim-kept (err e, s) h = h
    claim-kept (ok r, s) h =
        kept.claimed s (record { producer_id = r.producer_id; producer_epoch = r.producer_epoch }) h

    close-kept : (r : Result Error IdentityResponse × State) → P r.1 → P (close t r).1
    close-kept (err e, s) h = h
    close-kept (ok r, s) h = kept.closed s (next_identity r s.identity) h

    open_with-kept :
        (o : Option ProducerIdentity) (s : State)
        → s.identity ≡ o
        → s.fenced ≡ false
        → P s
        → P (open_with t o s).1
    open_with-kept none s e live h = h
    open_with-kept (some identity) s e live h =
        if_cases {A = Result Error Unit × State} (λ r. P r.1) s.is_open (λ _. h)
          (λ _. kept.opened s identity e live h)

    begin-kept : (s : State) → P s → P (begin t s).1
    unfolding begin
    begin-kept s h =
        if_cases {A = Result Error Unit × State} (λ r. P r.1) s.fenced (λ _. h)
          (λ live. open_with-kept s.identity s refl live h)

    unless_refused-kept :
        (o : Option Error) (done : State → State) (s : State)
        → (P s → P (done s))
        → P s
        → P (unless_refused t o done s).1
    unless_refused-kept (some e) done s d h = note-kept e s h
    unless_refused-kept none done s d h = d h

    each_partition-kept :
        (text : String → ℤ → Text) (done : State → State) (r : Result Error Results × State)
        → ((s : State) → P s → P (done s))
        → P r.1
        → P (each_partition t text done r).1
    each_partition-kept text done (err e, s) d h = h
    each_partition-kept text done (ok results, s) d h =
        unless_refused-kept (refused t text results) done s (d s) h

    pub step-kept : (e : Step) (s : State) → P s → P (step e s)
    unfolding finish_init finish_enrol finish_add_offsets finish_commit_offsets finish_end
    step-kept (inited a) s h =
        claim-kept (call t (λ r. r.error_code) a s) (call-kept (λ r. r.error_code) a s h)
    step-kept began s h = begin-kept s h
    step-kept (enrolled partitions a) s h =
        each_partition-kept t.could_not_add
          (λ s'. record s' { enrolled = enrol_all partitions s'.enrolled })
          (call t (λ results. first_nonzero (codes_of results)) a s)
          (λ s'. kept.recorded s' (enrol_all partitions s'.enrolled))
          (call-kept (λ results. first_nonzero (codes_of results)) a s h)
    step-kept (offsets_added a) s h = call-kept (λ r. r.error_code) a s h
    step-kept (offsets_committed a) s h =
        each_partition-kept t.could_not_commit (λ s'. s')
          (call t (λ results. first_nonzero (codes_of results)) a s) (λ s' h'. h')
          (call-kept (λ results. first_nonzero (codes_of results)) a s h)
    step-kept (ended a) s h =
        close-kept (call t (λ r. r.error_code) a s) (call-kept (λ r. r.error_code) a s h)

    pub run-kept : (es : List Step) (s : State) → P s → P (run es s)
    run-kept [] s h = h
    run-kept (e ∷ es) s h = run-kept es (step e s) (step-kept e s h)

  -- A fenced state has nothing open, and an open transaction has an identity.
  pub record Coherent (s : State) : Type 0 where
    pub fenced_shut : s.fenced ≡ true → s.is_open ≡ false
    pub open_claimed :
        s.is_open ≡ true → (identity : ProducerIdentity) × (s.identity ≡ some identity)

  Coherent-IsKept : IsKept Coherent
  Coherent-IsKept = record {
    noted = λ s h. record { fenced_shut = λ _. refl; open_claimed = λ e. absurd (cc) };
    claimed =
        λ s identity h. record { fenced_shut = λ _. refl; open_claimed = λ e. (identity, refl) };
    opened = λ s identity e live h. record {
      fenced_shut = λ f. absurd (cc);
      open_claimed = λ _. (identity, e);
    };
    recorded = λ s keys h. record { fenced_shut = h.fenced_shut; open_claimed = h.open_claimed };
    closed = λ s o h. record { fenced_shut = λ _. refl; open_claimed = λ e. absurd (cc) };
  }

  -- After any completions and begins in any order from a new producer, a fenced state has no open
  -- transaction, and an open transaction has a claimed identity.
  pub run-Coherent : (es : List Step) → Coherent (run es fresh_state)
  run-Coherent es =
      run-kept Coherent-IsKept es fresh_state
        (record { fenced_shut = λ f. refl; open_claimed = λ e. absurd (cc) })

  fenced-IsKept : IsKept (λ s. s.fenced ≡ true)
  fenced-IsKept = record {
    noted = λ s h. refl;
    claimed = λ s identity h. h;
    opened = λ s identity e live h. h;
    recorded = λ s keys h. h;
    closed = λ s o h. h;
  }

  -- Every operation fails with the same error, changes nothing and asks nothing.
  abbrev pub RefusesAll : State → Type 0
  RefusesAll s =
      (begin t s ≡ (err (fenced_error t), s))
      × ((a : Result Error IdentityResponse) → init t a s ≡ (err (fenced_error t), s))
      × ((a : ProducerIdentity → Result Error IdentityResponse)
          → end t a s ≡ (err (fenced_error t), s))
      × ((key : TopicPartition) (keys : List TopicPartition)
            (ask : ProducerIdentity → List (String × List ℤ) → Result Error Results)
          → enrol t (key ∷ keys) ask s ≡ (err (fenced_error t), s))
      × ((offsets : List (TopicPartition × ℤ)) (add : ProducerIdentity → Result Error PlainResponse)
            (commit : ProducerIdentity → List (String × List (ℤ × ℤ)) → Result Error Results)
          → send_offsets t offsets add commit s ≡ (err (fenced_error t), s))

  fenced-RefusesAll : (s : State) → s.fenced ≡ true → RefusesAll s
  unfolding begin init end enrol send_offsets check_open
  fenced-RefusesAll s h = (
    rw h refl,
    λ a. rw h refl,
    λ a. rw h refl,
    λ key keys ask. rw h refl,
    λ offsets add commit. rw h refl,
  )

  -- A fenced producer stays fenced: after any completions and begins in any order, begin, init and
  -- end, the enrolment of any partition, and the sending of any offsets fail with the fencing error,
  -- change nothing and ask no coordinator.
  pub run-RefusesAll : (es : List Step) (s : State) → s.fenced ≡ true → RefusesAll (run es s)
  run-RefusesAll es s h = fenced-RefusesAll (run es s) (run-kept fenced-IsKept es s h)
