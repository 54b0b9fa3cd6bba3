-- ===== src/Produce/Transactions/Operations.antt =====
-- The operations: their checks, their requests, their completions, and each of them undisturbed.
use kaas_lib.Prelude.{
  Option, none, some, List, [], ◌∷◌, map, true, false, not, ◌&&◌, if◌then◌else◌, is_empty, filter,
  concat_map, String,
}
use kaas_lib.Prelude.Int.{ℤ, pos, eq_ℤ, leb_ℤ}
use kaas_lib.Prelude.Map.{contains, set_insert}
use kaas_lib.Prelude.Text.{TopicPartition, TopicPartition-discrete}
use kaas_lib.Conn.Errors.{Error, invalid_request, from_code}
use kaas_lib.Conn.Sanitize.{Text}
use kaas_lib.Meta.Retry.Reask.{Result, ok, err}
use kaas_lib.Produce.Idempotence.{ProducerIdentity}
use kaas_lib.Produce.Transactions.{
  State, Texts, check_live, check_open, claimed, note, call, by_topic,
}

-- `InitProducerIdResponse` and `EndTxnResponse`.
pub record IdentityResponse : Type 0 where
  pub error_code : ℤ
  pub producer_id : ℤ
  pub producer_epoch : ℤ

abbrev pub identity_of : IdentityResponse → ProducerIdentity
identity_of r = record { producer_id = r.producer_id; producer_epoch = r.producer_epoch }

-- The answers by topic and partition of `AddPartitionsToTxn` and of `TxnOffsetCommit`.
abbrev pub Results : Type 0
Results = List (String × List (ℤ × ℤ))

-- `AddOffsetsToTxnResponse`
pub record PlainResponse : Type 0 where
  pub error_code : ℤ

-- `find(|code| code != 0).unwrap_or(0)`
abbrev pub first_nonzero : List ℤ → ℤ
first_nonzero [] = pos 0
first_nonzero (code ∷ codes) = if eq_ℤ code (pos 0) then first_nonzero codes else code

abbrev pub codes_of : Results → List ℤ
codes_of results =
    concat_map (λ (topic, partitions). map (λ (index, code). code) partitions) results

-- The partitions of an open transaction that the coordinator has not been told about.
unfoldable pub unenrolled : State → List TopicPartition → List TopicPartition
unenrolled s partitions =
    if s.is_open
    then filter (λ key. not (contains TopicPartition-discrete key s.enrolled)) partitions
    else []

abbrev pub enrol_all : List TopicPartition → List TopicPartition → List TopicPartition
enrol_all [] enrolled = enrolled
enrol_all (key ∷ partitions) enrolled =
    enrol_all partitions (set_insert TopicPartition-discrete key enrolled)

-- The producer id and epoch for the next transaction, if the broker sends them.
abbrev pub next_identity : IdentityResponse → Option ProducerIdentity → Option ProducerIdentity
next_identity r kept =
    if leb_ℤ (pos 0) r.producer_id && leb_ℤ (pos 0) r.producer_epoch
    then some (identity_of r)
    else kept

module _ (t : Texts) where
  open t use {
    read_code, to_string, no_identity, init_first, already_open, could_not_add, could_not_commit,
  }

  -- After the request of `init`.
  abbrev pub claim : Result Error IdentityResponse × State → Result Error Unit × State
  claim (err e, s) = (err e, s)
  claim (ok r, s) =
      (ok tt, record s { identity = some (identity_of r); enrolled = []; is_open = false })

  unfoldable pub finish_init : Result Error IdentityResponse → State → Result Error Unit × State
  finish_init answer s = claim (call t (λ r. r.error_code) answer s)

  abbrev pub open_with : Option ProducerIdentity → State → Result Error Unit × State
  open_with none s = (err (invalid_request init_first), s)
  open_with (some identity) s =
      if s.is_open
      then (err (invalid_request already_open), s)
      else (ok tt, record s { is_open = true; enrolled = [] })

  unfoldable pub begin : State → Result Error Unit × State
  begin s = if s.fenced then (check_live t s (ok tt), s) else open_with s.identity s

  -- The first partition that was refused, with its own text.
  abbrev pub refused_in : (String → ℤ → Text) → String → List (ℤ × ℤ) → Option Error
  refused_in text topic [] = none
  refused_in text topic ((index, code) ∷ partitions) = elim (read_code code) [
    | some c ↦ some (from_code to_string c (some (text topic index)))
    | none ↦ refused_in text topic partitions
  ]

  abbrev pub refused : (String → ℤ → Text) → Results → Option Error
  refused text [] = none
  refused text ((topic, partitions) ∷ results) = elim (refused_in text topic partitions) [
    | some e ↦ some e
    | none ↦ refused text results
  ]

  abbrev pub unless_refused : Option Error → (State → State) → State → Result Error Unit × State
  unless_refused (some e) done s = (err e, note e s)
  unless_refused none done s = (ok tt, done s)

  -- Every partition's own code, after the whole answer was judged.
  abbrev pub each_partition :
      (String → ℤ → Text)
      → (State → State)
      → Result Error Results × State
      → Result Error Unit × State
  each_partition text done (err e, s) = (err e, s)
  each_partition text done (ok results, s) = unless_refused (refused text results) done s

  unfoldable pub finish_enrol :
      List TopicPartition → Result Error Results → State → Result Error Unit × State
  finish_enrol partitions answer s =
      each_partition could_not_add (λ s'. record s' { enrolled = enrol_all partitions s'.enrolled })
        (call t (λ results. first_nonzero (codes_of results)) answer s)

  -- `send_offsets`: the transaction's coordinator first, and the group's only if that one agreed.
  unfoldable pub finish_add_offsets :
      Result Error PlainResponse → State → Result Error PlainResponse × State
  finish_add_offsets answer s = call t (λ r. r.error_code) answer s

  unfoldable pub finish_commit_offsets : Result Error Results → State → Result Error Unit × State
  finish_commit_offsets answer s =
      each_partition could_not_commit (λ s'. s')
        (call t (λ results. first_nonzero (codes_of results)) answer s)

  abbrev pub close : Result Error IdentityResponse × State → Result Error Unit × State
  close (err e, s) = (err e, s)
  close (ok r, s) =
      (ok tt, record s { identity = next_identity r s.identity; is_open = false; enrolled = [] })

  unfoldable pub finish_end : Result Error IdentityResponse → State → Result Error Unit × State
  finish_end answer s = close (call t (λ r. r.error_code) answer s)

  -- The operations as they run when nothing comes between: the check, the request, the completion.
  abbrev pub checked :
      {A : Type 0}
      → Result Error A
      → (A → State → Result Error Unit × State)
      → State
      → Result Error Unit × State
  checked (err e) rest s = (err e, s)
  checked (ok a) rest s = rest a s

  unfoldable pub init : Result Error IdentityResponse → State → Result Error Unit × State
  init answer s = checked (check_live t s (ok tt)) (λ _. finish_init answer) s

  unfoldable pub enrol :
      List TopicPartition
      → (ProducerIdentity → List (String × List ℤ) → Result Error Results)
      → State
      → Result Error Unit × State
  enrol partitions ask s =
      if is_empty partitions
      then (ok tt, s)
      else checked (check_live t s (claimed t no_identity s.identity))
          (λ identity.
            finish_enrol partitions
              (ask identity (by_topic [] (map (λ key. (key.topic, key.partition)) partitions))))
          s

  abbrev pub then_commit :
      Result Error Results → Result Error PlainResponse × State → Result Error Unit × State
  then_commit commit (err e, s) = (err e, s)
  then_commit commit (ok _, s) = finish_commit_offsets commit s

  unfoldable pub send_offsets :
      List (TopicPartition × ℤ)
      → (ProducerIdentity → Result Error PlainResponse)
      → (ProducerIdentity → List (String × List (ℤ × ℤ)) → Result Error Results)
      → State
      → Result Error Unit × State
  send_offsets offsets add commit s =
      checked (check_open t s)
        (λ identity s'.
          then_commit
            (commit identity
              (by_topic [] (map (λ (key, offset). (key.topic, (key.partition, offset))) offsets)))
            (finish_add_offsets (add identity) s'))
        s

  unfoldable pub end :
      (ProducerIdentity → Result Error IdentityResponse) → State → Result Error Unit × State
  end ask s = checked (check_open t s) (λ identity. finish_end (ask identity)) s
