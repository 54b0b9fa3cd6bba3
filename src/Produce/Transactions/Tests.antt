-- ===== src/Produce/Transactions/Tests.antt =====
-- The transactional state of a small producer.
use kaas_lib.Prelude.{if◌then◌else◌, refl, true, none, some, List, [], ◌∷◌}
use kaas_lib.Prelude.Int.{pos, negsuc, eq_ℤ}
use kaas_lib.Prelude.Text.{TopicPartition}
use kaas_lib.Conn.ErrorCode.{producer_fenced}
use kaas_lib.Meta.Retry.Reask.{Result, ok}
use kaas_lib.Conn.Errors.{Error}
use kaas_lib.Produce.Transactions.{State, Texts, fresh_state}
use kaas_lib.Produce.Transactions.Operations.{IdentityResponse, Results, finish_enrol}
use kaas_lib.Produce.Transactions.Laws.{
  Step, inited, began, ended, enrolled, run, Coherent, RefusesAll, run-Coherent, run-RefusesAll,
}
use kaas_lib.Produce.Transactions.Enrolment.{Enrols, finish_enrol_lem}

abbrev texts : Texts
texts = record {
  read_code = λ c. if eq_ℤ c (pos 0) then none else some producer_fenced;
  to_string = λ _. [];
  taken_over = [];
  no_identity = [];
  init_first = [];
  already_open = [];
  not_open = [];
  could_not_add = λ _ _. [];
  could_not_commit = λ _ _. [];
}

abbrev granted : Result Error IdentityResponse
granted = ok (record { error_code = pos 0; producer_id = pos 7; producer_epoch = pos 0 })

abbrev orders : TopicPartition
orders = record { topic = "orders"; partition = pos 0 }

abbrev added : Result Error Results
added = ok (("orders", (pos 0, pos 0) ∷ []) ∷ [])

abbrev taken_over : Result Error IdentityResponse
taken_over = ok (record { error_code = pos 90; producer_id = negsuc 0; producer_epoch = negsuc 0 })

abbrev life : List Step
life = inited granted ∷ began ∷ enrolled (orders ∷ []) added ∷ ended taken_over ∷ []

run-Coherent_example : Coherent texts (run texts life fresh_state)
run-Coherent_example = run-Coherent texts life

abbrev fenced_state : State
fenced_state = record { identity = none; is_open = true; enrolled = []; fenced = true }

run-RefusesAll_example : RefusesAll texts (run texts life fenced_state)
run-RefusesAll_example = run-RefusesAll texts life fenced_state refl

finish_enrol_lem_example :
    Enrols (orders ∷ []) fresh_state (finish_enrol texts (orders ∷ []) added fresh_state)
finish_enrol_lem_example = finish_enrol_lem texts (orders ∷ []) added fresh_state
