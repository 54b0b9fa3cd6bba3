-- ===== src/Produce/Transactions/Enrolment.antt =====
-- What enrolling a list of partitions makes of the ones that a transaction has yet to enrol.
use kaas_lib.Prelude.{
  Option, none, some, List, [], ◌∷◌, ◌≡◌, refl, Bool, not, ◌&&◌, ◌||◌, if_cases, arith,
}
use kaas_lib.Prelude.Map.{contains, contains-filter, set_insert, contains-set_insert}
use kaas_lib.Prelude.Text.{TopicPartition, TopicPartition-discrete}
use kaas_lib.Conn.ErrorCode.{ErrorCode}
use kaas_lib.Conn.Errors.{Error, code_of, from_code}
use kaas_lib.Meta.Retry.Reask.{Result, ok, err}
use kaas_lib.Produce.Transactions.{State, Texts, note, is_fencing, call, judge_code}
use kaas_lib.Produce.Transactions.Operations.{
  Results, codes_of, first_nonzero, unenrolled, enrol_all, finish_enrol, each_partition,
  unless_refused, refused,
}

abbrev has : TopicPartition → List TopicPartition → Bool
has = contains TopicPartition-discrete

-- What enrolling adds.
contains-enrol_all :
    (k : TopicPartition) (keys known : List TopicPartition)
    → has k (enrol_all keys known) ≡ has k known || has k keys
unfolding contains
contains-enrol_all k [] known = ground arith
contains-enrol_all k (j ∷ keys) known = ground (
  arith,
  contains-enrol_all k keys (set_insert TopicPartition-discrete j known),
  contains-set_insert TopicPartition-discrete j k known,
)

unenrolled_lem :
    (k : TopicPartition) (s : State) (asked : List TopicPartition)
    → has k (unenrolled s asked) ≡ (s.is_open && has k asked) && not (has k s.enrolled)
unfolding unenrolled contains
unenrolled_lem k s asked =
    ground
      (arith, contains-filter TopicPartition-discrete k (λ key. not (has key s.enrolled)) asked)

-- How an enrolment of the keys may end.
abbrev pub Enrols : List TopicPartition → State → Result Error Unit × State → Type 0
Enrols keys s (err e, s') = s'.enrolled ≡ s.enrolled
Enrols keys s (ok _, s') =
    (asked : List TopicPartition) (k : TopicPartition)
    → has k (unenrolled s' asked) ≡ has k (unenrolled s asked) && not (has k keys)

module _ (t : Texts) (keys : List TopicPartition) where
  note_lem : (e : Error) (s : State) → (note e s).enrolled ≡ s.enrolled
  unfolding note
  note_lem e s =
      if_cases {A = State} (λ s'. s'.enrolled ≡ s.enrolled) (is_fencing (code_of e)) (λ _. refl)
        (λ _. refl)

  abbrev add : State → State
  add s = record s { enrolled = enrol_all keys s.enrolled }

  add_lem : (s : State) → Enrols keys s (ok tt, add s)
  add_lem s asked k = ground (
    arith,
    unenrolled_lem k s asked,
    unenrolled_lem k (add s) asked,
    contains-enrol_all k keys s.enrolled,
  )

  unless_refused_lem : (o : Option Error) (s : State) → Enrols keys s (unless_refused t o add s)
  unless_refused_lem (some e) s = note_lem e s
  unless_refused_lem none s = add_lem s

  judged_lem :
      (c : Option ErrorCode) (r : Results) (s : State)
      → Enrols keys s (
          each_partition t t.could_not_add add
            (judge_code t (λ results. first_nonzero (codes_of results)) c r s))
  judged_lem none r s = unless_refused_lem (refused t t.could_not_add r) s
  judged_lem (some c) r s = note_lem (from_code t.to_string c none) s

  -- An enrolment that fails enrols nothing. After one that succeeds, the partitions of an open
  -- transaction that are still to be enrolled are those from before less the ones just enrolled.
  pub finish_enrol_lem :
      (a : Result Error Results) (s : State) → Enrols keys s (finish_enrol t keys a s)
  unfolding finish_enrol call
  finish_enrol_lem (err e) s = refl
  finish_enrol_lem (ok r) s = judged_lem (t.read_code (first_nonzero (codes_of r))) r s
