-- ===== src/Consume/Assign/Balance.antt =====
-- `balance`, and the cooperative-sticky assignment as a whole.
use kaas_lib.Prelude.{
  ℕ, zero, suc, ◌+◌, ◌*◌, Bool, true, false, not, if◌then◌else◌, leb, ◌==◌, filter, map, length,
  sum_by, All, if_cases, ◌≡◌, refl, ap, subst, ◌∙◌, is_yes, ◌⊎◌, inl, inr, Option, none, some, List,
  [], ◌∷◌, ◌++◌, String,
}
use kaas_lib.Prelude.Int.{ℤ, pos_part}
use kaas_lib.Prelude.Map.{lookup, insert}
use kaas_lib.Prelude.Sort.{sort}
use kaas_lib.Prelude.Text.{String-discrete, leb_String, TopicPartition, TopicPartition-discrete}
use kaas_lib.Consume.Assign.{
  MemberSubscription, subscribes_to, by_member_id, is_text, Plan, partitions_or, assign_range,
  assign_round_robin,
}
use kaas_lib.Consume.Assign.Cooperative.{
  Owners, Held, set_or, held_by, add_to, is_owned, fill, owners, all_partitions, may_keep, withhold,
}
use kaas_lib.Consume.Assign.Owners.Sorted.{Settled-sort}
use kaas_lib.Consume.Assign.Owners.{claims, ClaimsNewest, Settled, owners-Settled}

-- `b.1.cmp(&a.1).then_with(|| a.0.cmp(b.0))`: the fullest first, then by id.
abbrev pub by_size : String × List TopicPartition → String × List TopicPartition → Bool
by_size (a, xs) (b, ys) =
    if length xs == length ys then leb_String a b else leb (length ys) (length xs)

abbrev pub reversed : Held → Held
reversed [] = []
reversed (h ∷ held) = reversed held ++ (h ∷ [])

-- The first member, from the emptiest on, that is at least two behind.
abbrev pub behind : ℕ → Held → Option String
behind size [] = none
behind size ((member, set) ∷ held) =
    if leb size (length set + 1) then behind size held else some member

abbrev pub or_gap :
    Option String
    → String × List TopicPartition
    → Option (String × List TopicPartition × String)
    → Option (String × List TopicPartition × String)
or_gap (some emptiest) (fullest, set) rest = some (fullest, set, emptiest)
or_gap none h rest = rest

-- The first pair that is at least two apart.
unfoldable pub first_gap : Held → Held → Option (String × List TopicPartition × String)
first_gap from_emptiest [] = none
first_gap from_emptiest (h ∷ held) =
    or_gap (behind (length h.1) from_emptiest) h (first_gap from_emptiest held)

abbrev pub find_member : String → List MemberSubscription → Option MemberSubscription
find_member member [] = none
find_member member (m ∷ members) =
    if is_text m.member_id member then some m else find_member member members

abbrev pub find_taken : MemberSubscription → List TopicPartition → Option TopicPartition
find_taken m [] = none
find_taken m (key ∷ set) = if subscribes_to key.topic m then some key else find_taken m set

abbrev pub move_to :
    Option MemberSubscription
    → String
    → List TopicPartition
    → String
    → Option (String × String × TopicPartition)
move_to none fullest set emptiest = none
move_to (some m) fullest set emptiest = elim (find_taken m set) [
  | none ↦ none
  | some key ↦ some (fullest, emptiest, key)
]

abbrev pub move_in :
    List MemberSubscription
    → Option (String × List TopicPartition × String)
    → Option (String × String × TopicPartition)
move_in members none = none
move_in members (some (fullest, set, emptiest)) =
    move_to (find_member emptiest members) fullest set emptiest

-- The partition to move, if that pair has one that may be.
unfoldable pub imbalance :
    List MemberSubscription → Held → Option (String × String × TopicPartition)
imbalance members held =
    let sizes = sort by_size held in move_in members (first_gap (reversed sizes) sizes)

abbrev pub is_same : TopicPartition → TopicPartition → Bool
is_same a b = is_yes (TopicPartition-discrete a b)

abbrev pub take_from : String → TopicPartition → Held → Held
take_from member key held =
    insert String-discrete member
      (filter (λ k. not (is_same k key)) (set_or (lookup String-discrete member held))) held

unfoldable pub balance_rounds : ℕ → List MemberSubscription → Held → Held
balance_rounds zero members held = held
balance_rounds (suc rounds) members held = elim (imbalance members held) [
  | none ↦ held
  | some (fullest, emptiest, key) ↦
      balance_rounds rounds members (add_to emptiest key (take_from fullest key held))
]

-- At most twice as many rounds as there are partitions held.
unfoldable pub balance : List MemberSubscription → Held → Held
balance members held = balance_rounds (sum_by (λ h. length h.1) held * 2) members held

-- The set of every member after the cooperative step.
unfoldable pub cooperative_sets : List MemberSubscription → List (String × ℕ) → Held
cooperative_sets members partitions_per_topic =
    let sorted = sort by_member_id members in
    let every = all_partitions sorted partitions_per_topic in
    let owner = owners every sorted [] in
    let held = map (held_by owner every) sorted in
    let unowned = filter (λ key. not (is_owned (lookup TopicPartition-discrete key owner))) every in
    withhold owner (balance sorted (fill sorted unowned held))

-- `topics.entry(topic).or_default().push(partition)`
unfoldable pub by_topic : List TopicPartition → List (String × List ℕ) → List (String × List ℕ)
by_topic [] topics = topics
by_topic (key ∷ set) topics = by_topic set (
    insert String-discrete key.topic
      (partitions_or (lookup String-discrete key.topic topics) ++ (pos_part key.partition ∷ []))
      topics)

unfoldable pub assign_cooperative_sticky : List MemberSubscription → List (String × ℕ) → Plan
assign_cooperative_sticky members partitions_per_topic =
    map (λ (member, set). (member, by_topic set [])) (cooperative_sets members partitions_per_topic)

-- The assignment of the named protocol; an unknown name is `range`.
unfoldable pub assign : String → List MemberSubscription → List (String × ℕ) → Plan
assign protocol members partitions_per_topic =
    if is_text protocol "roundrobin"
    then assign_round_robin members partitions_per_topic
    else if is_text protocol "cooperative-sticky"
    then assign_cooperative_sticky members partitions_per_topic
    else assign_range members partitions_per_topic

-- Nobody owns the partition, or the member itself does.
abbrev IsFree : Owners → String → TopicPartition → Type 0
IsFree owner member key =
    (lookup TopicPartition-discrete key owner ≡ none)
    ⊎ ((generation : ℤ) × (lookup TopicPartition-discrete key owner ≡ some (member, generation)))

yes_eq : {A : Type 0} (d : Dec A) → is_yes d ≡ true → A
yes_eq (yes a) h = a
yes_eq (no _) h = absurd (cc)

is_text-eq : (a b : String) → is_text a b ≡ true → a ≡ b
is_text-eq a b h = yes_eq (String-discrete a b) h

may_keep-IsFree :
    (owner : Owners) (member : String) (key : TopicPartition) (o : Option (String × ℤ))
    → lookup TopicPartition-discrete key owner ≡ o
    → may_keep member o ≡ true
    → IsFree owner member key
may_keep-IsFree owner member key none e h = inl e
may_keep-IsFree owner member key (some (holder, generation)) e h =
    inr (generation, e ∙ ap (λ who. some (who, generation)) (is_text-eq holder member h))

module _ (owner : Owners) where
  kept-IsFree :
      (member : String) (set : List TopicPartition)
      → All
          (IsFree owner member)
          (filter (λ key. may_keep member (lookup TopicPartition-discrete key owner)) set)
  kept-IsFree member [] = tt
  kept-IsFree member (key ∷ set) =
      if_cases (All (IsFree owner member))
        (may_keep member (lookup TopicPartition-discrete key owner))
        (λ h. (
          may_keep-IsFree owner member key (lookup TopicPartition-discrete key owner) refl h,
          kept-IsFree member set,
        ))
        (λ _. kept-IsFree member set)

  withhold-IsFree : (held : Held) → All (λ h. All (IsFree owner h.0) h.1) (withhold owner held)
  unfolding withhold
  withhold-IsFree [] = tt
  withhold-IsFree ((member, set) ∷ held) = (kept-IsFree member set, withhold-IsFree held)

-- A member may be given a partition if no member has a claim on it, or if it has one and no member
-- has a newer one.
abbrev pub MayHave :
    List TopicPartition → List MemberSubscription → String → TopicPartition → Type 0
MayHave every members member key =
    All (λ m. claims every key m ≡ false) members ⊎ ClaimsNewest every key member members

IsFree-MayHave :
    (every : List TopicPartition) (members : List MemberSubscription) (member : String)
    (key : TopicPartition)
    → IsFree (owners every (sort by_member_id members) []) member key
    → MayHave every members member key
IsFree-MayHave every members member key free =
    let verdict =
      Settled-sort every key by_member_id
        (lookup TopicPartition-discrete key (owners every (sort by_member_id members) [])) members
        (owners-Settled every key (sort by_member_id members)) in
    elim free [
      | inl nobody ↦ inl (subst (λ o. Settled every key o members) nobody verdict)
      | inr (generation, own) ↦ inr (subst (λ o. Settled every key o members) own verdict)
    ]

All-mono :
    {A : Type 0} (P Q : A → Type 0) → ((x : A) → P x → Q x) → (xs : List A) → All P xs → All Q xs
All-mono P Q f [] h = tt
All-mono P Q f (x ∷ xs) h = (f x h.0, All-mono P Q f xs h.1)

-- In one round of the cooperative-sticky assignor, however the balancing moved the partitions, a member
-- is only given those that no member has a claim on, and those that it claims itself where no member's
-- claim is of a newer generation. A claim counts if its partition exists and the member subscribes to the
-- topic.
pub cooperative_sets-MayHave :
    (members : List MemberSubscription) (partitions_per_topic : List (String × ℕ))
    → let every = all_partitions (sort by_member_id members) partitions_per_topic in
      All (λ h. All (MayHave every members h.0) h.1) (cooperative_sets members partitions_per_topic)
unfolding cooperative_sets
cooperative_sets-MayHave members partitions_per_topic =
    let sorted = sort by_member_id members in
    let every = all_partitions sorted partitions_per_topic in
    let owner = owners every sorted [] in
    let held = map (held_by owner every) sorted in
    let unowned = filter (λ key. not (is_owned (lookup TopicPartition-discrete key owner))) every in
    let filled = balance sorted (fill sorted unowned held) in
    All-mono (λ h. All (IsFree owner h.0) h.1) (λ h. All (MayHave every members h.0) h.1)
      (λ h.
        All-mono (IsFree owner h.0) (MayHave every members h.0)
          (λ key. IsFree-MayHave every members h.0 key) h.1)
      (withhold owner filled) (withhold-IsFree owner filled)
