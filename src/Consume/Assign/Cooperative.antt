-- ===== src/Consume/Assign/Cooperative.antt =====
-- The cooperative-sticky assignor: what is held, balanced, and withheld for a round.
use kaas_lib.Prelude.{
  ℕ, Bool, true, false, ◌&&◌, if◌then◌else◌, leb, any, filter, map, length, Option, none, some,
  List, [], ◌∷◌, ◌++◌, String,
}
use kaas_lib.Prelude.Int.{ℤ, pos, leb_ℤ}
use kaas_lib.Prelude.Map.{lookup, insert, contains}
use kaas_lib.Prelude.Sort.{place}
use kaas_lib.Prelude.Text.{
  String-discrete, TopicPartition, TopicPartition-discrete, leb_TopicPartition,
}
use kaas_lib.Consume.Assign.{MemberSubscription, subscribes_to, is_text, from_on}

abbrev dec : Discrete TopicPartition
dec = TopicPartition-discrete

-- Every partition of every topic that some member subscribes to, in order.
unfoldable pub all_partitions : List MemberSubscription → List (String × ℕ) → List TopicPartition
all_partitions sorted [] = []
all_partitions sorted ((topic, count) ∷ topics) =
    let rest = all_partitions sorted topics in
    if any (subscribes_to topic) sorted
    then map (λ p. record { topic = topic; partition = pos p }) (from_on 0 count) ++ rest
    else rest

-- Who holds a partition, and the generation it was claimed in.
abbrev pub Owners : Type 0
Owners = List (TopicPartition × (String × ℤ))

-- A claim holds unless one of a generation that is no older does already.
abbrev pub settle_claim :
    MemberSubscription → TopicPartition → Option (String × ℤ) → Owners → Owners
settle_claim m key (some (holder, generation)) owner =
    if leb_ℤ m.generation generation
    then owner
    else insert dec key (m.member_id, m.generation) owner
settle_claim m key none owner = insert dec key (m.member_id, m.generation) owner

unfoldable pub claims_of :
    List TopicPartition → MemberSubscription → List TopicPartition → Owners → Owners
claims_of every m [] owner = owner
claims_of every m (key ∷ owned) owner = claims_of every m owned (
    if contains dec key every && subscribes_to key.topic m
    then settle_claim m key (lookup dec key owner) owner
    else owner)

unfoldable pub owners : List TopicPartition → List MemberSubscription → Owners → Owners
owners every [] owner = owner
owners every (m ∷ sorted) owner = owners every sorted (claims_of every m m.owned owner)

-- What every member holds; a `BTreeSet` is an ascending list.
abbrev pub Held : Type 0
Held = List (String × List TopicPartition)

abbrev pub set_or : Option (List TopicPartition) → List TopicPartition
set_or none = []
set_or (some set) = set

abbrev pub is_holder : String → Option (String × ℤ) → Bool
is_holder member none = false
is_holder member (some (holder, generation)) = is_text holder member

abbrev pub held_by :
    Owners → List TopicPartition → MemberSubscription → String × List TopicPartition
held_by owner every m =
    (m.member_id, filter (λ key. is_holder m.member_id (lookup dec key owner)) every)

abbrev pub size_of : Held → MemberSubscription → ℕ
size_of held m = length (set_or (lookup String-discrete m.member_id held))

-- `min_by_key` of the size and then the id: the members are in the order of their ids.
abbrev pub emptier : Held → MemberSubscription → Option MemberSubscription → MemberSubscription
emptier held m none = m
emptier held m (some other) = if leb (size_of held m) (size_of held other) then m else other

unfoldable pub emptiest : Held → String → List MemberSubscription → Option MemberSubscription
emptiest held topic [] = none
emptiest held topic (m ∷ sorted) =
    let rest = emptiest held topic sorted in
    if subscribes_to topic m then some (emptier held m rest) else rest

abbrev pub add_to : String → TopicPartition → Held → Held
add_to member key held =
    insert String-discrete member
      (place leb_TopicPartition key (set_or (lookup String-discrete member held))) held

abbrev pub fill_one : TopicPartition → Option MemberSubscription → Held → Held
fill_one key none held = held
fill_one key (some m) held = add_to m.member_id key held

abbrev pub is_owned : Option (String × ℤ) → Bool
is_owned none = false
is_owned (some _) = true

-- What nobody holds goes to whoever has the least.
unfoldable pub fill : List MemberSubscription → List TopicPartition → Held → Held
fill sorted [] held = held
fill sorted (key ∷ unowned) held =
    fill sorted unowned (fill_one key (emptiest held key.topic sorted) held)

-- The cooperative step: a partition that another member owns is withheld.
abbrev pub may_keep : String → Option (String × ℤ) → Bool
may_keep member none = true
may_keep member (some (holder, generation)) = is_text holder member

unfoldable pub withhold : Owners → Held → Held
withhold owner [] = []
withhold owner ((member, set) ∷ held) =
    (member, filter (λ key. may_keep member (lookup dec key owner)) set) ∷ withhold owner held
