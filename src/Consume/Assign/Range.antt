-- ===== src/Consume/Assign/Range.antt =====
-- The shares of the range assignor.
use kaas_lib.Prelude.{
  ℕ, zero, suc, ◌+◌, ◌-◌, ◌*◌, ◌/◌, ◌%◌, ◌≤◌, ◌<◌, ◌≡◌, refl, ◌∙◌, ap, if◌then◌else◌, ltb,
  Bool-cases, inl, inr, ◌⊎◌, concat_map, map, length, All, List, [], ◌∷◌, ◌++◌, String, arith,
}
use native.Mathlib.Nat.{mod-lt, zero-lt-suc, div-add-mod}
use kaas_lib.Consume.Assign.{MemberSubscription, from_on, take_of, shares, topic_shares}

from_on-append : (next n m : ℕ) → from_on next n ++ from_on (next + n) m ≡ from_on next (n + m)
unfolding from_on
from_on-append next zero m =
    let start : next + 0 ≡ next = omega arith in
    let all : m ≡ 0 + m = omega arith in ap (λ k. from_on k m) start ∙ ap (from_on next) all
from_on-append next (suc n) m =
    let start : next + suc n ≡ next + 1 + n = omega arith in
    let all : suc (n + m) ≡ suc n + m = omega arith in
    ap (λ k. next ∷ (from_on (next + 1) n ++ from_on k m)) start
    ∙ ap (λ rest. next ∷ rest) (from_on-append (next + 1) n m)
    ∙ ap (from_on next) all

-- How many partitions are left for so many members from an index on.
abbrev left_for : ℕ → ℕ → ℕ → ℕ → ℕ
left_for per_member with_extra index zero = 0
left_for per_member with_extra index (suc n) =
    take_of per_member with_extra index + left_for per_member with_extra (index + 1) n

left_for_lem :
    (per_member with_extra index n : ℕ)
    → with_extra ≤ index + n
    → left_for per_member with_extra index n ≡ n * per_member + (with_extra - index)
left_for_lem per_member with_extra index zero h = omega arith
left_for_lem per_member with_extra index (suc n) h =
    ground (arith, left_for_lem per_member with_extra (index + 1) n (omega arith))

concat-shares :
    (per_member with_extra index next : ℕ) (subscribed : List MemberSubscription)
    → concat_map (λ share. share.1) (shares per_member with_extra index next subscribed)
      ≡ from_on next (left_for per_member with_extra index (length subscribed))
unfolding shares from_on
concat-shares per_member with_extra index next [] = refl
concat-shares per_member with_extra index next (m ∷ subscribed) =
    let take = take_of per_member with_extra index in
    let left = left_for per_member with_extra (index + 1) (length subscribed) in
    ap (λ rest. from_on next take ++ rest)
      (concat-shares per_member with_extra (index + 1) (next + take) subscribed)
    ∙ from_on-append next take left

length-from_on : (next n : ℕ) → length (from_on next n) ≡ n
unfolding from_on
length-from_on next zero = refl
length-from_on next (suc n) = ap suc (length-from_on (next + 1) n)

-- A share is of the size asked for, or one more.
abbrev pub IsEven : ℕ → String × List ℕ → Type 0
IsEven per_member (member, assigned) =
    (length assigned ≡ per_member) ⊎ (length assigned ≡ per_member + 1)

take-IsEven :
    (per_member with_extra index next : ℕ) (member : String)
    → IsEven per_member (member, from_on next (take_of per_member with_extra index))
take-IsEven per_member with_extra index next member = elim (Bool-cases (ltb index with_extra)) [
  | inl early ↦ inr (
      length-from_on next (take_of per_member with_extra index)
      ∙ ap (λ b. per_member + (if b then 1 else 0)) early)
  | inr late ↦ inl (
      length-from_on next (take_of per_member with_extra index)
      ∙ ap (λ b. per_member + (if b then 1 else 0)) late
      ∙ omega arith)
]

shares-IsEven :
    (per_member with_extra index next : ℕ) (subscribed : List MemberSubscription)
    → All (IsEven per_member) (shares per_member with_extra index next subscribed)
unfolding shares
shares-IsEven per_member with_extra index next [] = tt
shares-IsEven per_member with_extra index next (m ∷ subscribed) = (
  take-IsEven per_member with_extra index next m.member_id,
  shares-IsEven per_member with_extra (index + 1) (next + take_of per_member with_extra index)
      subscribed,
)

abbrev pub names_of : List (String × List ℕ) → List String
names_of given = map (λ share. share.0) given

abbrev pub ids_of : List MemberSubscription → List String
ids_of members = map (λ m. m.member_id) members

shares-names :
    (per_member with_extra index next : ℕ) (subscribed : List MemberSubscription)
    → names_of (shares per_member with_extra index next subscribed) ≡ ids_of subscribed
unfolding shares
shares-names per_member with_extra index next [] = refl
shares-names per_member with_extra index next (m ∷ subscribed) =
    ap (λ rest. m.member_id ∷ rest)
      (shares-names per_member with_extra (index + 1) (next + take_of per_member with_extra index)
        subscribed)

-- Of the members subscribed to a topic, if there is one, each is given one share of the topic's
-- partitions, in the members' order: the shares, one after another, are all its partitions in order, so
-- each is given once, and the sizes of the shares differ by one at most.
pub topic_shares_lem :
    (count : ℕ) (m : MemberSubscription) (subscribed : List MemberSubscription)
    → let given = topic_shares count (m ∷ subscribed) in
      (names_of given ≡ ids_of (m ∷ subscribed))
      × (concat_map (λ share. share.1) given ≡ from_on 0 count)
      × All (IsEven (count / length (m ∷ subscribed))) given
topic_shares_lem count m subscribed =
    let n = length (m ∷ subscribed) in
    let below : count % n < n = mod-lt count (zero-lt-suc (length subscribed)) in
    let parts = div-add-mod count n in
    let less : count % n - 0 ≡ count % n = omega arith in
    let sum = left_for_lem (count / n) (count % n) 0 n (omega (arith, below)) in
    let whole : left_for (count / n) (count % n) 0 n ≡ count =
      sum ∙ ap (λ r. n * (count / n) + r) less ∙ parts in
    (
      shares-names (count / n) (count % n) 0 0 (m ∷ subscribed),
      concat-shares (count / n) (count % n) 0 0 (m ∷ subscribed) ∙ ap (from_on 0) whole,
      shares-IsEven (count / n) (count % n) 0 0 (m ∷ subscribed),
    )
