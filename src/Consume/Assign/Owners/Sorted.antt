-- ===== src/Consume/Assign/Owners/Sorted.antt =====
-- What the claims settle does not depend on the order in which the members are listed.
use kaas_lib.Prelude.{
  ◌≡◌, false, if_cases, inl, inr, Option, none, some, List, [], ◌∷◌, Bool, String,
}
use kaas_lib.Prelude.Int.{ℤ}
use kaas_lib.Prelude.Sort.{place, sort, All-sort}
use kaas_lib.Prelude.Text.{TopicPartition}
use kaas_lib.Consume.Assign.{MemberSubscription}
use kaas_lib.Consume.Assign.Owners.{claims, Claimed, NoNewer, Settled}

module _ (every : List TopicPartition) (key : TopicPartition) where
  Claimed-place :
      (before : MemberSubscription → MemberSubscription → Bool) (holder : String) (generation : ℤ)
      (m : MemberSubscription) (members : List MemberSubscription)
      → Claimed every key holder generation (place before m members)
      → Claimed every key holder generation (m ∷ members)
  unfolding place
  Claimed-place before holder generation m [] h = h
  Claimed-place before holder generation m (n ∷ members) h =
      if_cases
        (λ ms.
          Claimed every key holder generation ms
          → Claimed every key holder generation (m ∷ n ∷ members))
        (before m n) (λ _ c. c)
        (λ _ c. elim c [
          | inl here ↦ inr (inl here)
          | inr later ↦ elim (Claimed-place before holder generation m members later) [
            | inl here ↦ inl here
            | inr rest ↦ inr (inr rest)
          ]
        ])
        h

  Claimed-sort :
      (before : MemberSubscription → MemberSubscription → Bool) (holder : String) (generation : ℤ)
      (members : List MemberSubscription)
      → Claimed every key holder generation (sort before members)
      → Claimed every key holder generation members
  unfolding sort
  Claimed-sort before holder generation [] h = h
  Claimed-sort before holder generation (m ∷ members) h =
      elim (Claimed-place before holder generation m (sort before members) h) [
        | inl here ↦ inl here
        | inr later ↦ inr (Claimed-sort before holder generation members later)
      ]

  pub Settled-sort :
      (before : MemberSubscription → MemberSubscription → Bool) (r : Option (String × ℤ))
      (members : List MemberSubscription)
      → Settled every key r (sort before members)
      → Settled every key r members
  Settled-sort before none members h = All-sort before (λ m. claims every key m ≡ false) members h
  Settled-sort before (some (holder, generation)) members (x, c, h) =
      (x, Claimed-sort before holder x members c, All-sort before (NoNewer every key x) members h)
