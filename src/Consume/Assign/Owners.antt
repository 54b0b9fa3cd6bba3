-- ===== src/Consume/Assign/Owners.antt =====
-- Who owns a partition, as the cooperative-sticky assignor settles it from the members' claims.
pub mod Sorted
use kaas_lib.Prelude.{
  ◌≡◌, ◌≢◌, refl, sym, ap, ◌∙◌, subst, Bool, true, false, ◌&&◌, if◌then◌else◌, if_cases, All, ◌⊎◌,
  inl, inr, Bool-cases, Option, none, some, List, [], ◌∷◌, String, arith,
}
use mathlib.Core.Logic.{if_pos, if_neg}
use kaas_lib.Prelude.Int.{ℤ, leb_ℤ}
use kaas_lib.Prelude.Map.{lookup, contains, lookup-insert}
use kaas_lib.Prelude.Sort.{place, sort, All-sort}
use kaas_lib.Prelude.Text.{TopicPartition, TopicPartition-discrete}
use kaas_lib.Consume.Assign.{MemberSubscription, subscribes_to}
use kaas_lib.Consume.Assign.Cooperative.{Owners, settle_claim, claims_of, owners}

abbrev dec : Discrete TopicPartition
dec = TopicPartition-discrete

module _ (every : List TopicPartition) (key : TopicPartition) where
  -- A claim on a partition counts if the partition exists and the member subscribes to its topic.
  abbrev pub claims : MemberSubscription → Bool
  claims m = contains dec key m.owned && (contains dec key every && subscribes_to key.topic m)

  -- Whether an owner's generation is no older than the one given.
  abbrev covers : Option (String × ℤ) → ℤ → Bool
  covers none x = false
  covers (some (holder, generation)) x = leb_ℤ x generation

  -- Some member claims the partition, with that id and that generation.
  abbrev pub Claimed : String → ℤ → List MemberSubscription → Type 0
  Claimed holder generation [] = ⊥
  Claimed holder generation (m ∷ members) =
      ((claims m ≡ true) × (m.member_id ≡ holder) × (m.generation ≡ generation))
      ⊎ Claimed holder generation members

  abbrev pub NoNewer : ℤ → MemberSubscription → Type 0
  NoNewer generation m = claims m ≡ true → leb_ℤ m.generation generation ≡ true

  -- The member claims the partition, and no claim is of a newer generation.
  abbrev pub ClaimsNewest : String → List MemberSubscription → Type 0
  ClaimsNewest holder members =
      (generation : ℤ) × Claimed holder generation members × All (NoNewer generation) members

  abbrev challenge : MemberSubscription → Option (String × ℤ) → Option (String × ℤ)
  challenge m none = some (m.member_id, m.generation)
  challenge m (some (holder, generation)) =
      if leb_ℤ m.generation generation
      then some (holder, generation)
      else some (m.member_id, m.generation)

  lookup-settle_claim :
      (m : MemberSubscription) (o : Option (String × ℤ)) (owner : Owners)
      → lookup dec key owner ≡ o
      → lookup dec key (settle_claim m key o owner) ≡ challenge m o
  lookup-settle_claim m none owner e =
      ground (arith, lookup-insert dec key key (m.member_id, m.generation) owner)
  lookup-settle_claim m (some (holder, generation)) owner e =
      ground (arith, lookup-insert dec key key (m.member_id, m.generation) owner)

  lookup-settle_other :
      (m : MemberSubscription) (j : TopicPartition) (o : Option (String × ℤ)) (owner : Owners)
      → j ≢ key
      → lookup dec key (settle_claim m j o owner) ≡ lookup dec key owner
  lookup-settle_other m j none owner ne =
      ground (arith, lookup-insert dec j key (m.member_id, m.generation) owner)
  lookup-settle_other m j (some (holder, generation)) owner ne =
      ground (arith, lookup-insert dec j key (m.member_id, m.generation) owner)

  challenge_twice :
      (m : MemberSubscription) (o : Option (String × ℤ))
      → challenge m (challenge m o) ≡ challenge m o
  challenge_twice m none = ground arith
  challenge_twice m (some (holder, generation)) = ground arith

  abbrev counts : MemberSubscription → TopicPartition → Bool
  counts m j = contains dec j every && subscribes_to j.topic m

  -- One claim.
  abbrev claim_one : MemberSubscription → TopicPartition → Owners → Owners
  claim_one m j owner = if counts m j then settle_claim m j (lookup dec j owner) owner else owner

  claim_one_same :
      (m : MemberSubscription) (j : TopicPartition) (owner : Owners)
      → j ≡ key
      → lookup dec key (claim_one m j owner)
        ≡ (if counts m key then challenge m (lookup dec key owner) else lookup dec key owner)
  claim_one_same m j owner e =
      subst
        (λ q.
          lookup dec key (claim_one m q owner)
          ≡ (if counts m key then challenge m (lookup dec key owner) else lookup dec key owner))
        (sym e) (ground (arith, lookup-settle_claim m (lookup dec key owner) owner refl))

  claim_one_other :
      (m : MemberSubscription) (j : TopicPartition) (owner : Owners)
      → j ≢ key
      → lookup dec key (claim_one m j owner) ≡ lookup dec key owner
  claim_one_other m j owner ne =
      ground (arith, lookup-settle_other m j (lookup dec j owner) owner ne)

  -- A member's claims, seen at one partition.
  lookup-claims_of :
      (m : MemberSubscription) (owned : List TopicPartition) (owner : Owners)
      → lookup dec key (claims_of every m owned owner) ≡ (
          if contains dec key owned && counts m key
          then challenge m (lookup dec key owner)
          else lookup dec key owner)
  unfolding claims_of contains
  lookup-claims_of m [] owner = refl
  lookup-claims_of m (j ∷ owned) owner =
      let rest = lookup-claims_of m owned (claim_one m j owner) in
      elim (dec j key) [
        | yes e ↦ rw (if_pos (dec j key) e) (
            ground
              (arith, rest, claim_one_same m j owner e, challenge_twice m (lookup dec key owner)))
        | no ne ↦ rw (if_neg (dec j key) ne) (ground (arith, rest, claim_one_other m j owner ne))
      ]

  -- The owner after one more member's claims.
  abbrev next_owner : MemberSubscription → Option (String × ℤ) → Option (String × ℤ)
  next_owner m o = if claims m then challenge m o else o

  -- What the claims of the members make of an owner: nobody's claim is newer than what is left, nor was
  -- the owner before, and what is left is that owner or a member's claim.
  abbrev NotBefore : Option (String × ℤ) → Option (String × ℤ) → Type 0
  NotBefore o r = (x : ℤ) → covers o x ≡ true → covers r x ≡ true

  abbrev Beats : Option (String × ℤ) → MemberSubscription → Type 0
  Beats r m = claims m ≡ true → covers r m.generation ≡ true

  abbrev Comes : Option (String × ℤ) → Option (String × ℤ) → List MemberSubscription → Type 0
  Comes o none members = o ≡ none
  Comes o (some (holder, generation)) members =
      (o ≡ some (holder, generation)) ⊎ Claimed holder generation members

  challenge-covers :
      (m : MemberSubscription) (o : Option (String × ℤ))
      → covers (challenge m o) m.generation ≡ true
  challenge-covers m none = ground arith
  challenge-covers m (some (holder, generation)) = ground arith

  challenge-NotBefore :
      (m : MemberSubscription) (o : Option (String × ℤ)) → NotBefore o (challenge m o)
  challenge-NotBefore m none x h = absurd (cc)
  challenge-NotBefore m (some (holder, generation)) x h = ground arith

  next_owner-NotBefore :
      (m : MemberSubscription) (o : Option (String × ℤ)) → NotBefore o (next_owner m o)
  next_owner-NotBefore m o x h = ground (arith, challenge-NotBefore m o x h)

  next_owner-Beats : (m : MemberSubscription) (o : Option (String × ℤ)) → Beats (next_owner m o) m
  next_owner-Beats m o h = ground (arith, challenge-covers m o)

  abbrev all_claims : List MemberSubscription → Option (String × ℤ) → Option (String × ℤ)
  all_claims [] o = o
  all_claims (m ∷ members) o = all_claims members (next_owner m o)

  lookup-owners :
      (members : List MemberSubscription) (owner : Owners)
      → lookup dec key (owners every members owner) ≡ all_claims members (lookup dec key owner)
  unfolding owners
  lookup-owners [] owner = refl
  lookup-owners (m ∷ members) owner =
      lookup-owners members (claims_of every m m.owned owner)
      ∙ ap (all_claims members) (lookup-claims_of m m.owned owner)

  all_claims-NotBefore :
      (members : List MemberSubscription) (o : Option (String × ℤ))
      → NotBefore o (all_claims members o)
  all_claims-NotBefore [] o x h = h
  all_claims-NotBefore (m ∷ members) o x h =
      all_claims-NotBefore members (next_owner m o) x (next_owner-NotBefore m o x h)

  all_claims-Beats :
      (members : List MemberSubscription) (o : Option (String × ℤ))
      → All (Beats (all_claims members o)) members
  all_claims-Beats [] o = tt
  all_claims-Beats (m ∷ members) o = (
    λ h. all_claims-NotBefore members (next_owner m o) m.generation (next_owner-Beats m o h),
    all_claims-Beats members (next_owner m o),
  )

  abbrev holder_of : (String × ℤ) → Option (String × ℤ) → String × ℤ
  holder_of d none = d
  holder_of d (some owner) = owner

  abbrev owner_of : String → ℤ → Option (String × ℤ)
  owner_of holder generation = some (holder, generation)

  same_owner : (a b : String) (x y : ℤ) → owner_of a x ≡ owner_of b y → (a ≡ b) × (x ≡ y)
  same_owner a b x y e = (ap (λ o. (holder_of (a, x) o).0) e, ap (λ o. (holder_of (a, x) o).1) e)

  all_claims-start : (o : Option (String × ℤ)) → Comes o o []
  all_claims-start none = refl
  all_claims-start (some (holder, generation)) = inl refl

  challenge-Comes :
      (m : MemberSubscription) (o : Option (String × ℤ)) (holder : String) (generation : ℤ)
      → challenge m o ≡ some (holder, generation)
      → (o ≡ some (holder, generation)) ⊎ ((m.member_id ≡ holder) × (m.generation ≡ generation))
  challenge-Comes m none holder generation e =
      inr (same_owner m.member_id holder m.generation generation e)
  challenge-Comes m (some (other, x)) holder generation e =
      if_cases
        (λ o.
          o ≡ some (holder, generation)
          → (owner_of other x ≡ owner_of holder generation)
            ⊎ ((m.member_id ≡ holder) × (m.generation ≡ generation)))
        (leb_ℤ m.generation x) (λ _ h. inl h)
        (λ _ h. inr (same_owner m.member_id holder m.generation generation h)) e

  next_owner-Comes :
      (m : MemberSubscription) (members : List MemberSubscription) (o r : Option (String × ℤ))
      → Comes (next_owner m o) r members
      → Comes o r (m ∷ members)
  next_owner-Comes m members none none h = refl
  next_owner-Comes m members (some (other, x)) none h = ground (arith, h)
  next_owner-Comes m members o (some (holder, generation)) (inr c) = inr (inr c)
  next_owner-Comes m members o (some (holder, generation)) (inl e) = elim (Bool-cases (claims m)) [
    | inl yes_claims ↦
        elim (challenge-Comes m o holder generation
          (sym (ap (λ b. if b then challenge m o else o) yes_claims) ∙ e)) [
            | inl old ↦ inl old
            | inr new ↦ inr (inl (yes_claims, new.0, new.1))
          ]
    | inr no_claims ↦ inl (sym (ap (λ b. if b then challenge m o else o) no_claims) ∙ e)
  ]

  all_claims-Comes :
      (members : List MemberSubscription) (o : Option (String × ℤ))
      → Comes o (all_claims members o) members
  all_claims-Comes [] o = all_claims-start o
  all_claims-Comes (m ∷ members) o =
      next_owner-Comes m members o (all_claims members (next_owner m o))
        (all_claims-Comes members (next_owner m o))

  -- Nobody's claim counts, or the owner is a member whose claim is of the newest generation.
  abbrev pub Settled : Option (String × ℤ) → List MemberSubscription → Type 0
  Settled none members = All (λ m. claims m ≡ false) members
  Settled (some (holder, generation)) members = ClaimsNewest holder members

  unclaimed : (members : List MemberSubscription) → All (Beats none) members → Settled none members
  unclaimed [] h = tt
  unclaimed (m ∷ members) h = (ground (arith, h.0), unclaimed members h.1)

  settled :
      (r : Option (String × ℤ)) (members : List MemberSubscription)
      → All (Beats r) members
      → Comes none r members
      → Settled r members
  settled none members h c = unclaimed members h
  settled (some (holder, generation)) members h (inl e) = absurd (cc)
  settled (some (holder, generation)) members h (inr c) = (generation, c, h)

  pub owners-Settled :
      (members : List MemberSubscription)
      → Settled (lookup dec key (owners every members [])) members
  owners-Settled members =
      subst (λ r. Settled r members) (sym (lookup-owners members []))
        (unfold lookup in
          settled (all_claims members none) members (all_claims-Beats members none)
            (all_claims-Comes members none))
