-- ===== src/Meta/Snapshot/Index.antt =====
-- What the index of a snapshot's topics finds.
use kaas_lib.Prelude.{
  ℕ, suc, ◌+◌, ◌≡◌, refl, ap, ◌∙◌, Option, none, some, List, [], ◌∷◌, String, arith,
}
use kaas_lib.Prelude.Int.{ℤ}
use kaas_lib.Prelude.Map.{lookup, insert, lookup-insert}
use kaas_lib.Prelude.Text.{String-discrete}
use kaas_lib.Meta.Snapshot.{
  BrokerInfo, TopicInfo, element, at_index, index_topics, assemble, topic_by_name,
}
use mathlib.Core.Logic.{ite}

abbrev pub or_else : {A : Type 0} → Option A → Option A → Option A
or_else (some a) b = some a
or_else none b = b

-- The last topic of a list with the name.
abbrev pub last_named : String → List TopicInfo → Option TopicInfo
last_named n [] = none
last_named n (t ∷ ts) =
    let rest = last_named n ts in or_else rest (ite (String-discrete t.name n) (some t) none)

-- Its index.
abbrev pub next_index : Option ℕ → Option ℕ
next_index none = none
next_index (some i) = some (suc i)

abbrev pub last_index : String → List TopicInfo → Option ℕ
last_index n [] = none
last_index n (t ∷ ts) =
    let rest = last_index n ts in
    or_else (next_index rest) (ite (String-discrete t.name n) (some 0) none)

abbrev plus : ℕ → Option ℕ → Option ℕ
plus i none = none
plus i (some j) = some (i + j)

lookup-index_topics :
    (n : String) (i : ℕ) (index : List (String × ℕ)) (ts : List TopicInfo)
    → lookup String-discrete n (index_topics i index ts)
      ≡ or_else (plus i (last_index n ts)) (lookup String-discrete n index)
unfolding index_topics
lookup-index_topics n i index [] = refl
lookup-index_topics n i index (t ∷ ts) = ground (
  arith,
  lookup-index_topics n (suc i) (insert String-discrete t.name i index) ts,
  lookup-insert String-discrete t.name n i index,
)

-- The two searches agree.
abbrev pub Tells : String → List TopicInfo → Option ℕ → Option TopicInfo → Type 0
Tells n ts none none = Unit {0}
Tells n ts (some i) (some u) = (element ts i ≡ some u) × (u.name ≡ n)
Tells n ts _ _ = ⊥

Tells-step :
    (n : String) (t : TopicInfo) (ts : List TopicInfo) (o : Option ℕ) (r : Option TopicInfo)
    (d : Dec (t.name ≡ n))
    → Tells n ts o r
    → Tells n
        (t ∷ ts)
        (or_else (next_index o) (ite d (some 0) none))
        (or_else r (ite d (some t) none))
Tells-step n t ts none none (yes e) h = (refl, e)
Tells-step n t ts none none (no _) h = tt
Tells-step n t ts (some i) (some u) d h = h
Tells-step n t ts none (some u) d h = absurd h
Tells-step n t ts (some i) none d h = absurd h

pub tells : (n : String) (ts : List TopicInfo) → Tells n ts (last_index n ts) (last_named n ts)
tells n [] = tt
tells n (t ∷ ts) = Tells-step n t ts _ _ (String-discrete t.name n) (tells n ts)

at_index-last_index :
    (n : String) (ts : List TopicInfo) → at_index ts (last_index n ts) ≡ last_named n ts
at_index-last_index n ts = told (last_index n ts) (last_named n ts) (tells n ts)
  where
    told : (o : Option ℕ) (r : Option TopicInfo) → Tells n ts o r → at_index ts o ≡ r
    told none none h = refl
    told (some i) (some u) h = h.0
    told none (some u) h = absurd h
    told (some i) none h = absurd h

pub last_named-none :
    (n : String) (ts : List TopicInfo) → last_index n ts ≡ none → last_named n ts ≡ none
last_named-none n ts e = told (last_index n ts) (last_named n ts) (tells n ts) e
  where
    told : (o : Option ℕ) (r : Option TopicInfo) → Tells n ts o r → o ≡ none → r ≡ none
    told none none h e = refl
    told (some i) r h e = absurd (cc e)
    told none (some u) h e = absurd h

pub indexed :
    (n : String) (ts : List TopicInfo)
    → lookup String-discrete n (index_topics 0 [] ts) ≡ last_index n ts
indexed n ts = lookup-index_topics n 0 [] ts ∙ (unfold lookup in zeroed (last_index n ts))
  where
    zeroed : (o : Option ℕ) → or_else (plus 0 o) none ≡ o
    zeroed none = refl
    zeroed (some j) = ground arith

-- An assembled snapshot finds the last topic of a name.
pub topic_by_name-assemble :
    (bs : List BrokerInfo) (ts : List TopicInfo) (controller : Option ℤ) (cluster : Option String)
    (n : String)
    → topic_by_name (assemble bs ts controller cluster) n ≡ last_named n ts
unfolding topic_by_name assemble
topic_by_name-assemble bs ts controller cluster n =
    ap (at_index ts) (indexed n ts) ∙ at_index-last_index n ts
