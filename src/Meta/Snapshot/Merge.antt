-- ===== src/Meta/Snapshot/Merge.antt =====
-- What a topic lookup finds after a merge.
use kaas_lib.Prelude.{
  ℕ, suc, ◌≡◌, refl, sym, ap, subst, ◌∙◌, Option, none, some, Option-cases, inl, inr, List, [], ◌∷◌,
  ◌++◌, String,
}
use kaas_lib.Prelude.Int.{ℤ}
use kaas_lib.Prelude.Map.{lookup}
use kaas_lib.Prelude.Text.{String-discrete}
use kaas_lib.Meta.Snapshot.{
  BrokerInfo, TopicInfo, write, assemble, topic_by_name, place, merge_topics, with_topics_merged,
}
use mathlib.Core.Logic.{ite, if_neg}
use kaas_lib.Meta.Snapshot.Index.{
  or_else, last_named, last_index, Tells, last_named-none, indexed, topic_by_name-assemble,
}

-- A list after a topic took the place of the last one of its name, or was added at the end.
record Updated (t : TopicInfo) (n : String) (before after : List TopicInfo) : Type 0 where
  now_named : last_named n after ≡ ite (String-discrete t.name n) (some t) (last_named n before)
  same_place : last_index n after ≡ last_index n before

write_head-Updated :
    (t u : TopicInfo) (ts : List TopicInfo) (n : String)
    → u.name ≡ t.name
    → last_index t.name ts ≡ none
    → Updated t n (u ∷ ts) (t ∷ ts)
write_head-Updated t u ts n e gone = record {
  now_named = named (String-discrete t.name n);
  same_place = rw e;
}
  where
    named :
        (d : Dec (t.name ≡ n))
        → or_else (last_named n ts) (ite d (some t) none)
          ≡ ite d
              (some t)
              (or_else (last_named n ts) (ite (String-discrete u.name n) (some u) none))
    named (yes p) = rw (last_named-none n ts (subst (λ x. last_index x ts ≡ none) p gone))
    named (no q) = rw (if_neg (String-discrete u.name n) (λ p. q (sym e ∙ p)) (some u) none)

write_tail-Updated :
    (t u : TopicInfo) (ts ts' : List TopicInfo) (n : String) (j : ℕ)
    → last_index t.name ts ≡ some j
    → Updated t n ts ts'
    → Updated t n (u ∷ ts) (u ∷ ts')
write_tail-Updated t u ts ts' n j found h = record {
  now_named = named (String-discrete t.name n) h.now_named;
  same_place = rw h.same_place;
}
  where
    own : Option TopicInfo
    own = ite (String-discrete u.name n) (some u) none

    here : (o : Option ℕ) (r : Option TopicInfo) → Tells n ts o r → o ≡ some j → or_else r own ≡ r
    here (some i) (some v) h e = refl
    here (some i) none h e = absurd h
    here none r h e = absurd (cc e)

    named :
        (d : Dec (t.name ≡ n))
        → last_named n ts' ≡ ite d (some t) (last_named n ts)
        → or_else (last_named n ts') own ≡ ite d (some t) (or_else (last_named n ts) own)
    named (yes p) e = rw e
    named (no q) e = rw e

write-Updated :
    (t : TopicInfo) (ts : List TopicInfo) (n : String) (i : ℕ)
    → last_index t.name ts ≡ some i
    → Updated t n ts (write ts i t)
write-Updated t [] n i e = absurd (cc e)
write-Updated t (u ∷ ts) n i e = elim (Option-cases (last_index t.name ts)) [
  | inl gone ↦ at_head (String-discrete u.name t.name) gone (rw gone at e)
  | inr (j, found) ↦
      at_tail j i (rw found at e)
        (write_tail-Updated t u ts _ n j found (write-Updated t ts n j found))
]
  where
    at_head :
        (d : Dec (u.name ≡ t.name))
        → last_index t.name ts ≡ none
        → ite d (some 0) none ≡ some i
        → Updated t n (u ∷ ts) (write (u ∷ ts) i t)
    at_head (yes p) gone h =
        let zeroth : 0 ≡ i = cc h in
        subst (λ x. Updated t n (u ∷ ts) (write (u ∷ ts) x t)) zeroth
          (write_head-Updated t u ts n p gone)
    at_head (no q) gone h = absurd (cc h)

    at_tail :
        (j k : ℕ)
        → some (suc j) ≡ some k
        → Updated t n (u ∷ ts) (u ∷ write ts j t)
        → Updated t n (u ∷ ts) (write (u ∷ ts) k t)
    at_tail j k h done =
        let next : suc j ≡ k = cc h in
        subst (λ x. Updated t n (u ∷ ts) (write (u ∷ ts) x t)) next done

last_named-push :
    (t : TopicInfo) (ts : List TopicInfo) (n : String)
    → last_named n (ts ++ (t ∷ [])) ≡ ite (String-discrete t.name n) (some t) (last_named n ts)
last_named-push t [] n = refl
last_named-push t (u ∷ ts) n =
    elim (String-discrete t.name n)
        as (λ d.
          last_named n (ts ++ (t ∷ [])) ≡ ite d (some t) (last_named n ts)
          → or_else (last_named n (ts ++ (t ∷ []))) (ite (String-discrete u.name n) (some u) none)
            ≡ ite d (some t) (last_named n (u ∷ ts))) [ yes p ↦ λ e. rw e | no q ↦ λ e. rw e ]
      (last_named-push t ts n)

last_index-push :
    (t : TopicInfo) (ts : List TopicInfo) (n : String)
    → (t.name ≡ n → ⊥)
    → last_index n (ts ++ (t ∷ [])) ≡ last_index n ts
last_index-push t [] n q = rw (if_neg {C = Option ℕ} (String-discrete t.name n) q (some 0) none)
last_index-push t (u ∷ ts) n q = rw (last_index-push t ts n q)

-- The index of the old snapshot still finds the last topic of each name that it has.
abbrev Finds : List (String × ℕ) → List TopicInfo → Type 0
Finds index ts =
    (n : String) (i : ℕ) → lookup String-discrete n index ≡ some i → last_index n ts ≡ some i

module _ (index : List (String × ℕ)) where
  place_named :
      (t : TopicInfo) (ts : List TopicInfo) (n : String) (o : Option ℕ)
      → lookup String-discrete t.name index ≡ o
      → Finds index ts
      → last_named n (place o t ts) ≡ ite (String-discrete t.name n) (some t) (last_named n ts)
  place_named t ts n none e h = last_named-push t ts n
  place_named t ts n (some i) e h = (write-Updated t ts n i (h t.name i e)).now_named

  place-Finds :
      (t : TopicInfo) (ts : List TopicInfo) (o : Option ℕ)
      → lookup String-discrete t.name index ≡ o
      → Finds index ts
      → Finds index (place o t ts)
  place-Finds t ts none e h n i p = last_index-push t ts n (λ q. clash q p) ∙ h n i p
    where
      clash : t.name ≡ n → lookup String-discrete n index ≡ some i → ⊥
      clash q p =
          let both : none ≡ some i = sym e ∙ ap (λ x. lookup String-discrete x index) q ∙ p in
          cc both
  place-Finds t ts (some j) e h n i p = (write-Updated t ts n j (h t.name j e)).same_place ∙ h n i p

  last_named-merge_topics :
      (updated ts : List TopicInfo) (n : String)
      → Finds index ts
      → last_named n (merge_topics index ts updated)
        ≡ or_else (last_named n updated) (last_named n ts)
  unfolding merge_topics
  last_named-merge_topics [] ts n h = refl
  last_named-merge_topics (t ∷ updated) ts n h =
      let o = lookup String-discrete t.name index in
      last_named-merge_topics updated (place o t ts) n (place-Finds t ts o refl h)
      ∙ regroup (String-discrete t.name n) (last_named n updated) (place_named t ts n o refl h)
    where
      regroup :
          (d : Dec (t.name ≡ n)) (r : Option TopicInfo) {x : Option TopicInfo}
          → x ≡ ite d (some t) (last_named n ts)
          → or_else r x ≡ or_else (or_else r (ite d (some t) none)) (last_named n ts)
      regroup d (some u) e = refl
      regroup (yes p) none e = e
      regroup (no q) none e = e

-- In a snapshot that a merge makes of an assembled one, the topic of a name is the last update of
-- that name, whether the name is new or not, and without one it is what it was.
pub topic_by_name-with_topics_merged :
    (bs : List BrokerInfo) (ts updated : List TopicInfo) (controller : Option ℤ)
    (cluster : Option String) (n : String)
    → let s = assemble bs ts controller cluster in
      topic_by_name (with_topics_merged s updated) n
      ≡ or_else (last_named n updated) (topic_by_name s n)
unfolding with_topics_merged
topic_by_name-with_topics_merged bs ts updated controller cluster n =
    let s = assemble bs ts controller cluster in
    let found : Finds s.topics_by_name s.topics =
      unfold assemble in (λ m i p. sym (indexed m ts) ∙ p) in
    topic_by_name-assemble s.brokers (merge_topics s.topics_by_name s.topics updated)
      s.controller_id s.cluster_id n
    ∙ last_named-merge_topics s.topics_by_name updated s.topics n found
    ∙ ap (or_else (last_named n updated))
        (unfold assemble in sym (topic_by_name-assemble bs ts controller cluster n))
