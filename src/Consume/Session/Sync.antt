-- ===== src/Consume/Session/Sync.antt =====
-- Every request of a session leaves the broker with the assignment that the client wants.
use kaas_lib.Prelude.{none, some, Option-cases, [], ◌≡◌, inl, inr, sym, ◌∙◌, false, Bool-cases}
use kaas_lib.Prelude.Int.{eq_ℤ}
use kaas_lib.Prelude.Map.{keys, lookup, IsFunctional}
use kaas_lib.Prelude.Text.{TopicPartition}
use kaas_lib.Consume.Session.{
  no_session, PartitionState, Assignment, FetchSession, new, is_known, changed, forget_gone, next,
}
use kaas_lib.Consume.Session.Broker.{
  dec, apply_delta, upsert_all, remove_all, upsert_all-agrees, upsert_all-hits, remove_all-agrees,
  remove_all-hits,
}
use kaas_lib.Consume.Session.Changes.{
  forget_gone-AllGone, forget_gone-hits, changed-IsFunctional, changed-hits, is_known-eq,
  contains-keys,
}

-- The client knows what the broker's view of an open session is, and owes it nothing to forget.
pub record InSync (s : FetchSession) (view : Assignment) : Type 0 where
  pub nothing_owed : s.forgotten ≡ []
  pub same_view :
      eq_ℤ s.id no_session ≡ false → (k : TopicPartition) → lookup dec k view ≡ lookup dec k s.known

module _ (wanted known view : Assignment) (k : TopicPartition) where
  updated :
      IsFunctional dec wanted wanted
      → lookup dec k view ≡ lookup dec k known
      → (v : PartitionState) → lookup dec k wanted ≡ some v
      → lookup dec k (upsert_all (changed known wanted) view) ≡ lookup dec k wanted
  updated f same v w = elim (Bool-cases (is_known (lookup dec k known) v)) [
    | inl old ↦
        upsert_all-agrees wanted k (changed known wanted) view
          (changed-IsFunctional wanted known wanted f)
          (same ∙ is_known-eq (lookup dec k known) v old ∙ sym w)
    | inr new ↦
        upsert_all-hits wanted k (changed known wanted) view v
          (changed-IsFunctional wanted known wanted f) (changed-hits wanted known k v wanted w new)
  ]

  forgotten_after :
      (view' : Assignment)
      → ((v : PartitionState)
          → lookup dec k wanted ≡ some v
          → lookup dec k view' ≡ lookup dec k wanted)
      → (lookup dec k known ≡ none
          → lookup dec k wanted ≡ none
          → lookup dec k view' ≡ lookup dec k wanted)
      → lookup dec k (remove_all (forget_gone wanted [] (keys known)) view') ≡ lookup dec k wanted
  forgotten_after view' here absent =
      let gone = forget_gone-AllGone wanted k [] (keys known) tt in
      elim (Option-cases (lookup dec k wanted)) [
        | inr (v, w) ↦ remove_all-agrees wanted k _ view' gone (here v w)
        | inl w ↦ elim (Option-cases (lookup dec k known)) [
          | inl n ↦ remove_all-agrees wanted k _ view' gone (absent n w)
          | inr (v, old) ↦
              remove_all-hits wanted k _ view' gone
                (forget_gone-hits wanted k [] (keys known) w (contains-keys k v known old))
        ]
      ]

  -- An incremental request over a view that the client knows.
  incremental :
      IsFunctional dec wanted wanted
      → lookup dec k view ≡ lookup dec k known
      → lookup dec k
          (remove_all (forget_gone wanted [] (keys known)) (upsert_all (changed known wanted) view))
        ≡ lookup dec k wanted
  incremental f same = forgotten_after _ (updated f same) (λ n w.
      upsert_all-agrees wanted k (changed known wanted) view
        (changed-IsFunctional wanted known wanted f) (same ∙ n ∙ sym w))

  -- A full request over a view that the broker drops.
  full_fetch :
      IsFunctional dec wanted wanted
      → lookup dec k (remove_all (forget_gone wanted [] (keys known)) (upsert_all wanted []))
        ≡ lookup dec k wanted
  unfolding lookup
  full_fetch f =
      forgotten_after _ (λ v w. upsert_all-hits wanted k wanted [] v f w)
        (λ n w. upsert_all-agrees wanted k wanted [] f (sym w))

-- Where the wanted assignment is a map, and the session owes the broker nothing to forget and, if it
-- is open, knows the broker's view: after the request that `next` computes, the broker's view is the
-- wanted assignment.
pub apply_delta-next :
    (s : FetchSession) (view wanted : Assignment)
    → InSync s view
    → IsFunctional dec wanted wanted
    → (k : TopicPartition) → lookup dec k (apply_delta (next s wanted).1 view) ≡ lookup dec k wanted
unfolding apply_delta next
apply_delta-next s view wanted h f k = elim (Bool-cases (eq_ℤ s.id no_session)) [
  | inl full ↦ rw (full, h.nothing_owed) (full_fetch wanted s.known view k f)
  | inr open_session ↦
      rw (open_session, h.nothing_owed)
        (incremental wanted s.known view k f (h.same_view open_session k))
]
