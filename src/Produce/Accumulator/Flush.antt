-- ===== src/Produce/Accumulator/Flush.antt =====
-- When a flush is answered.
use kaas_lib.Prelude.{
  ℕ, ◌≡◌, ◌≢◌, refl, Bool, true, false, ◌&&◌, ◌||◌, not, Bool-cases, inl, inr, Option, none, some,
  List, [], ◌∷◌, is_empty, arith,
}
use kaas_lib.Produce.Accumulator.Types.{Batch, PartitionState, idle, is_none}
use kaas_lib.Produce.Accumulator.Actor.{Partitions, Actor, is_idle, settle_flushes}
use kaas_lib.Produce.Accumulator.Order.{buffered}
use kaas_lib.Produce.Accumulator.Work.{Every}

-- Nothing of the partition is buffered or on the wire.
abbrev pub IsDrained : PartitionState → Type 0
IsDrained s = (buffered s ≡ []) × (s.in_flight ≡ false)

fields-IsDrained :
    (o : Option Batch) (pending : List Batch) (busy : Bool)
    → (is_none o && (is_empty pending && not busy)) ≡ true
    → IsDrained (record { open_batch = o; pending = pending; in_flight = busy })
unfolding buffered
fields-IsDrained none [] false h = (refl, refl)
fields-IsDrained none [] true h = absurd (cc h)
fields-IsDrained none (b ∷ bs) busy h = absurd (cc h)
fields-IsDrained (some b) pending busy h = absurd (cc h)

idle-IsDrained : (s : PartitionState) → idle s ≡ true → IsDrained s
unfolding idle
idle-IsDrained s h = fields-IsDrained s.open_batch s.pending s.in_flight h

is_idle-Every : (ps : Partitions) → is_idle ps ≡ true → Every IsDrained ps
unfolding is_idle
is_idle-Every [] h = tt
is_idle-Every ((k, s) ∷ ps) h = (idle-IsDrained s (ground arith), is_idle-Every ps (ground arith))

-- If any flush is answered, then all that wait are, none waits afterwards, and no partition has a
-- record buffered or a batch on the wire; if none is answered, the actor is unchanged.
pub settle_flushes_lem :
    (a : Actor)
    → ((settle_flushes a).1 ≢ []
        → ((settle_flushes a).1 ≡ a.flush_waiters)
          × ((settle_flushes a).0.flush_waiters ≡ [])
          × Every IsDrained a.partitions)
      × ((settle_flushes a).1 ≡ [] → (settle_flushes a).0 ≡ a)
unfolding settle_flushes
settle_flushes_lem a = elim (Bool-cases (is_empty a.flush_waiters || not (is_idle a.partitions))) [
  | inl waits ↦ rw waits (λ some_answered. absurd (some_answered refl), λ _. refl)
  | inr done ↦ rw done (
    λ _. (refl, refl, is_idle-Every a.partitions (ground arith)),
    λ nobody. absurd (waiting a.flush_waiters (ground arith) nobody),
  )
]
  where
    waiting : (ws : List ℕ) → is_empty ws ≡ false → ws ≡ [] → ⊥
    waiting [] h e = cc h
    waiting (w ∷ ws) h e = cc e
