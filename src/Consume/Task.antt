-- ===== src/Consume/Task.antt =====
-- What `async fn poll` of the group consumers is written with: a step over a state that calls the
-- caller's listener and the coordinator, and whose future may be dropped where it waits.
-- A call that another party sees is an event; a future that is dropped keeps the state it reached.
use kaas_lib.Prelude.{◌≡◌, refl, List, [], ◌∷◌, ◌++◌, Bool, true, false, Option, String}
use kaas_lib.Prelude.Int.{ℤ}
use kaas_lib.Prelude.Text.{TopicPartition}
use kaas_lib.Conn.Errors.{Error}
use kaas_lib.Meta.Retry.Reask.{Result, ok, err}
use kaas_lib.Consume.Consumer.{RevokedPartition}

-- `CommitAs`
pub record CommitAs : Type 0 where
  pub member_id : String
  pub epoch : ℤ
  pub instance_id : Option String

-- The listener's two callbacks, a commit of positions, and a request to the coordinator.
pub data Event : Type 0 where
  on_revoke : List RevokedPartition → Event
  on_assign : List TopicPartition → Event
  commit : CommitAs → List (TopicPartition × ℤ) → Event
  asked : Event

pub data Outcome (A : Type 0) : Type 0 where
  returned : Result Error A → Outcome A
  dropped : Outcome A

abbrev pub Task : Type 0 → Type 0 → Type 0
Task S A = S → Outcome A × List Event × S

module _ {S : Type 0} where
  abbrev pub after :
      {A B : Type 0} → (A → Task S B) → Outcome A × List Event × S → Outcome B × List Event × S
  after f (returned (ok a), es, s) = let (o, fs, t) = f a s in (o, es ++ fs, t)
  after f (returned (err e), es, s) = (returned (err e), es, s)
  after f (dropped, es, s) = (dropped, es, s)

  infixl 5 ◌>>=◌ ◌>>◌
  abbrev pub ◌>>=◌ : {A B : Type 0} → Task S A → (A → Task S B) → Task S B
  ◌>>=◌ m f s = after f (m s)

  abbrev pub ◌>>◌ : {B : Type 0} → Task S (Unit {0}) → Task S B → Task S B
  ◌>>◌ m k s = after (λ _. k) (m s)

  abbrev pub done : {A : Type 0} → A → Task S A
  done a s = (returned (ok a), [], s)

  abbrev pub fail : {A : Type 0} → Error → Task S A
  fail e s = (returned (err e), [], s)

  abbrev pub change : (S → S) → Task S (Unit {0})
  change f s = (returned (ok tt), [], f s)

  -- A call that is made and waited for: the future may be dropped while it waits.
  abbrev pub call : Bool → Event → Task S (Unit {0})
  call true event s = (dropped, event ∷ [], s)
  call false event s = (returned (ok tt), event ∷ [], s)

  abbrev pub when : Bool → Task S (Unit {0}) → Task S (Unit {0})
  when true m s = m s
  when false m s = (returned (ok tt), [], s)

-- What a task makes of a state: its steps relate the states before and after by their events, the
-- invariant holds wherever it ends, and a value that it returns has its postcondition.
module _ {S : Type 0} (Inv : S → Type 0) (Related : S → List Event → S → Type 0) where
  abbrev pub Post : {A : Type 0} → (A → S → Type 0) → Outcome A → S → Type 0
  Post Q (returned (ok a)) s = Q a s
  Post Q (returned (err e)) s = Unit
  Post Q dropped s = Unit

  abbrev pub Ends : {A : Type 0} → (A → S → Type 0) → S → Outcome A × List Event × S → Type 0
  Ends Q s (o, es, t) = Related s es t × Inv t × Post Q o t

  -- A weaker postcondition.
  pub weaken-Ends :
      {A : Type 0} (Q P : A → S → Type 0) (s : S) (r : Outcome A × List Event × S)
      → ((a : A) (t : S) → Q a t → P a t)
      → Ends Q s r
      → Ends P s r
  weaken-Ends Q P s (returned (ok a), es, t) weaker h = (h.0, h.1, weaker a t h.2)
  weaken-Ends Q P s (returned (err e), es, t) weaker h = (h.0, h.1, tt)
  weaken-Ends Q P s (dropped, es, t) weaker h = (h.0, h.1, tt)

  module _
      (trans : (s t u : S) (es fs : List Event)
        → Related s es t
        → Related t fs u
        → Related s (es ++ fs) u) where
    after-Ends :
        {A B : Type 0} (Q : A → S → Type 0) (P : B → S → Type 0) (f : A → Task S B) (s : S)
        (o : Outcome A) (es : List Event) (t : S)
        → Ends Q s (o, es, t)
        → ((a : A) (u : S) → Inv u → Q a u → Ends P u (f a u))
        → Ends P s (after f (o, es, t))
    after-Ends Q P f s (returned (err e)) es t h next = (h.0, h.1, tt)
    after-Ends Q P f s dropped es t h next = (h.0, h.1, tt)
    after-Ends Q P f s (returned (ok a)) es t h next =
        let g = next a t h.1 h.2 in (trans s t (f a t).2 es (f a t).1 h.0 g.0, g.1, g.2)

    pub then-Ends :
        {A B : Type 0} (Q : A → S → Type 0) (P : B → S → Type 0) (m : Task S A) (f : A → Task S B)
        (s : S)
        → Ends Q s (m s)
        → ((a : A) (u : S) → Inv u → Q a u → Ends P u (f a u))
        → Ends P s (after f (m s))
    then-Ends Q P m f s h next = after-Ends Q P f s (m s).0 (m s).1 (m s).2 h next

  module _ (same : (s : S) (es : List Event) → Related s es s) where
    pub call-Ends :
        (Q : Unit → S → Type 0) (drops : Bool) (event : Event) (s : S)
        → Inv s
        → Q tt s
        → Ends Q s (call drops event s)
    call-Ends Q true event s inv q = (same s (event ∷ []), inv, tt)
    call-Ends Q false event s inv q = (same s (event ∷ []), inv, q)

    pub when-Ends :
        (Q : Unit → S → Type 0) (b : Bool) (m : Task S Unit) (s : S)
        → Inv s
        → (b ≡ false → Q tt s)
        → (b ≡ true → Ends Q s (m s))
        → Ends Q s (when b m s)
    when-Ends Q true m s inv q ends = ends refl
    when-Ends Q false m s inv q ends = (same s [], inv, q refl)
