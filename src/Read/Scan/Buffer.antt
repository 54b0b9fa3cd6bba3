-- ===== src/Read/Scan/Buffer.antt =====
-- What the buffers of a scan hold, over any sequence of its events.
use kaas_lib.Prelude.{
  ℕ, ◌+◌, ◌≤◌, ◌≡◌, Bool, true, false, not, if_cases, ltb, leb, ◌||◌, subst, ◌==◌, is_empty, filter,
  length, length-append, All, sum_by, Option, none, some, List, [], ◌∷◌, ◌++◌, arith,
}
use kaas_lib.Prelude.Int.{ℤ, eq_ℤ}
use kaas_lib.Prelude.Words.{i64_saturating_add}
use kaas_lib.Conn.Errors.{Error, unsupported}
use kaas_lib.Meta.Retry.Reask.{Result, ok, err}
use kaas_lib.Read.Batch.{DecodedPartition, decode_partition}
use kaas_lib.Read.Scan.{
  ScanSpec, ScanState, ScanEvent, record_read, PartitionCursor, decode_options,
}
use kaas_lib.Read.Scan.Absorb.{
  or_nothing, FetchTarget, note_ordering_degraded, is_kept, FetchedPartition, adjust, Absorbed,
  absorb, absorb_nothing, absorb_some, one, Source, absorb_into, found_here, found_later,
  absorb_first, put_answer, also_read, then_read, take_answer, take_fetched, ask_leaders, by_leader,
  refill,
}

-- What a success is, whatever an error is.
abbrev pub Holds : {A : Type 0} → (A → Type 0) → Result Error A → Type 0
Holds P (err e) = Unit
Holds P (ok a) = P a

-- No buffered record is from before the start of the scan.
abbrev pub InStart : PartitionCursor → Type 0
InStart c = All (λ outcome. is_kept c.start_offset outcome ≡ true) c.buffered

abbrev pub size : PartitionCursor → ℕ
size c = length c.buffered

-- The cursors are as they should be, and hold so many outcomes.
abbrev pub Hold : ℕ → List PartitionCursor → Type 0
Hold n cursors = All InStart cursors × (sum_by size cursors ≡ n)

pub All-append :
    {A : Type 0} (P : A → Type 0) (xs ys : List A) → All P xs → All P ys → All P (xs ++ ys)
All-append P [] ys h g = g
All-append P (x ∷ xs) ys h g = (h.0, All-append P xs ys h.1 g)

All-filter : {A : Type 0} (p : A → Bool) (xs : List A) → All (λ x. p x ≡ true) (filter p xs)
All-filter p [] = tt
All-filter p (x ∷ xs) =
    if_cases (All (λ y. p y ≡ true)) (p x) (λ e. (e, All-filter p xs)) (λ _. All-filter p xs)

-- What absorbing an answer adds to a cursor.
abbrev pub Adds : PartitionCursor → Absorbed → Type 0
Adds c a = InStart a.cursor × (size a.cursor ≡ size c + a.kept)

module _ (too_large : Error) (follow : Bool) (d : DecodedPartition) (c : PartitionCursor)
    (h : InStart c) where
  absorb_nothing-Adds : Holds (Adds c) (absorb_nothing too_large follow d c)
  unfolding absorb_nothing
  absorb_nothing-Adds =
      let skipped = ltb 0 d.control_batches_skipped || ltb 0 d.aborted_records_skipped in
      let same : size c ≡ size c + 0 = omega arith in
      if_cases (Holds (Adds c)) skipped
        {x = ok (record {
          cursor = record c { next_offset = i64_saturating_add c.next_offset one };
          bad = 0;
          kept = 0;
          read = false;
        })}
        (λ _. (h, same))
        (λ _.
          if_cases (Holds (Adds c)) (not d.truncated_tail)
            {x = ok (record {
              cursor = record c { finished = not follow };
              bad = 0;
              kept = 0;
              read = false;
            })}
            (λ _. (h, same)) (λ _. tt))

  absorb_some-Adds : Adds c (absorb_some d c)
  unfolding absorb_some
  absorb_some-Adds =
      let kept = filter (is_kept c.start_offset) d.outcomes in
      (
        All-append (λ outcome. is_kept c.start_offset outcome ≡ true) c.buffered kept h
            (All-filter (is_kept c.start_offset) d.outcomes),
        length-append c.buffered kept,
      )

  absorb-Adds : Holds (Adds c) (absorb too_large follow d c)
  absorb-Adds =
      if_cases (Holds (Adds c)) (is_empty d.outcomes) (λ _. absorb_nothing-Adds)
        (λ _. absorb_some-Adds)

-- What finding the partition of an answer leaves of the cursors that held n outcomes.
abbrev pub Found : ℕ → Option (List PartitionCursor × Absorbed) → Type 0
Found n none = Unit
Found n (some (cursors, a)) = Hold (n + a.kept) cursors

-- How many records an event hands to the caller.
abbrev pub reads : ScanEvent → ℕ
reads (record_read _) = 1
reads _ = 0

-- The state's own counts are right, of what is buffered and of the n records handed out; with a limit so
-- many more may be; and no pending event is a record.
pub record Sound (n more : ℕ) (s : ScanState) : Type 0 where
  pub held : Hold s.buffered_total s.cursors
  pub within : (limit : ℕ) → s.spec.limit ≡ some limit → s.progress.records_emitted + more ≤ limit
  pub counted : s.progress.records_emitted ≡ n
  pub quiet : All (λ event. reads event ≡ 0) s.pending

abbrev pub SoundRead : ℕ → ℕ → ScanState × Bool → Type 0
SoundRead n more (s, read) = Sound n more s

pub note_ordering_degraded-Sound :
    (n more : ℕ) (s : ScanState) → Sound n more s → Sound n more (note_ordering_degraded s)
unfolding note_ordering_degraded
note_ordering_degraded-Sound n more s h = record {
  held = h.held;
  within = h.within;
  counted = h.counted;
  quiet = h.quiet;
}

module _ (src : Source) where
  found_here-Found :
      (c : PartitionCursor) (cursors : List PartitionCursor) (r : Result Error Absorbed)
      → All InStart cursors
      → Holds (Adds c) r
      → Holds (Found (sum_by size (c ∷ cursors))) (found_here src cursors r)
  found_here-Found c cursors (err e) h g = tt
  found_here-Found c cursors (ok a) h g = ((g.0, h), omega (arith, g.1))

  found_later-Found :
      (c : PartitionCursor) (n : ℕ) (r : Result Error (Option (List PartitionCursor × Absorbed)))
      → InStart c
      → Holds (Found n) r
      → Holds (Found (size c + n)) (found_later src c r)
  found_later-Found c n (err e) h g = tt
  found_later-Found c n (ok none) h g = tt
  found_later-Found c n (ok (some (cursors, a))) h g = ((h, g.0), omega (arith, g.1))

  absorb_into-Adds :
      (spec : ScanSpec) (f : FetchedPartition) (c : PartitionCursor)
      → InStart c
      → Holds (Adds c) (absorb_into src spec f c)
  unfolding adjust
  absorb_into-Adds spec f c h =
      absorb-Adds (unsupported (src.too_large spec.topic f.partition spec.partition_max_bytes))
        spec.follow
        (or_nothing (
          decode_partition src.decoder (decode_options spec) spec.topic f.partition f.records
            f.aborted))
        (adjust spec.visibility f c) h

  absorb_first-Found :
      (spec : ScanSpec) (f : FetchedPartition) (cursors : List PartitionCursor)
      → All InStart cursors
      → Holds (Found (sum_by size cursors)) (absorb_first src spec f cursors)
  unfolding absorb_first
  absorb_first-Found spec f [] h = tt
  absorb_first-Found spec f (c ∷ cursors) h =
      if_cases (Holds (Found (sum_by size (c ∷ cursors)))) (eq_ℤ c.partition f.partition)
        (λ _.
          found_here-Found c cursors (absorb_into src spec f c) h.1 (absorb_into-Adds spec f c h.0))
        (λ _.
          found_later-Found c (sum_by size cursors) (absorb_first src spec f cursors) h.0
            (absorb_first-Found spec f cursors h.1))

  module _ (n more : ℕ) where
    put_answer-Sound :
        (s : ScanState) (r : Result Error (Option (List PartitionCursor × Absorbed)))
        → Sound n more s
        → Holds (Found s.buffered_total) r
        → Holds (SoundRead n more) (put_answer src s r)
    put_answer-Sound s (err e) h g = tt
    put_answer-Sound s (ok none) h g = h
    put_answer-Sound s (ok (some (cursors, a))) h g = record {
      held = g;
      within = h.within;
      counted = h.counted;
      quiet = h.quiet;
    }

    also_read-Sound :
        (read : Bool) (r : Result Error (ScanState × Bool))
        → Holds (SoundRead n more) r
        → Holds (SoundRead n more) (also_read src read r)
    also_read-Sound read (err e) h = tt
    also_read-Sound read (ok (s, later)) h = h

    then_read-Sound :
        (r : Result Error (ScanState × Bool)) (rest : ScanState → Result Error (ScanState × Bool))
        → Holds (SoundRead n more) r
        → ((s : ScanState) → Sound n more s → Holds (SoundRead n more) (rest s))
        → Holds (SoundRead n more) (then_read src r rest)
    then_read-Sound (err e) rest h k = tt
    then_read-Sound (ok (s, read)) rest h k = also_read-Sound read (rest s) (k s h)

    take_answer-Sound :
        (fetched : List FetchedPartition) (s : ScanState)
        → Sound n more s
        → Holds (SoundRead n more) (take_answer src fetched s)
    unfolding take_answer
    take_answer-Sound [] s h = h
    take_answer-Sound (f ∷ fetched) s h =
        then_read-Sound (put_answer src s (absorb_first src s.spec f s.cursors))
          (take_answer src fetched)
          (put_answer-Sound s (absorb_first src s.spec f s.cursors) h (
            subst (λ n. Holds (Found n) (absorb_first src s.spec f s.cursors)) h.held.1
              (absorb_first-Found s.spec f s.cursors h.held.0)))
          (take_answer-Sound fetched)

    take_fetched-Sound :
        (r : Result Error (List FetchedPartition)) (s : ScanState)
        → Sound n more s
        → Holds (SoundRead n more) (take_fetched src r s)
    take_fetched-Sound (err e) s h = tt
    take_fetched-Sound (ok fetched) s h = take_answer-Sound fetched s h

    ask_leaders-Sound :
        (round : ℕ) (groups : List (ℤ × List FetchTarget)) (s : ScanState)
        → Sound n more s
        → Holds (SoundRead n more) (ask_leaders src round groups s)
    unfolding ask_leaders
    ask_leaders-Sound round [] s h = h
    ask_leaders-Sound round ((leader, targets) ∷ groups) s h =
        then_read-Sound (take_fetched src (src.fetch round leader targets) s)
          (ask_leaders src round groups) (take_fetched-Sound (src.fetch round leader targets) s h)
          (ask_leaders-Sound round groups)

    pub refill-Sound :
        (round : ℕ) (s : ScanState) → Sound n more s → Holds (SoundRead n more) (refill src round s)
    unfolding refill
    refill-Sound round s h =
        if_cases (Holds (SoundRead n more)) (leb s.spec.max_buffered_records s.buffered_total)
          {x = ok (note_ordering_degraded s, false)} (λ _. note_ordering_degraded-Sound n more s h)
          (λ _. ask_leaders-Sound round (by_leader s.spec (s.buffered_total == 0) [] s.cursors) s h)
