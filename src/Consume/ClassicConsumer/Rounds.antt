-- ===== src/Consume/ClassicConsumer/Rounds.antt =====
-- A classic consumer over any polls in a group that stays cooperative: what it loses was told before.
use kaas_lib.Prelude.{
  ℕ, zero, suc, ◌+◌, ◌≡◌, refl, Bool, true, false, not, ◌&&◌, if_cases, is_empty, Option, none,
  some, List, [], String, arith,
}
use kaas_lib.Prelude.Map.{lookup}
use kaas_lib.Prelude.Int.{eq_ℤ}
use kaas_lib.Prelude.Text.{TopicPartition}
use kaas_lib.Conn.Errors.{Error}
use kaas_lib.Conn.ErrorCode.{}
use kaas_lib.Meta.Retry.Reask.{Result, ok, err}
use kaas_lib.Read.Record.{Record}
use kaas_lib.Read.Batch.{DecodeOptions, Decoder}
use kaas_lib.Consume.Group.Reconcile.{owns}
use kaas_lib.Consume.Assign.{Assignor}
use kaas_lib.Consume.Classic.Wire.{Codec, no_generation}
use kaas_lib.Consume.Classic.Member.{ClassicMembership, is_cooperative, heartbeat, set_assignors}
use kaas_lib.Consume.Consumer.{Consumer, Fetched, RevokedPartition, fetch_once, assigned_keys}
use kaas_lib.Consume.Consumer
use kaas_lib.Consume.Task.{
  Event, asked, Outcome, returned, dropped, Task, after, ◌>>◌, done, change, call, when, Post,
  weaken-Ends, then-Ends, when-Ends, call-Ends,
}
use kaas_lib.Consume.Rebalance.{Await}
use kaas_lib.Consume.Rebalance.Told.{names, told}
use kaas_lib.Consume.Rebalance.Lost.{
  fetches, LostTold-trans, LostTold-any, fetches-fetch_once, fetches-poll,
}
use kaas_lib.Consume.ClassicConsumer.{
  ClassicConsumer, fresh_consumer, with_assignors, with_auto_commit, with_rebalance_listener, Round,
  settle_from, settle, announce, join_round, heard, ask_beat, hear, heartbeat_says_rejoin,
}
use kaas_lib.Consume.ClassicConsumer.Announce.{Same, announce-Announced, settle_from-Announced}
use kaas_lib.Consume.ClassicConsumer.Join.{NamesCooperative, join_round-Ends}
use kaas_lib.Consume.ClassicConsumer.Moves.{
  listens, inside, Told, Inv, EndsPoll, Anything, Announced-Ends,
}
use kaas_lib.Consume.ClassicConsumer.Poll.{rounds, finish, poll}

module _ (w : Round) where
  heard-Ends : (b : Bool) (g : ClassicConsumer) → Inv g → EndsPoll Anything g (heard w b g)
  heard-Ends false g inv = (LostTold-any listens inside g [], inv, tt)
  heard-Ends true g inv =
      let marked : ClassicConsumer = record g { rejoin = true } in
      let held = assigned_keys g.inner in
      then-Ends Inv Told (LostTold-trans listens inside) Anything Anything
        (change (λ g. record g { rejoin = true }) >> (λ g.
          when (not (is_cooperative g.membership)) (announce w.drops (assigned_keys g.inner)) g))
        (λ _. done true) g
        (when-Ends Inv Told (LostTold-any listens inside) Anything
          (not (is_cooperative g.membership)) (announce w.drops held) marked inv (λ _. tt)
          (λ _.
            weaken-Ends Inv Told (λ (_ : Unit {0}). Same marked) Anything marked
              (announce w.drops held marked) (λ _ _ _. tt)
              (Announced-Ends marked (λ k. owns k held) (announce w.drops held marked)
                (announce-Announced w.drops marked held) inv)))
        (λ _ t inv' _. (LostTold-any listens inside t [], inv', tt))

  hear-Ends :
      (r : Result Error Bool) (t : ClassicConsumer) → Inv t → EndsPoll Anything t (hear w r t)
  hear-Ends (err e) t inv = (LostTold-any listens inside t [], inv, tt)
  hear-Ends (ok b) t inv = heard-Ends b t inv

  ask_beat-Ends : (g : ClassicConsumer) → Inv g → EndsPoll Anything g (ask_beat w g)
  unfolding ask_beat
  ask_beat-Ends g inv =
      let any = LostTold-any listens inside in
      when-Ends Inv Told any Anything (not (eq_ℤ g.membership.generation_id no_generation))
        (call w.drops_beat asked) g inv (λ _. tt)
        (λ _. call-Ends Inv Told any Anything w.drops_beat asked g inv tt)

  heartbeat_says_rejoin-Ends :
      (g : ClassicConsumer) → Inv g → EndsPoll Anything g (heartbeat_says_rejoin w g)
  unfolding heartbeat_says_rejoin
  heartbeat_says_rejoin-Ends g inv =
      then-Ends Inv Told (LostTold-trans listens inside) Anything Anything (ask_beat w)
        (λ _ g. hear w (heartbeat w.coordinator g.membership) g) g (ask_beat-Ends g inv)
        (λ _ t inv' _. hear-Ends (heartbeat w.coordinator t.membership) t inv')

module _ (codec : Codec) (world : ℕ → Round)
    (cooperative : (i : ℕ) → NamesCooperative (world i).coordinator) where
  again-Ends :
      (b : Bool) (m : Task ClassicConsumer Unit) (g : ClassicConsumer)
      → Inv g
      → EndsPoll Anything g (m g)
      → EndsPoll Anything g (when b m g)
  again-Ends b m g inv h =
      when-Ends Inv Told (LostTold-any listens inside) Anything b m g inv (λ _. tt) (λ _. h)

  rounds-Ends :
      (n i : ℕ) (g : ClassicConsumer) → Inv g → EndsPoll Anything g (rounds codec n i world g)
  unfolding rounds
  rounds-Ends zero i g inv = (LostTold-any listens inside g [], inv, tt)
  rounds-Ends (suc n) i g inv =
      let rest = rounds codec n (i + 1) world in
      let trans = LostTold-trans listens inside in
      if_cases {A = Outcome Unit × List Event × ClassicConsumer} (EndsPoll Anything g) g.rejoin
        (λ _.
          then-Ends Inv Told trans Anything Anything (join_round codec (world i)) (λ _. rest) g
            (join_round-Ends codec (world i) g (cooperative i) inv)
            (λ _ t inv' _. rounds-Ends n (i + 1) t inv'))
        (λ _.
          then-Ends Inv Told trans Anything Anything (heartbeat_says_rejoin (world i))
            (λ again. when again rest) g (heartbeat_says_rejoin-Ends (world i) g inv)
            (λ again t inv' _. again-Ends again rest t inv' (rounds-Ends n (i + 1) t inv')))

  settle-Ends :
      (drops : Await → Bool) (g : ClassicConsumer) → Inv g → EndsPoll Anything g (settle drops g)
  unfolding settle
  settle-Ends drops g inv = from g.pending_revoke
    where
      from : (o : Option (List RevokedPartition)) → EndsPoll Anything g (settle_from drops o g)
      from none = (LostTold-any listens inside g [], inv, tt)
      from (some revoked) =
          weaken-Ends Inv Told (λ (_ : Unit {0}). Same g) Anything g
            (settle_from drops (some revoked) g) (λ _ _ _. tt)
            (Announced-Ends g (λ k. names k revoked) (settle_from drops (some revoked) g)
              (settle_from-Announced drops g revoked) inv)

  module _ (d : Decoder) (options : DecodeOptions) where
    swapped-Ends :
        (o : Outcome (List Record)) (g : ClassicConsumer) (c : Consumer)
        → Inv g
        → ((k : TopicPartition) → fetches k c ≡ fetches k g.inner)
        → EndsPoll Anything g (o, [], record g { inner = c })
    swapped-Ends o g c inv same =
        ((refl, λ k. ground (arith, same k)), λ k. ground (arith, inv k, same k), anything o)
      where
        anything :
            (o : Outcome (List Record))
            → Post Inv Told
                (λ (_ : List Record). Anything {A = Unit {0}} tt)
                o
                (record g { inner = c })
        anything (returned (ok _)) = tt
        anything (returned (err _)) = tt
        anything dropped = tt

    finish-Ends :
        (drops : Bool) (answers : List (Result Error (List Fetched))) (g : ClassicConsumer)
        → Inv g
        → EndsPoll Anything g (finish codec d options drops answers g)
    finish-Ends drops answers g inv =
        let polled = Consumer.poll d options answers g.inner in
        if_cases {A = Outcome (List Record) × List Event × ClassicConsumer}
          (EndsPoll (Anything {A = List Record}) g) g.rejoin
          (λ _. (LostTold-any listens inside g [], inv, tt))
          (λ _.
            if_cases {A = Outcome (List Record) × List Event × ClassicConsumer}
              (EndsPoll (Anything {A = List Record}) g) (drops && is_empty g.inner.buffered)
              (λ _.
                swapped-Ends dropped g (fetch_once d options answers g.inner).1 inv
                  (λ k. fetches-fetch_once d options k answers g.inner))
              (λ _.
                swapped-Ends (returned polled.0) g polled.1 inv
                  (λ k. fetches-poll d options k answers g.inner)))

    pub poll-Ends :
        (drops_first : Await → Bool) (drops_fetch : Bool)
        (answers : List (Result Error (List Fetched))) (g : ClassicConsumer)
        → Inv g
        → EndsPoll Anything g (poll codec d options drops_first world drops_fetch answers g)
    unfolding poll
    poll-Ends drops_first drops_fetch answers g inv =
        let trans = LostTold-trans listens inside in
        then-Ends Inv Told trans Anything Anything (settle drops_first >> rounds codec 6 0 world)
          (λ _. finish codec d options drops_fetch answers) g
          (then-Ends Inv Told trans Anything Anything (settle drops_first)
            (λ _. rounds codec 6 0 world) g (settle-Ends drops_first g inv)
            (λ _ t inv' _. rounds-Ends 6 0 t inv'))
          (λ _ t inv' _. finish-Ends drops_fetch answers t inv')

-- The states that a classic consumer reaches by polls, whichever of them fail or are dropped, in a group
-- that stays cooperative.
pub data Reached (codec : Codec) (d : Decoder) (options : DecodeOptions)
    : ClassicConsumer → Type 0 where
  subscribed :
      (m : ClassicMembership) (topics : List String)
      → Reached codec d options (fresh_consumer m topics)
  offering :
      (assignors : List Assignor) (g : ClassicConsumer)
      → Reached codec d options g
      → Reached codec d options (with_assignors assignors g)
  committing :
      (enabled : Bool) (g : ClassicConsumer)
      → Reached codec d options g
      → Reached codec d options (with_auto_commit enabled g)
  listening :
      (g : ClassicConsumer)
      → Reached codec d options g
      → Reached codec d options (with_rebalance_listener g)
  polled :
      (drops_first : Await → Bool) (world : ℕ → Round) (drops_fetch : Bool)
      (answers : List (Result Error (List Fetched)))
      → ((i : ℕ) → NamesCooperative (world i).coordinator)
      → (g : ClassicConsumer) → Reached codec d options g
      → Reached codec d options (poll codec d options drops_first world drops_fetch answers g).2

Reached-Inv :
    {codec : Codec} {d : Decoder} {options : DecodeOptions} {g : ClassicConsumer}
    → Reached codec d options g
    → Inv g
unfolding fresh_consumer with_assignors set_assignors with_auto_commit with_rebalance_listener
    lookup
Reached-Inv (subscribed m topics) = λ k. refl
Reached-Inv (offering assignors g r) =
    if_cases Inv (is_empty assignors) (λ _. Reached-Inv r) (λ _. Reached-Inv r)
Reached-Inv (committing _ g r) = Reached-Inv r
Reached-Inv (listening g r) = Reached-Inv r
Reached-Inv {codec} {d} {options} (polled drops_first world drops_fetch answers cooperative g r) =
    (poll-Ends codec world cooperative d options drops_first drops_fetch answers g
      (Reached-Inv r)).1

-- After any polls of a classic consumer, whichever of them failed or were dropped while they waited, in a
-- group whose every join that succeeds names the cooperative protocol: a partition that is assigned before a poll
-- and not after it was told to the listener, if there is one, in that poll, as one to be revoked;
-- whether another member takes it over or this one is evicted.
pub classic_poll-Told :
    (codec : Codec) (d : Decoder) (options : DecodeOptions) (g : ClassicConsumer)
    → Reached codec d options g
    → (drops_first : Await → Bool) (world : ℕ → Round) (drops_fetch : Bool)
      (answers : List (Result Error (List Fetched)))
    → ((i : ℕ) → NamesCooperative (world i).coordinator)
    → (k : TopicPartition)
    → let (outcome, events, g') = poll codec d options drops_first world drops_fetch answers g in
      g.listener ≡ true
      → fetches k g.inner ≡ true
      → fetches k g'.inner ≡ false
      → told k events ≡ true
classic_poll-Told codec d options g reached drops_first world drops_fetch answers cooperative k
      listens before after =
    ground (
      arith,
      (poll-Ends codec world cooperative d options drops_first drops_fetch answers g
            (Reached-Inv reached)).0.1
          k,
      listens,
      before,
      after,
    )
