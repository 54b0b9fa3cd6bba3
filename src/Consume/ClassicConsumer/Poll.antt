-- ===== src/Consume/ClassicConsumer/Poll.antt =====
-- `poll` and `leave` of a classic consumer.
use kaas_lib.Prelude.{
  ℕ, zero, suc, ◌+◌, Bool, true, false, not, ◌&&◌, if◌then◌else◌, is_empty, Option, none, some,
  List, [], String,
}
use kaas_lib.Conn.Errors.{Error}
use kaas_lib.Conn.ErrorCode.{}
use kaas_lib.Meta.Retry.Reask.{Result}
use kaas_lib.Read.Record.{Record}
use kaas_lib.Read.Batch.{DecodeOptions, Decoder}
use kaas_lib.Consume.Classic.Wire.{Codec}
use kaas_lib.Consume.Classic.Member.{
  ClassicMembership, is_cooperative, join_group, sync_group, forget, heartbeat, set_assignors,
}
use kaas_lib.Consume.Classic.Member as Member
use kaas_lib.Consume.Consumer.{
  Consumer, Fetched, RevokedPartition, revoked_positions, fetch_once, assigned_keys,
}
use kaas_lib.Consume.Consumer
use kaas_lib.Consume.GroupConsumer.{offsets_of}
use kaas_lib.Consume.Rebalance.{Await, revoke, commit_as}
use kaas_lib.Consume.Task.{asked, returned, dropped, Task, ◌>>=◌, ◌>>◌, done, change, call, when}
use kaas_lib.Consume.ClassicConsumer.{
  ClassicConsumer, Round, commit_identity, settle, join_round, heartbeat_says_rejoin,
}

module _ (codec : Codec) where
  -- The loop of `poll`, with so many turns left.
  unfoldable pub rounds : ℕ → ℕ → (ℕ → Round) → Task ClassicConsumer Unit
  rounds zero i world = done tt
  rounds (suc n) i world =
      let rest = rounds n (i + 1) world in
      λ g.
        if g.rejoin
        then (join_round codec (world i) >> rest) g
        else (heartbeat_says_rejoin (world i) >>= λ again. when again rest) g

  module _ (d : Decoder) (options : DecodeOptions) where
    abbrev pub fetched :
        Bool → List (Result Error (List Fetched)) → Task ClassicConsumer (List Record)
    fetched drops answers g =
        if drops && is_empty g.inner.buffered
        then (dropped, [], record g { inner = (fetch_once d options answers g.inner).1 })
        else let (r, c) = Consumer.poll d options answers g.inner in
          (returned r, [], record g { inner = c })

    -- Out of turns in the middle, nothing is returned and the next poll goes on.
    abbrev pub finish :
        Bool → List (Result Error (List Fetched)) → Task ClassicConsumer (List Record)
    finish drops answers g = if g.rejoin then done [] g else fetched drops answers g

    unfoldable pub poll :
        (Await → Bool)
        → (ℕ → Round)
        → Bool
        → List (Result Error (List Fetched))
        → Task ClassicConsumer (List Record)
    poll drops_first world drops_fetch answers =
        settle drops_first >> rounds 6 0 world >> finish drops_fetch answers

abbrev pub tells : Option String → Bool
tells none = false
tells (some _) = true

-- `leave`
unfoldable pub leave : (Await → Bool) → Bool → Task ClassicConsumer Unit
leave drops drops_leave g =
    let held = assigned_keys g.inner in
    (when (not (is_empty held)) (revoke g.listener drops (revoked_positions g.inner held))
        >> commit_as drops g.auto_commit (commit_identity g.membership) (offsets_of g.inner)
        >> (λ s.
            let (told, m) = Member.leave s.membership in
            (when (tells told) (call drops_leave asked)
                >> change (λ u. record u { membership = m }))
              s))
      g
