-- ===== src/Consume/Rebalance.antt =====
-- kafka-consume/src/rebalance.rs: what is told to the caller's listener, and what both group
-- consumers do of it before partitions go. A listener is present or not; what its callbacks do to the
-- world is left out, and so is their error, which is only logged.
pub mod Told
pub mod Lost
use kaas_lib.Prelude.{Bool, not, ◌&&◌, is_empty, List, [], ◌∷◌}
use kaas_lib.Prelude.Int.{ℤ}
use kaas_lib.Prelude.Text.{TopicPartition}
use kaas_lib.Consume.Consumer.{RevokedPartition}
use kaas_lib.Consume.Task.{CommitAs, on_revoke, on_assign, commit, Task, ◌>>◌, call, when}

-- What a rebalance still has to tell the caller.
pub record Pending : Type 0 where
  pub revoked : List RevokedPartition
  pub gained : List TopicPartition

-- `is_empty`
abbrev pub nothing_pending : Pending → Bool
nothing_pending p = is_empty p.revoked && is_empty p.gained

-- Where a rebalance waits: the two callbacks, the commit, and the lookup of starts.
pub data Await : Type 0 where
  at_revoke at_commit at_lookup at_assign : Await

-- Nothing is sent where there is nothing to commit.
abbrev pub commit_as :
    {S : Type 0} → (Await → Bool) → Bool → CommitAs → List (TopicPartition × ℤ) → Task S Unit
commit_as drops auto_commit identity offsets =
    when (auto_commit && not (is_empty offsets)) (call (drops at_commit) (commit identity offsets))

module _ {S : Type 0} (listener : Bool) (drops : Await → Bool) where
  abbrev pub revoke : List RevokedPartition → Task S Unit
  revoke revoked = when listener (call (drops at_revoke) (on_revoke revoked))

  abbrev pub assign : List TopicPartition → Task S Unit
  assign assigned = when listener (call (drops at_assign) (on_assign assigned))

  -- The caller flushes first, then the offsets are committed.
  unfoldable pub flush :
      Bool → CommitAs → List (TopicPartition × ℤ) → List RevokedPartition → Task S Unit
  flush auto_commit identity offsets revoked =
      when (not (is_empty revoked)) (revoke revoked >> commit_as drops auto_commit identity offsets)
