-- ===== src/Conn/ErrorCode/Tests.antt =====
-- The error codes at single codes.
use kaas_lib.Conn.ErrorCode.{not_leader_or_follower}
use kaas_lib.Conn.ErrorCode.Name.{name}
use kaas_lib.Conn.ErrorCode.Laws.{IsNamed}

not_leader_or_follower-IsNamed : IsNamed not_leader_or_follower
unfolding name
not_leader_or_follower-IsNamed e = absurd (cc e)
