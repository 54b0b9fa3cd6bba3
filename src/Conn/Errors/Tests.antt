-- ===== src/Conn/Errors/Tests.antt =====
-- Errors from single codes.
use kaas_lib.Prelude.{◌≡◌, true, false, if◌then◌else◌, none, some, [], ◌∷◌}
use kaas_lib.Conn.Sanitize.{Text}
use kaas_lib.Conn.ErrorCode.{ErrorCode, not_leader_or_follower}
use kaas_lib.Conn.ErrorCode
use kaas_lib.Conn.Errors.{
  Codec, code_retriable, from_code, code_of, retriable, needs_metadata_refresh,
  needs_coordinator_refresh,
}
use kaas_lib.Conn.Errors.Laws.{from_code_axes}

-- A codec that knows every code as retriable.
abbrev codec : Codec
codec = record { try_from_code = λ _. some true }

abbrev to_string : ErrorCode → Text
to_string _ = b'?' ∷ []

from_code_axes_example :
    (needs_metadata_refresh (from_code to_string not_leader_or_follower none)
      ≡ ErrorCode.needs_metadata_refresh not_leader_or_follower)
    × (needs_coordinator_refresh (from_code to_string not_leader_or_follower none)
        ≡ ErrorCode.needs_coordinator_refresh not_leader_or_follower)
    × (retriable codec (from_code to_string not_leader_or_follower none) ≡ (
        if ErrorCode.is_authentication not_leader_or_follower
        then false
        else if ErrorCode.is_authorization not_leader_or_follower
        then false
        else code_retriable codec not_leader_or_follower))
    × (code_of (from_code to_string not_leader_or_follower none) ≡ (
        if ErrorCode.is_authentication not_leader_or_follower
        then none
        else some not_leader_or_follower))
from_code_axes_example = from_code_axes codec to_string not_leader_or_follower none
