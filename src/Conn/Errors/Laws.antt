-- ===== src/Conn/Errors/Laws.antt =====
-- An error built from a broker's code keeps what the code says.
use kaas_lib.Prelude.{◌≡◌, false, if◌then◌else◌, Option, none, some, arith}
use kaas_lib.Conn.Sanitize.{Text}
use kaas_lib.Conn.ErrorCode.{ErrorCode}
use kaas_lib.Conn.ErrorCode
use kaas_lib.Conn.ErrorCode.Laws.{axes_disjoint}
use kaas_lib.Conn.Errors.{
  Codec, code_retriable, from_code, code_of, retriable, needs_metadata_refresh,
  needs_coordinator_refresh,
}

module _ (codec : Codec) (to_string : ErrorCode → Text) (c : ErrorCode)
    (message : Option Text) where
  -- The error of a code asks for the refreshes that the code asks for, whatever its class; it is
  -- retriable when the codec says so of a code that rejects neither credentials nor permission; and
  -- it carries the code unless the credentials were rejected.
  pub from_code_axes :
      (needs_metadata_refresh (from_code to_string c message) ≡ ErrorCode.needs_metadata_refresh c)
      × (needs_coordinator_refresh (from_code to_string c message)
          ≡ ErrorCode.needs_coordinator_refresh c)
      × (retriable codec (from_code to_string c message) ≡ (
          if ErrorCode.is_authentication c
          then false
          else if ErrorCode.is_authorization c
          then false
          else code_retriable codec c))
      × (code_of (from_code to_string c message)
          ≡ (if ErrorCode.is_authentication c then none else some c))
  unfolding from_code needs_metadata_refresh needs_coordinator_refresh retriable code_of
  from_code_axes =
      ground (arith, (axes_disjoint c).authentication_alone, (axes_disjoint c).authorization_alone)
