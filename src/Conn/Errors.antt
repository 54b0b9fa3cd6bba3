-- ===== src/Conn/Errors.antt =====
-- kafka-conn/src/error.rs: the client's error type, and what a caller may do about an error.
-- A text is the list of its code points. The causes of a transport and of a decode failure are kept
-- as their rendered text. `code.to_string()` and the codec's judgement of a code
-- (`ResponseError::try_from_code` and `is_retriable` of `kafka_protocol`) are parameters.
pub mod Laws
mod Tests
use kaas_lib.Prelude.{ℕ, Bool, true, false, ◌||◌, if◌then◌else◌, leb, ◌==◌, Option, none, some}
use kaas_lib.Prelude.Int.{ℤ}
use kaas_lib.Conn.Sanitize.{Text, control_safe}
use kaas_lib.Conn.ApiKey.{ApiKey}
use kaas_lib.Conn.ErrorCode.{ErrorCode, unknown}
use kaas_lib.Conn.ErrorCode
use kaas_lib.Conn.ErrorCode.Code.{code}
use kaas_lib.Conn.Versions.{VersionRange}

pub data Error : Type 0 where
  transport : Text → Text → Error
  connection_closed : Text → Error
  timeout : ApiKey → ℕ → Error
  authentication : Text → Error
  authorization : ErrorCode → Option Text → Error
  broker : ErrorCode → Option Text → Error
  decode : Text → Text → Error
  read_only : ApiKey → Error
  unsupported_api : ApiKey → Option VersionRange → Option VersionRange → Error
  unsupported : Text → Error
  invalid_request : Text → Error
  token_endpoint : Text → Option ℕ → Text → Error

-- What the codec says of a wire code: whether it names it, and whether it is retriable.
pub record Codec : Type 0 where
  pub try_from_code : ℤ → Option Bool

-- Whether the code has no name.
unfoldable pub is_unknown : ErrorCode → Bool
is_unknown (unknown n) = true
is_unknown _ = false

-- `ErrorCode::retriable`: the codec's answer, and no for a code with no name.
unfoldable pub code_retriable : Codec → ErrorCode → Bool
code_retriable c e =
    if is_unknown e
    then false
    else elim (c.try_from_code (code e)) [ none ↦ false | some retriable ↦ retriable ]

-- Whether retrying is worthwhile when the request named a resource that the broker does not have.
unfoldable pub retriable_for_named_resource : Codec → ErrorCode → Bool
retriable_for_named_resource c e =
    if ErrorCode.names_missing_resource e then false else code_retriable c e

abbrev pub sanitized : Option Text → Option Text
sanitized (some m) = some (control_safe m)
sanitized none = none

abbrev pub text_or : Option Text → Text → Text
text_or (some m) d = m
text_or none d = d

-- An error for a broker's code, with the broker's message made safe to print.
unfoldable pub from_code : (ErrorCode → Text) → ErrorCode → Option Text → Error
from_code to_string c message =
    if ErrorCode.is_authentication c
    then authentication (text_or (sanitized message) (to_string c))
    else if ErrorCode.is_authorization c
    then authorization c (sanitized message)
    else broker c (sanitized message)

-- The broker's code of an error, if it carries one.
unfoldable pub code_of : Error → Option ErrorCode
code_of (broker c _) = some c
code_of (authorization c _) = some c
code_of _ = none

-- A token endpoint's status: none if it was not reached.
abbrev pub status_retriable : Option ℕ → Bool
status_retriable none = true
status_retriable (some status) = leb 500 status || (status == 429)

-- Whether the same request may succeed later.
unfoldable pub retriable : Codec → Error → Bool
retriable c (transport _ _) = true
retriable c (connection_closed _) = true
retriable c (timeout _ _) = true
retriable c (broker e _) = code_retriable c e
retriable c (token_endpoint _ status _) = status_retriable status
retriable c _ = false

-- Whether the error says that the metadata snapshot is stale.
unfoldable pub needs_metadata_refresh : Error → Bool
needs_metadata_refresh (transport _ _) = true
needs_metadata_refresh (connection_closed _) = true
needs_metadata_refresh (broker e _) = ErrorCode.needs_metadata_refresh e
needs_metadata_refresh _ = false

-- Whether the error says that a cached coordinator is stale.
unfoldable pub needs_coordinator_refresh : Error → Bool
needs_coordinator_refresh (broker e _) = ErrorCode.needs_coordinator_refresh e
needs_coordinator_refresh _ = false
