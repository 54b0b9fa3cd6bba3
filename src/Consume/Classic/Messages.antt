-- ===== src/Consume/Classic/Messages.antt =====
-- The requests and the answers of a classic group, as far as they are set and read.
use kaas_lib.Prelude.{Option, List, [], ◌∷◌, String}
use kaas_lib.Prelude.Int.{ℤ}
use kaas_lib.Conn.Errors.{Error}
use kaas_lib.Conn.ErrorCode.{ErrorCode}
use kaas_lib.Conn.Sanitize.{Text}
use kaas_lib.Meta.Retry.Reask.{Result, ok, err}
use kaas_lib.Read.Record.{Bytes}
use kaas_lib.Consume.Assign.{}
use kaas_lib.Consume.Classic.Wire.{}

-- `collect::<Result<_>>()`
abbrev pub also : {B : Type 0} → Result Error B → Result Error (List B) → Result Error (List B)
also (err e) rest = err e
also (ok b) (err e) = err e
also (ok b) (ok bs) = ok (b ∷ bs)

unfoldable pub collect : {A B : Type 0} → (A → Result Error B) → List A → Result Error (List B)
collect f [] = ok []
collect f (x ∷ xs) = also (f x) (collect f xs)

abbrev pub then_ok : {A B : Type 0} → Result Error A → (A → B) → Result Error B
then_ok (err e) f = err e
then_ok (ok a) f = ok (f a)

pub record JoinRequest : Type 0 where
  pub group_id : String
  pub session_timeout_ms : ℤ
  pub rebalance_timeout_ms : ℤ
  pub member_id : String
  pub instance_id : Option String
  pub protocol_type : String
  pub protocols : List (String × Bytes)

pub record JoinResponse : Type 0 where
  pub error_code : ℤ
  pub member_id : String
  pub generation_id : ℤ
  pub protocol_name : Option String
  pub leader : String
  pub members : List (String × Bytes)

pub record SyncRequest : Type 0 where
  pub group_id : String
  pub generation_id : ℤ
  pub member_id : String
  pub instance_id : Option String
  pub protocol_type : String
  pub protocol_name : String
  pub assignments : List (String × Bytes)

pub record SyncResponse : Type 0 where
  pub error_code : ℤ
  pub assignment : Bytes

pub record HeartbeatRequest : Type 0 where
  pub group_id : String
  pub generation_id : ℤ
  pub member_id : String
  pub instance_id : Option String

-- The coordinator's answers, where the reask loop has ended, and the codec's reading of a code.
pub record Coordinator : Type 0 where
  pub join : JoinRequest → Result Error JoinResponse
  pub sync : SyncRequest → Result Error SyncResponse
  pub heartbeat : HeartbeatRequest → Result Error ℤ
  pub read_code : ℤ → Option ErrorCode
  pub to_string : ErrorCode → Text
