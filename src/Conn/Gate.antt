-- ===== src/Conn/Gate.antt =====
-- kafka-conn/src/config.rs: which requests a connection may send at all.
use kaas_lib.Prelude.{Bool, true, false, not, if◌then◌else◌, Option, none, some, List}
use kaas_lib.Conn.ApiKey.{ApiKey, is_mutating}
use kaas_lib.Conn.ApiKey.KeySet.{ApiKeySet, contains, collect}

-- The part of `ConnectionConfig` that the gate reads.
pub record ConnectionConfig : Type 0 where
  pub read_only : Bool
  pub allowed_mutations : Option ApiKeySet

abbrev pub with_read_only : ConnectionConfig → ConnectionConfig
with_read_only c = record c { read_only = true }

unfoldable pub with_allowed_mutations : ConnectionConfig → List ApiKey → ConnectionConfig
with_allowed_mutations c ks = record c { allowed_mutations = some (collect ks) }

-- `is_none_or(|allowed| allowed.contains(api_key))`
abbrev pub admits : Option ApiKeySet → ApiKey → Bool
admits none k = true
admits (some allowed) k = contains allowed k

-- Whether a request with this api key may be sent at all.
unfoldable pub permits : ConnectionConfig → ApiKey → Bool
permits c k =
    if not (is_mutating k)
    then true
    else if c.read_only
    then false
    else admits c.allowed_mutations k
