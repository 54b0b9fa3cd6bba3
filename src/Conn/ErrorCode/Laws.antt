-- ===== src/Conn/ErrorCode/Laws.antt =====
-- The tables of kafka-conn/src/error_code.rs against one another.
use kaas_lib.Prelude.{
  Option, none, some, List, [], ◌∷◌, ◌≡◌, ◌≢◌, refl, if◌then◌else◌, arith, true, false,
}
use kaas_lib.Prelude.Int.{ℤ, eq_ℤ}
use kaas_lib.Conn.ErrorCode.{
  ErrorCode, unknown, unknown_server_error, needs_metadata_refresh, needs_coordinator_refresh,
  is_authentication, is_authorization,
}
use kaas_lib.Conn.ErrorCode.Code.{code, known_error_codes}
use kaas_lib.Conn.ErrorCode.Name.{name}

-- The first code of a table with the wire value.
pub find_code : ℤ → List ErrorCode → Option ErrorCode
find_code n [] = none
find_code n (e ∷ es) = let rest = find_code n es in if eq_ℤ (code e) n then some e else rest

-- A code other than `unknown`.
abbrev pub IsNamed : ErrorCode → Type 0
IsNamed e = name e ≢ none

-- The table of known codes holds every code that has a name, and the first entry with the wire
-- value of such a code is the code itself.
pub find_code-code : (e : ErrorCode) → IsNamed e → find_code (code e) known_error_codes ≡ some e
unfolding find_code code known_error_codes name
find_code-code (unknown n) h = absurd (h refl)
find_code-code _ h = refl

-- Two codes that have names and share a wire value are the same code.
pub code_injective : (d e : ErrorCode) → IsNamed d → IsNamed e → code d ≡ code e → d ≡ e
code_injective d e hd he p = cc (find_code-code d hd, find_code-code e he, p)

-- How the axes of one code exclude each other.
pub record AxesAreDisjoint (e : ErrorCode) : Type 0 where
  pub metadata_or_coordinator :
      needs_metadata_refresh e ≡ true → needs_coordinator_refresh e ≡ false
  pub authentication_alone :
      is_authentication e ≡ true
      → (needs_metadata_refresh e ≡ false)
        × (needs_coordinator_refresh e ≡ false)
        × (is_authorization e ≡ false)
  pub authorization_alone :
      is_authorization e ≡ true
      → (needs_metadata_refresh e ≡ false)
        × (needs_coordinator_refresh e ≡ false)
        × (is_authentication e ≡ false)

-- No code asks for both caches to be refreshed, and a code that rejects the credentials or the
-- permission asks for neither and is only one of the two.
pub axes_disjoint : (e : ErrorCode) → AxesAreDisjoint e
unfolding needs_metadata_refresh needs_coordinator_refresh is_authentication is_authorization
axes_disjoint unknown_server_error = ground arith
axes_disjoint _ = ground arith
