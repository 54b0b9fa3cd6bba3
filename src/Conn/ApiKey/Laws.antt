-- ===== src/Conn/ApiKey/Laws.antt =====
-- The two directions of the api key table, and what the read-only gate lets through.
use kaas_lib.Prelude.{◌≡◌, ◌≢◌, refl, arith, false}
use kaas_lib.Prelude.Int.{ℤ, pos, negsuc}
use kaas_lib.Conn.ApiKey.{ApiKey, unknown, is_mutating}
use kaas_lib.Conn.ApiKey.Code.{code, from_code}

-- A key other than `unknown`.
abbrev pub IsNamed : ApiKey → Type 0
IsNamed k = (n : ℤ) → k ≢ unknown n

-- Reading back the wire code of a named key gives the key.
pub from_code-code : (k : ApiKey) → IsNamed k → from_code (code k) ≡ k
unfolding from_code code
from_code-code (unknown n) h = absurd (h n refl)
from_code-code _ h = refl

-- The key read from a wire code carries that code, whether the key has a name or not.
pub code-from_code : (n : ℤ) → code (from_code n) ≡ n
unfolding from_code code
code-from_code (pos n) = ground arith
code-from_code (negsuc n) = refl

-- A key that the read-only gate lets through has a name, so it is the key that its own wire code
-- reads back as.
pub from_code-code_of_readonly : (k : ApiKey) → is_mutating k ≡ false → from_code (code k) ≡ k
unfolding is_mutating from_code code
from_code-code_of_readonly (unknown n) h = absurd (cc)
from_code-code_of_readonly _ h = refl
