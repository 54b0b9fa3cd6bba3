-- ===== src/Conn/ApiKey/Tests.antt =====
-- The api keys at single keys.
use kaas_lib.Prelude.{◌≡◌, refl, false, [], ◌∷◌}
use kaas_lib.Conn.ApiKey.KeySet.{collect, collect_codes, insert_code, iter}
use kaas_lib.Conn.ApiKey.{produce, fetch, is_mutating}
use kaas_lib.Conn.ApiKey.Code.{code, from_code}
use kaas_lib.Conn.ApiKey.Laws.{IsNamed}

produce-IsNamed : IsNamed produce
produce-IsNamed n e = absurd (cc e)

fetch_readonly : is_mutating fetch ≡ false
unfolding is_mutating
fetch_readonly = refl

-- Duplicates collapse, and the keys come in code order.
collected : iter (collect (fetch ∷ produce ∷ fetch ∷ [])) ≡ produce ∷ fetch ∷ []
unfolding iter collect collect_codes insert_code code from_code
collected = refl
