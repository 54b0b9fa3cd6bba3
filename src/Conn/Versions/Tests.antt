-- ===== src/Conn/Versions/Tests.antt =====
-- Negotiation over a small table.
use kaas_lib.Prelude.{ℕ_discrete, ◌≡◌, refl, Option, none, some, [], ◌∷◌, ◌++◌, arith}
use kaas_lib.Prelude.Int.{ℤ, pos, ℤ-discrete}
use kaas_lib.Prelude.Map.{lookup}
use kaas_lib.Conn.ApiKey.{produce, fetch}
use kaas_lib.Conn.ApiKey.Code.{code, from_code}
use kaas_lib.Conn.Versions.{
  VersionRange, BrokerApiVersion, ApiVersions, ok, err, get, intersect, highest_common,
  negotiate_with, our_range, from_triples,
}
use kaas_lib.Conn.Versions.Laws.{
  IsAgreed, negotiate_with-IsAgreed, negotiate_with-ne-err, get-from_triples,
}
use mathlib.Core.Logic.{ite}

abbrev ours : VersionRange
ours = record { min = pos 3; max = pos 9 }

abbrev produce_row : BrokerApiVersion
produce_row = record {
  api_key = produce;
  broker = record { min = pos 0; max = pos 11 };
  ours = some ours;
}

abbrev table : ApiVersions
table = record { entries = (pos 0, produce_row) ∷ [] }

produce_negotiated : negotiate_with table produce (some ours) ≡ ok (pos 9)
unfolding negotiate_with get lookup code highest_common intersect ℤ-discrete ℕ_discrete
produce_negotiated = refl

fetch_missing :
    negotiate_with table fetch (some ours)
    ≡ err (record { api_key = fetch; broker = none; ours = some ours })
unfolding negotiate_with get lookup code highest_common intersect ℤ-discrete ℕ_discrete
fetch_missing = refl

produce_found : get table produce ≡ some produce_row
unfolding get lookup code ℤ-discrete ℕ_discrete
produce_found = refl

negotiate_with-IsAgreed_example : IsAgreed table produce (some ours) (pos 9)
negotiate_with-IsAgreed_example =
    negotiate_with-IsAgreed table produce (some ours) (pos 9) produce_negotiated

negotiate_with-ne-err_example : (v : ℤ) × (negotiate_with table produce (some ours) ≡ ok v)
negotiate_with-ne-err_example =
    negotiate_with-ne-err table produce produce_row ours (pos 5) produce_found
      (omega arith, omega arith) (omega arith, omega arith)

-- A codec with one range for every key.
abbrev valid_versions : ℤ → Option VersionRange
valid_versions _ = some ours

get-from_triples_example :
    get
      (from_triples valid_versions (((pos 1, pos 0, pos 4) ∷ []) ++ ((pos 0, pos 0, pos 11) ∷ [])))
      produce
    ≡ ite
        (ℤ-discrete (pos 0) (code produce))
        (some (record {
          api_key = from_code (pos 0);
          broker = record { min = pos 0; max = pos 11 };
          ours = our_range valid_versions (from_code (pos 0));
        }))
        (get (from_triples valid_versions ((pos 1, pos 0, pos 4) ∷ [])) produce)
get-from_triples_example =
    get-from_triples valid_versions ((pos 1, pos 0, pos 4) ∷ []) (pos 0) (pos 0) (pos 11) produce
