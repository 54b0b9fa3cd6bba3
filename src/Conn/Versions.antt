-- ===== src/Conn/Versions.antt =====
-- kafka-conn/src/versions.rs: which version of an api a connection speaks.
-- The codec's own ranges (`kafka_protocol`'s `valid_versions`) are a parameter.
pub mod Laws
mod Tests
use kaas_lib.Prelude.{Option, none, some, List, [], ◌∷◌, Bool, true, false, if◌then◌else◌}
use kaas_lib.Prelude.Int.{ℤ, ltb_ℤ, ℤ-discrete}
use kaas_lib.Prelude.Map.{lookup, insert}
use kaas_lib.Conn.ApiKey.{ApiKey}
use kaas_lib.Conn.ApiKey.Code.{code, from_code}
use mathlib.Core.Option

-- What one end supports for one api key, both ends inclusive.
pub record VersionRange : Type 0 where
  pub min : ℤ
  pub max : ℤ

-- Whether the range contains no versions.
abbrev pub range_is_empty : VersionRange → Bool
range_is_empty r = ltb_ℤ r.max r.min

-- The overlap of two ranges, possibly empty.
unfoldable pub intersect : VersionRange → VersionRange → VersionRange
intersect a b = record {
  min = if ltb_ℤ b.min a.min then a.min else b.min;
  max = if ltb_ℤ a.max b.max then a.max else b.max;
}

-- One row of a broker's version table.
pub record BrokerApiVersion : Type 0 where
  pub api_key : ApiKey
  pub broker : VersionRange
  pub ours : Option VersionRange

-- The highest version of the overlap of two ranges.
unfoldable pub highest_common : VersionRange → VersionRange → Option ℤ
unfolding intersect
highest_common broker ours =
    let overlap = intersect broker ours in if range_is_empty overlap then none else some overlap.max

-- The version we would use.
unfoldable pub negotiated : BrokerApiVersion → Option ℤ
unfolding highest_common
negotiated e = Option.bind e.ours (λ ours. highest_common e.broker ours)

-- Whether the broker offers a version newer than anything we can encode.
unfoldable pub broker_ahead : BrokerApiVersion → Bool
broker_ahead e = elim e.ours [ none ↦ false | some ours ↦ ltb_ℤ ours.max e.broker.max ]

-- The table, keyed by wire code.
pub record ApiVersions : Type 0 where
  pub entries : List (ℤ × BrokerApiVersion)

-- `Error::UnsupportedApi`, naming both ranges.
pub record UnsupportedApi : Type 0 where
  pub api_key : ApiKey
  pub broker : Option VersionRange
  pub ours : Option VersionRange

pub data Negotiation : Type 0 where
  ok : ℤ → Negotiation
  err : UnsupportedApi → Negotiation

-- The row for one key.
unfoldable pub get : ApiVersions → ApiKey → Option BrokerApiVersion
get t k = lookup ℤ-discrete (code k) t.entries

-- The match of `negotiate_with` on the row and our range.
abbrev pub version_of : Option BrokerApiVersion → Option VersionRange → Option ℤ
version_of (some e) (some ours) = highest_common e.broker ours
version_of _ _ = none

-- The range of the row, where there is one.
abbrev pub broker_of : Option BrokerApiVersion → Option VersionRange
broker_of (some e) = some e.broker
broker_of none = none

-- The match on the version.
abbrev pub conclude : Option ℤ → UnsupportedApi → Negotiation
conclude (some version) failure = ok version
conclude none failure = err failure

-- The answer for a row of the table, once it is looked up.
abbrev pub answer : ApiKey → Option BrokerApiVersion → Option VersionRange → Negotiation
answer k found ours =
    conclude (version_of found ours) (record { api_key = k; broker = broker_of found; ours = ours })

-- The version to send, clamped to a range that the caller gives.
unfoldable pub negotiate_with : ApiVersions → ApiKey → Option VersionRange → Negotiation
negotiate_with t k ours = answer k (get t k) ours

module _ (valid_versions : ℤ → Option VersionRange) where
  -- What this build's codec can encode for an api key.
  unfoldable pub our_range : ApiKey → Option VersionRange
  our_range k = valid_versions (code k)

  -- The row of one triple `(code, min, max)`.
  abbrev pub row : ℤ × ℤ × ℤ → BrokerApiVersion
  row (c, lo, hi) = record {
    api_key = from_code c;
    broker = record { min = lo; max = hi };
    ours = our_range (from_code c);
  }

  -- Collecting into a map: a later triple replaces an earlier one of the same code.
  collect_rows : List (ℤ × BrokerApiVersion) → List (ℤ × ℤ × ℤ) → List (ℤ × BrokerApiVersion)
  collect_rows rows [] = rows
  collect_rows rows (t ∷ ts) = collect_rows (insert ℤ-discrete t.0 (row t) rows) ts

  -- Build a table from the triples of an `ApiVersions` response.
  unfoldable pub from_triples : List (ℤ × ℤ × ℤ) → ApiVersions
  unfolding collect_rows
  from_triples ts = record { entries = collect_rows [] ts }

  unfoldable pub negotiate : ApiVersions → ApiKey → Negotiation
  unfolding our_range
  negotiate t k = negotiate_with t k (our_range k)

  -- Whether the broker advertised this key at a version that we can encode.
  unfoldable pub supports : ApiVersions → ApiKey → Bool
  supports t k = elim (get t k) [
    | none ↦ false
    | some e ↦ elim (negotiated e) [ none ↦ false | some v ↦ true ]
  ]
