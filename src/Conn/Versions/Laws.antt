-- ===== src/Conn/Versions/Laws.antt =====
-- What a negotiation promises.
use kaas_lib.Prelude.{
  Option, none, some, List, [], ◌∷◌, ◌++◌, ◌≡◌, ◌≢◌, refl, sym, ap, arith, Option-cases, inl, inr,
}
use kaas_lib.Prelude.Int.{ℤ, ◌≤ℤ◌, ℤ-discrete}
use kaas_lib.Prelude.Map.{lookup, insert, lookup-insert}
use kaas_lib.Conn.ApiKey.{ApiKey}
use kaas_lib.Conn.ApiKey.Code.{code, from_code}
use kaas_lib.Conn.Versions.{
  VersionRange, BrokerApiVersion, ApiVersions, ok, err, UnsupportedApi, get, highest_common,
  version_of, broker_of, conclude, answer, negotiate_with, our_range, row, collect_rows,
  from_triples,
}
use mathlib.Core.Logic.{ite}

-- A version that a range offers.
abbrev pub InRange : ℤ → VersionRange → Type 0
InRange v r = (r.min ≤ℤ v) × (v ≤ℤ r.max)

-- A version that both ranges offer, and that no common version exceeds.
pub record IsHighest (v : ℤ) (broker ours : VersionRange) : Type 0 where
  pub offered : InRange v broker
  pub encodable : InRange v ours
  pub highest : (w : ℤ) → InRange w broker → InRange w ours → w ≤ℤ v

highest_common-IsHighest :
    (broker ours : VersionRange) (v : ℤ)
    → highest_common broker ours ≡ some v
    → IsHighest v broker ours
unfolding highest_common
highest_common-IsHighest broker ours v h = record {
  offered = ground arith;
  encodable = ground arith;
  highest = λ w p q. ground arith;
}

highest_common-ne-none :
    (broker ours : VersionRange) (w : ℤ)
    → InRange w broker
    → InRange w ours
    → highest_common broker ours ≢ none
unfolding highest_common
highest_common-ne-none broker ours w p q e = ground arith

-- When `negotiate_with` answers a version, the broker has a row for the key, we have a range, and
-- the version is the highest that both offer.
pub record IsAgreed (t : ApiVersions) (k : ApiKey) (ours : Option VersionRange) (v : ℤ)
    : Type 0 where
  pub entry : BrokerApiVersion
  pub range : VersionRange
  pub found : get t k ≡ some entry
  pub given : ours ≡ some range
  pub best : IsHighest v entry.broker range

answer-IsAgreed :
    (t : ApiVersions) (k : ApiKey) (found : Option BrokerApiVersion) (ours : Option VersionRange)
    (v : ℤ)
    → get t k ≡ found
    → answer k found ours ≡ ok v
    → IsAgreed t k ours v
answer-IsAgreed t k (some e) (some o) v p h = record {
  entry = e;
  range = o;
  found = p;
  given = refl;
  best = highest_common-IsHighest e.broker o v (ground arith);
}
answer-IsAgreed t k none ours v p h = absurd (cc)
answer-IsAgreed t k (some e) none v p h = absurd (cc)

conclude_err :
    (v : Option ℤ) (failure x : UnsupportedApi) → conclude v failure ≡ err x → failure ≡ x
conclude_err none failure x h = cc
conclude_err (some v) failure x h = absurd (cc)

-- A version that `negotiate_with` answers is the highest one that both the broker's row for the key
-- and the given range offer; in particular both are there.
pub negotiate_with-IsAgreed :
    (t : ApiVersions) (k : ApiKey) (ours : Option VersionRange) (v : ℤ)
    → negotiate_with t k ours ≡ ok v
    → IsAgreed t k ours v
unfolding negotiate_with
negotiate_with-IsAgreed t k ours v h = answer-IsAgreed t k (get t k) ours v refl h

-- Where the broker's row and the given range share any version, `negotiate_with` does not fail.
pub negotiate_with-ne-err :
    (t : ApiVersions) (k : ApiKey) (e : BrokerApiVersion) (ours : VersionRange) (w : ℤ)
    → get t k ≡ some e
    → InRange w e.broker
    → InRange w ours
    → (v : ℤ) × (negotiate_with t k (some ours) ≡ ok v)
unfolding negotiate_with
negotiate_with-ne-err t k e ours w p q r = elim (Option-cases (highest_common e.broker ours)) [
  | inl miss ↦ absurd (highest_common-ne-none e.broker ours w q r miss)
  | inr (v, hit) ↦ (v, rw (p, hit, conclude))
]

-- A failed negotiation reports the key, the given range, and the broker's range for the key where
-- the broker has a row for it.
pub negotiate_with_err :
    (t : ApiVersions) (k : ApiKey) (ours : Option VersionRange) (x : UnsupportedApi)
    → negotiate_with t k ours ≡ err x
    → (x.api_key ≡ k) × (x.ours ≡ ours) × (x.broker ≡ broker_of (get t k))
unfolding negotiate_with
negotiate_with_err t k ours x h =
    let e = conclude_err (version_of (get t k) ours) _ x h in
    (sym (ap (λ y. y.api_key) e), sym (ap (λ y. y.ours) e), sym (ap (λ y. y.broker) e))

collect_rows-lookup :
    (valid_versions : ℤ → Option VersionRange) (rows : List (ℤ × BrokerApiVersion))
    (ts : List (ℤ × ℤ × ℤ)) (t : ℤ × ℤ × ℤ) (c : ℤ)
    → lookup ℤ-discrete c (collect_rows valid_versions rows (ts ++ (t ∷ [])))
      ≡ ite
          (ℤ-discrete t.0 c)
          (some (row valid_versions t))
          (lookup ℤ-discrete c (collect_rows valid_versions rows ts))
unfolding collect_rows
collect_rows-lookup vv rows [] t c = lookup-insert ℤ-discrete t.0 c (row vv t) rows
collect_rows-lookup vv rows (u ∷ ts) t c =
    collect_rows-lookup vv (insert ℤ-discrete u.0 (row vv u) rows) ts t c

-- The table of a response: the last triple of a code is the row of that code, with the broker's
-- range as advertised and our range for the key of the code; other codes are as without that triple.
pub get-from_triples :
    (valid_versions : ℤ → Option VersionRange) (ts : List (ℤ × ℤ × ℤ)) (c lo hi : ℤ) (k : ApiKey)
    → get (from_triples valid_versions (ts ++ ((c, lo, hi) ∷ []))) k
      ≡ ite
          (ℤ-discrete c (code k))
          (some (record {
            api_key = from_code c;
            broker = record { min = lo; max = hi };
            ours = our_range valid_versions (from_code c);
          }))
          (get (from_triples valid_versions ts) k)
unfolding get from_triples
get-from_triples vv ts c lo hi k = collect_rows-lookup vv [] ts (c, lo, hi) (code k)
