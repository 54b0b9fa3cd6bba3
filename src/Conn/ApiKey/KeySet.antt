-- ===== src/Conn/ApiKey/KeySet.antt =====
-- kafka-conn/src/api_key.rs: `ApiKeySet`, a set of keys ordered by wire code.
-- The `BTreeSet` of codes is an ascending list.
use kaas_lib.Prelude.{
  ℕ, ◌≡◌, refl, Bool, true, false, ◌&&◌, ◌||◌, Bool-cases, inl, inr, if◌then◌else◌, List, [], ◌∷◌,
  map, length, filter, is_empty, All, arith,
}
use kaas_lib.Prelude.Int.{ℤ, ◌<ℤ◌, ltb_ℤ, eq_ℤ}
use kaas_lib.Conn.ApiKey.{ApiKey}
use kaas_lib.Conn.ApiKey.Code.{code, from_code}

pub record ApiKeySet : Type 0 where
  pub codes : List ℤ

-- `BTreeSet::contains` and `BTreeSet::insert`.
unfoldable pub has_code : ℤ → List ℤ → Bool
has_code c [] = false
has_code c (d ∷ ds) = eq_ℤ c d || has_code c ds

unfoldable pub insert_code : ℤ → List ℤ → List ℤ
insert_code c [] = c ∷ []
insert_code c (d ∷ ds) =
    let rest = insert_code c ds in
    if ltb_ℤ c d then c ∷ d ∷ ds else if eq_ℤ c d then d ∷ ds else d ∷ rest

-- `ApiKeySet::new`
abbrev pub new : ApiKeySet
new = record { codes = [] }

unfoldable pub contains : ApiKeySet → ApiKey → Bool
unfolding has_code
contains s k = has_code (code k) s.codes

-- The keys in both sets.
unfoldable pub intersection : ApiKeySet → ApiKeySet → ApiKeySet
unfolding has_code
intersection s t = record { codes = filter (λ c. has_code c t.codes) s.codes }

-- `is_empty`, `len` and `iter`.
abbrev pub admits_nothing : ApiKeySet → Bool
admits_nothing s = is_empty s.codes

abbrev pub len : ApiKeySet → ℕ
len s = length s.codes

unfoldable pub iter : ApiKeySet → List ApiKey
iter s = map from_code s.codes

unfoldable pub collect_codes : List ℤ → List ApiKey → List ℤ
unfolding insert_code
collect_codes cs [] = cs
collect_codes cs (k ∷ ks) = collect_codes (insert_code (code k) cs) ks

-- `from_iter`
unfoldable pub collect : List ApiKey → ApiKeySet
unfolding collect_codes
collect ks = record { codes = collect_codes [] ks }

-- Whether a list names the key, by its wire code.
abbrev pub names : ApiKey → List ApiKey → Bool
names k [] = false
names k (j ∷ js) = eq_ℤ (code k) (code j) || names k js

has_code-insert_code :
    (c d : ℤ) (cs : List ℤ) → has_code c (insert_code d cs) ≡ (eq_ℤ c d || has_code c cs)
unfolding has_code insert_code
has_code-insert_code c d [] = refl
has_code-insert_code c d (e ∷ es) = ground (arith, has_code-insert_code c d es)

has_code-collect_codes :
    (k : ApiKey) (cs : List ℤ) (ks : List ApiKey)
    → has_code (code k) (collect_codes cs ks) ≡ (has_code (code k) cs || names k ks)
unfolding collect_codes
has_code-collect_codes k cs [] = ground arith
has_code-collect_codes k cs (j ∷ js) = ground (
  arith,
  has_code-collect_codes k (insert_code (code j) cs) js,
  has_code-insert_code (code k) (code j) cs,
)

-- A set that is built from a list contains the keys whose wire codes the list names, and no others.
pub contains-collect : (k : ApiKey) (ks : List ApiKey) → contains (collect ks) k ≡ names k ks
unfolding contains collect has_code
contains-collect k ks = has_code-collect_codes k [] ks

has_code_same : (c d : ℤ) (cs : List ℤ) → eq_ℤ c d ≡ true → has_code c cs ≡ has_code d cs
has_code_same c d cs h = let e : c ≡ d = ground arith in rw e

has_code-filter :
    (c : ℤ) (ds cs : List ℤ)
    → has_code c (filter (λ x. has_code x ds) cs) ≡ (has_code c cs && has_code c ds)
unfolding has_code
has_code-filter c ds [] = refl
has_code-filter c ds (e ∷ es) = ground (arith, has_code-filter c ds es, has_code_same c e ds)

-- The intersection of two sets contains what both contain.
pub contains-intersection :
    (s t : ApiKeySet) (k : ApiKey) → contains (intersection s t) k ≡ (contains s k && contains t k)
unfolding contains intersection
contains-intersection s t k = has_code-filter (code k) t.codes s.codes

-- Each code is below all that follow it.
abbrev pub IsAscending : List ℤ → Type 0
IsAscending [] = Unit {0}
IsAscending (c ∷ cs) = All (λ d. c <ℤ d) cs × IsAscending cs

All-insert_code :
    (b c : ℤ) (cs : List ℤ) → b <ℤ c → All (λ d. b <ℤ d) cs → All (λ d. b <ℤ d) (insert_code c cs)
unfolding insert_code
All-insert_code b c [] lt h = (lt, tt)
All-insert_code b c (d ∷ ds) lt h = ground (arith, All-insert_code b c ds lt h.1)

All-below : (b c : ℤ) (cs : List ℤ) → b <ℤ c → All (λ d. c <ℤ d) cs → All (λ d. b <ℤ d) cs
All-below b c [] lt h = tt
All-below b c (d ∷ ds) lt h = (omega (arith, h.0), All-below b c ds lt h.1)

insert_code-IsAscending : (c : ℤ) (cs : List ℤ) → IsAscending cs → IsAscending (insert_code c cs)
unfolding insert_code
insert_code-IsAscending c [] h = (tt, tt)
insert_code-IsAscending c (d ∷ ds) h =
    ground (arith, insert_code-IsAscending c ds h.1, All-below c d ds, All-insert_code d c ds)

collect_codes-IsAscending :
    (cs : List ℤ) (ks : List ApiKey) → IsAscending cs → IsAscending (collect_codes cs ks)
unfolding collect_codes
collect_codes-IsAscending cs [] h = h
collect_codes-IsAscending cs (k ∷ ks) h =
    collect_codes-IsAscending (insert_code (code k) cs) ks (insert_code-IsAscending (code k) cs h)

All-filter : (P : ℤ → Type 0) (p : ℤ → Bool) (cs : List ℤ) → All P cs → All P (filter p cs)
All-filter P p [] h = tt
All-filter P p (c ∷ cs) h = elim (Bool-cases (p c)) [
  | inl stays ↦ rw stays (h.0, All-filter P p cs h.1)
  | inr goes ↦ rw goes (All-filter P p cs h.1)
]

filter-IsAscending : (p : ℤ → Bool) (cs : List ℤ) → IsAscending cs → IsAscending (filter p cs)
filter-IsAscending p [] h = tt
filter-IsAscending p (c ∷ cs) h = elim (Bool-cases (p c)) [
  | inl stays ↦ rw stays (All-filter (λ d. c <ℤ d) p cs h.0, filter-IsAscending p cs h.1)
  | inr goes ↦ rw goes (filter-IsAscending p cs h.1)
]

-- A set that is built from a list holds its codes in ascending order, each once, and so does the
-- intersection of two such sets.
pub collect-IsAscending :
    (ks js : List ApiKey)
    → IsAscending (collect ks).codes × IsAscending (intersection (collect ks) (collect js)).codes
unfolding collect intersection
collect-IsAscending ks js =
    let built = collect_codes-IsAscending [] ks tt in (built, filter-IsAscending _ _ built)
