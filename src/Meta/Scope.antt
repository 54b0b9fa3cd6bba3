-- ===== src/Meta/Scope.antt =====
-- kafka-meta/src/cluster.rs: a handle that may send only some of the mutating keys, over connections
-- that have their own ceiling.
use kaas_lib.Prelude.{◌≡◌, Bool, true, ◌&&◌, ◌||◌, not, Option, none, some, List, [], ◌∷◌, arith}
use kaas_lib.Conn.ApiKey.{ApiKey, is_mutating}
use kaas_lib.Conn.ApiKey.KeySet.{
  ApiKeySet, intersection, collect, names, contains-collect, contains-intersection,
}
use kaas_lib.Conn.Gate.{ConnectionConfig, with_allowed_mutations, with_read_only, admits, permits}

-- The match of `scoped` on the handle's scope.
abbrev pub narrowed : Option ApiKeySet → ApiKeySet → ApiKeySet
narrowed (some current) keys = intersection current keys
narrowed none keys = keys

-- `Cluster::scoped`: the scope of the new handle.
unfoldable pub scoped : Option ApiKeySet → List ApiKey → Option ApiKeySet
scoped scope keys = some (narrowed scope (collect keys))

-- Whether the handle's scope admits a request with this api key.
unfoldable pub in_scope : Option ApiKeySet → ApiKey → Bool
in_scope scope k = not (is_mutating k) || admits scope k

-- Handles made of handles.
abbrev pub scoped_all : Option ApiKeySet → List (List ApiKey) → Option ApiKeySet
scoped_all scope [] = scope
scoped_all scope (keys ∷ kss) = scoped_all (scoped scope keys) kss

-- Whether every list names the key.
abbrev pub named_by_all : ApiKey → List (List ApiKey) → Bool
named_by_all k [] = true
named_by_all k (keys ∷ kss) = names k keys && named_by_all k kss

admits-scoped :
    (scope : Option ApiKeySet) (keys : List ApiKey) (k : ApiKey)
    → admits (scoped scope keys) k ≡ (admits scope k && names k keys)
unfolding scoped
admits-scoped none keys k = contains-collect k keys
admits-scoped (some current) keys k =
    ground (arith, contains-intersection current (collect keys) k, contains-collect k keys)

admits-scoped_all :
    (scope : Option ApiKeySet) (kss : List (List ApiKey)) (k : ApiKey)
    → admits (scoped_all scope kss) k ≡ (admits scope k && named_by_all k kss)
admits-scoped_all scope [] k = ground arith
admits-scoped_all scope (keys ∷ kss) k =
    ground (arith, admits-scoped_all (scoped scope keys) kss k, admits-scoped scope keys k)

-- A handle scoped any number of times over a connection with a ceiling passes a request through
-- both gates exactly when its key does not mutate, or when the connection is not read-only and the
-- ceiling and each of the scopes name the key; so a scope only narrows.
pub in_scope-permits :
    (c : ConnectionConfig) (ceiling : List ApiKey) (kss : List (List ApiKey)) (k : ApiKey)
    → (in_scope (scoped_all none kss) k && permits (with_allowed_mutations c ceiling) k)
      ≡ (not (is_mutating k) || (not c.read_only && (names k ceiling && named_by_all k kss)))
unfolding in_scope permits with_allowed_mutations
in_scope-permits c ceiling kss k =
    ground (arith, admits-scoped_all none kss k, contains-collect k ceiling)

-- A read-only connection and one with an empty ceiling let through exactly the keys that do not
-- mutate, under every scope.
pub permits_read_only :
    (c : ConnectionConfig) (k : ApiKey)
    → (permits (with_read_only c) k ≡ not (is_mutating k))
      × (permits (with_allowed_mutations c []) k ≡ not (is_mutating k))
unfolding permits with_allowed_mutations
permits_read_only c k = ground (arith, contains-collect k [])
