-- ===== src/Meta/Tests.antt =====
-- Scoped handles and routing at single keys.
use kaas_lib.Prelude.{
  Bool, true, some, ◌≡◌, refl, false, ◌&&◌, ◌||◌, not, none, List, [], ◌∷◌, String,
}
use kaas_lib.Prelude.Int.{pos}
use kaas_lib.Conn.ApiKey.{ApiKey, create_topics, offset_commit, unknown, is_mutating}
use kaas_lib.Conn.ApiKey.KeySet.{names}
use kaas_lib.Conn.Gate.{ConnectionConfig, with_allowed_mutations, permits}
use kaas_lib.Meta.Routing.{routing, controller, coordinator, group, any_broker}
use kaas_lib.Meta.Snapshot.{TopicInfo, topic_by_name, assemble, with_topics_merged}
use kaas_lib.Meta.Snapshot.Index.{or_else, last_named}
use kaas_lib.Meta.Snapshot.Merge.{topic_by_name-with_topics_merged}
use kaas_lib.Meta.Scope.{in_scope, scoped_all, named_by_all, in_scope-permits}

abbrev config : ConnectionConfig
config = record { read_only = false; allowed_mutations = none }

abbrev scopes : List (List ApiKey)
scopes = (create_topics ∷ offset_commit ∷ []) ∷ (offset_commit ∷ []) ∷ []

in_scope-permits_example :
    (in_scope (scoped_all none scopes) create_topics
      && permits (with_allowed_mutations config (create_topics ∷ [])) create_topics)
    ≡ (not (is_mutating create_topics)
        || (not config.read_only
            && (names create_topics (create_topics ∷ []) && named_by_all create_topics scopes)))
in_scope-permits_example = in_scope-permits config (create_topics ∷ []) scopes create_topics

create_topics_routing : routing create_topics ≡ controller
unfolding routing
create_topics_routing = refl

unknown_routing : routing (unknown (pos 999)) ≡ any_broker
unfolding routing
unknown_routing = refl

offset_commit_routing : routing offset_commit ≡ coordinator group
unfolding routing
offset_commit_routing = refl

abbrev topic_info : String → Bool → TopicInfo
topic_info name internal = record {
  name = name;
  topic_id = [];
  internal = internal;
  partitions = [];
  error = none;
}

abbrev known_topics : List TopicInfo
known_topics = topic_info "orders" false ∷ topic_info "payments" false ∷ []

abbrev newer : List TopicInfo
newer = topic_info "orders" true ∷ topic_info "audit" false ∷ topic_info "audit" true ∷ []

topic_by_name-with_topics_merged_example :
    let s = assemble [] known_topics (some (pos 1)) none in
    topic_by_name (with_topics_merged s newer) "audit"
    ≡ or_else (last_named "audit" newer) (topic_by_name s "audit")
topic_by_name-with_topics_merged_example =
    topic_by_name-with_topics_merged [] known_topics newer (some (pos 1)) none "audit"
