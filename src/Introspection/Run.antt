-- ===== src/Introspection/Run.antt =====
-- One call of Introspection::runIntrospection, for an introspection that is running and in no other
-- call: what it finds, up to its reports, the message definitions that it collects for them, and the
-- stop after a time.
use phntm_bridge.Prelude.{ℕ, Bool, false, ◌||◌, Option, none, some, List, Str, Map, str_key}
use phntm_bridge.Introspection.{Discovered, Observed, update_nodes, keep_observed}
use phntm_bridge.Introspection.Endpoints.{add_topics, settle_nodes}
use phntm_bridge.Introspection.Services.{collect_services}
use phntm_bridge.Introspection.Qos.{Compatibility, check_subscriber_qos}

-- What a run reports: `none` where it was given up, else whether nodes, topics and services changed.
abbrev Report : Type 0
Report = Option (Bool × (Bool × Bool))

-- The run behind its two questions, with the nodes updated.
unfoldable pub run_topics :
    (ℕ → ℕ → Compatibility)
    → List Str
    → List Str
    → Observed
    → Map Str Str
    → Discovered × Bool
    → Discovered × Report
unfolding keep_observed add_topics settle_nodes check_subscriber_qos collect_services
run_topics qos blacklist_topics blacklist_services o observed (d₁, found) =
    let (topics, lost) = keep_observed observed d₁.topics in
    let (d₂, topics_changed) =
      add_topics o blacklist_topics observed (record d₁ { topics = topics }, lost) in
    let (nodes, endpoints) = settle_nodes d₂.nodes in
    let d₃ = record d₂ { nodes = check_subscriber_qos qos nodes nodes } in
    let (d₄, services_changed) = collect_services o blacklist_services d₃.nodes (d₃, false) in
    (d₄, some (endpoints || found, (topics_changed, services_changed)))

unfoldable pub run_introspection :
    (ℕ → ℕ → Compatibility) → List Str → List Str → Observed → Discovered → Discovered × Report
unfolding update_nodes run_topics
run_introspection qos blacklist_topics blacklist_services o d = elim o.node_names [
  | none ↦ (d, none)
  | some names ↦ elim o.topics_and_types [
    | none ↦ ((update_nodes names d).0, none)
    | some observed ↦
        run_topics qos blacklist_topics blacklist_services o observed (update_nodes names d)
  ]
]
