-- ===== src/Introspection/Names.antt =====
-- Which nodes and which topics the bridge knows after a run.
use phntm_bridge.Prelude.{
  any, ℕ, ◌≡◌, refl, ap, ◌∙◌, Bool, false, not, ◌&&◌, ◌||◌, none, some, List, [], ◌∷◌, Str, str_eq,
  str_eq_iff, str_key, nat_key, mem, Map, contains, find, emplace, update, find-emplace,
  find-update, arith, Option-cases, inl, inr,
}
use phntm_bridge.Introspection.Split.{base_name, split_name-base_name}
use phntm_bridge.Introspection.{
  split_name, DiscoveredNode, Discovered, Observed, nodes_and_namespaces, keep_observed, add_nodes,
  update_nodes, reset_node, new_node,
}
use phntm_bridge.Introspection.Endpoints.{
  add_endpoints, collect_topic, add_topics, settle_nodes, add_publisher, add_subscriber,
}
use phntm_bridge.Introspection.Services.{collect_services, add_services}
use phntm_bridge.Introspection.Qos.{Compatibility, check_subscriber_qos}
use phntm_bridge.Introspection.Run.{run_topics, run_introspection}

module _ {V : Type 0} where
  contains-emplace :
      (k j : Str) (v : V) (m : Map Str V) → contains j (emplace k v m) ≡ contains j m || str_eq k j
  contains-emplace k j v m = ground (arith, find-emplace k j v m, str_eq_iff k j)

  contains-update :
      (k j : Str) (f : V → V) (m : Map Str V) → contains j (update k f m) ≡ contains j m
  contains-update k j f m = ground (arith, find-update k j f m)

  contains-keep_observed :
      {W : Type 0} (observed : Map Str W) (m : Map Str V) (j : Str)
      → contains j (keep_observed observed m).0 ≡ contains j m && contains j observed
  unfolding keep_observed find
  contains-keep_observed observed [] j = ground arith
  contains-keep_observed observed ((k, v) ∷ m) j =
      ground (arith, contains-keep_observed observed m j, str_eq_iff k j)

contains-add_nodes :
    (observed : Map Str Str) (s : Map Str DiscoveredNode × Bool) (j : Str)
    → contains j (add_nodes observed s).0 ≡ contains j s.0 || contains j observed
unfolding add_nodes find
contains-add_nodes [] s j = ground arith
contains-add_nodes ((k, ns) ∷ observed) (m, c) j =
    contains-add_nodes observed _ j
    ∙ ground (
      arith,
      contains-emplace k j (new_node ns) m,
      contains-update k j reset_node m,
      str_eq_iff k j,
    )

contains-add_endpoints :
    (add : ℕ → DiscoveredNode → DiscoveredNode) (es : List (Str × ℕ))
    (nodes : Map Str DiscoveredNode) (j : Str)
    → contains j (add_endpoints add es nodes) ≡ contains j nodes
unfolding add_endpoints
contains-add_endpoints add [] nodes j = refl
contains-add_endpoints add ((k, q) ∷ es) nodes j =
    contains-add_endpoints add es _ j ∙ contains-update k j (add q) nodes

contains-collect_topic :
    (o : Observed) (t ty : Str) (nodes : Map Str DiscoveredNode) (j : Str)
    → contains j (collect_topic o t ty nodes) ≡ contains j nodes
unfolding collect_topic
contains-collect_topic o t ty nodes j = elim (Option-cases (o.publishers t)) [
  | inl p ↦ ground (arith, p)
  | inr (pubs, p) ↦
      let nodes' = add_endpoints (add_publisher t ty) pubs nodes in
      let first = contains-add_endpoints (add_publisher t ty) pubs nodes j in
      elim (Option-cases (o.subscribers t)) [
        | inl q ↦ ground (arith, p, q, first)
        | inr (subs, q) ↦
            ground (arith, p, q, first, contains-add_endpoints (add_subscriber t ty) subs nodes' j)
      ]
]

-- The topic is observed with its name and its type outside the blacklist.
abbrev admitted : List Str → Str → Map Str Str → Bool
admitted blacklist j [] = false
admitted blacklist j ((t, ty) ∷ observed) =
    (str_eq t j && not (mem t blacklist || mem ty blacklist)) || admitted blacklist j observed

add_topics_lem :
    (o : Observed) (blacklist : List Str) (observed : Map Str Str) (s : Discovered × Bool) (j : Str)
    → (contains j (add_topics o blacklist observed s).0.topics
        ≡ contains j s.0.topics || admitted blacklist j observed)
      × (contains j (add_topics o blacklist observed s).0.nodes ≡ contains j s.0.nodes)
unfolding add_topics
add_topics_lem o blacklist [] s j = (ground arith, refl)
add_topics_lem o blacklist ((t, ty) ∷ observed) (d, c) j =
    let (topics, nodes) = add_topics_lem o blacklist observed _ j in
    (
      topics ∙ ground (arith, contains-emplace t j ty d.topics, str_eq_iff t j),
      nodes ∙ ground (arith, contains-collect_topic o t ty d.nodes j),
    )

contains-settle_nodes :
    (m : Map Str DiscoveredNode) (j : Str) → contains j (settle_nodes m).0 ≡ contains j m
unfolding settle_nodes find
contains-settle_nodes [] j = refl
contains-settle_nodes ((k, n) ∷ m) j = ground (arith, contains-settle_nodes m j)

contains-check :
    (qos : ℕ → ℕ → Compatibility) (all m : Map Str DiscoveredNode) (j : Str)
    → contains j (check_subscriber_qos qos all m) ≡ contains j m
unfolding check_subscriber_qos find
contains-check qos all [] j = refl
contains-check qos all ((k, n) ∷ m) j = ground (arith, contains-check qos all m j)

collect_services_lem :
    (o : Observed) (blacklist : List Str) (m : Map Str DiscoveredNode) (s : Discovered × Bool)
    (j : Str)
    → ((collect_services o blacklist m s).0.topics ≡ s.0.topics)
      × (contains j (collect_services o blacklist m s).0.nodes ≡ contains j s.0.nodes)
unfolding collect_services
collect_services_lem o blacklist [] s j = (refl, refl)
collect_services_lem o blacklist ((k, n) ∷ m) (d, c) j =
    let (topics, nodes) = collect_services_lem o blacklist m _ j in
    (
      topics ∙ ground arith,
      nodes
          ∙ ground (
            arith,
            contains-update k j
                (λ i. record i {
                  services = elim (o.services k n.ns) [
                    | none ↦ i.services
                    | some observed ↦ (add_services blacklist observed (n.services, c)).0
                  ];
                })
                d.nodes,
          ),
    )

-- A node is one whose name is the part behind the last slash.
abbrev is_named : Str → Str → Bool
is_named j n = str_eq (base_name n) j

contains-nodes_and_namespaces :
    (names : List Str) (m : Map Str Str) (j : Str)
    → contains j (nodes_and_namespaces names m) ≡ contains j m || any (is_named j) names
unfolding nodes_and_namespaces
contains-nodes_and_namespaces [] m j = ground arith
contains-nodes_and_namespaces (n ∷ ns) m j =
    contains-nodes_and_namespaces ns _ j
    ∙ ground (arith, contains-emplace (split_name n).0 j (split_name n).1 m, split_name-base_name n)

contains-update_nodes :
    (names : List Str) (d : Discovered) (j : Str)
    → contains j (update_nodes names d).0.nodes ≡ contains j (nodes_and_namespaces names [])
unfolding update_nodes
contains-update_nodes names d j =
    let observed = nodes_and_namespaces names [] in
    ground (
      arith,
      contains-add_nodes observed (keep_observed observed d.nodes) j,
      contains-keep_observed observed d.nodes j,
    )

update_nodes-topics :
    (names : List Str) (d : Discovered) → (update_nodes names d).0.topics ≡ d.topics
unfolding update_nodes
update_nodes-topics names d = refl

run_topics_lem :
    (qos : ℕ → ℕ → Compatibility) (blacklist_topics blacklist_services : List Str) (o : Observed)
    (observed : Map Str Str) (d : Discovered) (found : Bool) (j : Str)
    → let d' = (run_topics qos blacklist_topics blacklist_services o observed (d, found)).0 in
      (contains j d'.nodes ≡ contains j d.nodes)
      × (contains j d'.topics
          ≡ (contains j d.topics && contains j observed) || admitted blacklist_topics j observed)
unfolding run_topics
run_topics_lem qos blacklist_topics blacklist_services o observed d found j = (
  services.1
      ∙ (contains-check qos settled settled j ∙ (contains-settle_nodes s.0.nodes j ∙ added.1)),
  ap (contains j) services.0
      ∙ (added.0
          ∙ ap (λ b. b || admitted blacklist_topics j observed)
              (contains-keep_observed observed d.topics j)),
)
  where
    kept : Discovered × Bool
    kept = (
      record d { topics = (keep_observed observed d.topics).0 },
      (keep_observed observed d.topics).1,
    )

    s : Discovered × Bool
    s = add_topics o blacklist_topics observed kept

    added :
        (contains j s.0.topics
          ≡ contains j (keep_observed observed d.topics).0 || admitted blacklist_topics j observed)
        × (contains j s.0.nodes ≡ contains j d.nodes)
    added = add_topics_lem o blacklist_topics observed kept j

    settled : Map Str DiscoveredNode
    settled = (settle_nodes s.0.nodes).0

    checked : Discovered
    checked = record s.0 { nodes = check_subscriber_qos qos settled settled }

    services :
        ((collect_services o blacklist_services checked.nodes (checked, false)).0.topics
          ≡ s.0.topics)
        × (contains j (collect_services o blacklist_services checked.nodes (checked, false)).0.nodes
            ≡ contains j checked.nodes)
    services = collect_services_lem o blacklist_services checked.nodes (checked, false) j

-- After a run that sees the nodes and the topics of the graph, the bridge knows a node of a name exactly
-- if a node was seen whose full name is that name behind its last slash: nodes of one name in several
-- namespaces are known as one. And it knows exactly the seen topics that it knew before, or that are
-- outside the blacklist.
pub run_names :
    (qos : ℕ → ℕ → Compatibility) (blacklist_topics blacklist_services : List Str) (o : Observed)
    (d : Discovered) (names : List Str) (observed : Map Str Str) (j : Str)
    → o.node_names ≡ some names
    → o.topics_and_types ≡ some observed
    → let d' = (run_introspection qos blacklist_topics blacklist_services o d).0 in
      (contains j d'.nodes ≡ any (λ n. str_eq (base_name n) j) names)
      × (contains j d'.topics
          ≡ (contains j d.topics && contains j observed) || admitted blacklist_topics j observed)
unfolding run_introspection
run_names qos blacklist_topics blacklist_services o d names observed j h k =
    let (nodes, topics) =
      run_topics_lem qos blacklist_topics blacklist_services o observed (update_nodes names d).0
        (update_nodes names d).1 j in
    (
      ground (arith, h, k, nodes, contains-update_nodes names d j, seen),
      ground (arith, h, k, topics, update_nodes-topics names d),
    )
  where
    seen : contains j (nodes_and_namespaces names []) ≡ any (λ n. str_eq (base_name n) j) names
    seen = unfold find in contains-nodes_and_namespaces names [] j
