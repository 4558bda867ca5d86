-- ===== src/Introspection/Services.antt =====
-- The services, and the file extractors among them, in Introspection::runIntrospection.
use phntm_bridge.Prelude.{
  Bool, true, not, ◌||◌, none, some, List, [], ◌∷◌, Str, codes, str_eq, mem, if◌then◌else◌, Map,
  emplace, find, assign, update, str_key,
}
use phntm_bridge.Introspection.{DiscoveredNode, Discovered, Observed}

abbrev file_request_type : Str
file_request_type = codes "phntm_interfaces/srv/FileRequest"

-- One service of a node, among the services that are known.
unfoldable add_service : List Str → Str → Str → Map Str Str × Bool → Map Str Str × Bool
add_service blacklist service srv_type (services, changed) =
    if mem service blacklist || mem srv_type blacklist
    then (services, changed)
    else elim (find service services) [
      | none ↦ (emplace service srv_type services, true)
      | some known ↦
          if not (str_eq known srv_type)
          then (assign service srv_type services, true)
          else (services, changed)
    ]

unfoldable pub add_services : List Str → Map Str Str → Map Str Str × Bool → Map Str Str × Bool
unfolding add_service
add_services blacklist [] s = s
add_services blacklist ((service, srv_type) ∷ observed) s =
    add_services blacklist observed (add_service blacklist service srv_type s)

-- A node keeps the first extractor that it shows, before the blacklist is asked.
unfoldable add_extractors : Str → Map Str Str → Map Str Str → Map Str Str
add_extractors name [] extractors = extractors
add_extractors name ((service, srv_type) ∷ observed) extractors =
    add_extractors name observed
      (if str_eq srv_type file_request_type then emplace name service extractors else extractors)

-- The loop over the nodes that are known.
unfoldable pub collect_services :
    Observed → List Str → Map Str DiscoveredNode → Discovered × Bool → Discovered × Bool
unfolding add_services add_extractors
collect_services o blacklist [] s = s
collect_services o blacklist ((name, n) ∷ nodes) (d, changed) =
    collect_services o blacklist nodes (elim (o.services name n.ns) [
      | none ↦ (d, changed)
      | some observed ↦
          let (services, changed') = add_services blacklist observed (n.services, changed) in
          (
            record d {
              nodes = update name (λ m. record m { services = services }) d.nodes;
              file_extractors = add_extractors name observed d.file_extractors;
            },
            changed',
          )
    ])
