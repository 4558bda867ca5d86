-- ===== src/Introspection/Lookup.antt =====
-- Introspection::getService and getTopic of src/introspection.cpp: the type of a service or a topic, and
-- the empty text for one that is not known.
use phntm_bridge.Prelude.{none, some, [], ◌∷◌, Str, Map, find, str_key}
use phntm_bridge.Introspection.{DiscoveredNode}

-- The first node that has the service gives its type.
unfoldable pub get_service : Str → Map Str DiscoveredNode → Str
get_service service [] = []
get_service service ((name, n) ∷ nodes) = elim (find service n.services) [
  | none ↦ get_service service nodes
  | some t ↦ t
]

unfoldable pub get_topic : Str → Map Str Str → Str
get_topic topic topics = elim (find topic topics) [ none ↦ [] | some t ↦ t ]
