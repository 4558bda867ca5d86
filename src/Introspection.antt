-- ===== src/Introspection.antt =====
-- Introspection of src/introspection.cpp: what the bridge knows of the ROS graph, and one run that
-- brings it up to date. What rclcpp reports in a run is `Observed`; a call of it that throws is
-- `none`. A topic and a service have one type here, the first that rclcpp names.
pub mod Endpoints
pub mod Services
pub mod Split
pub mod Names
pub mod Qos
pub mod Verdicts
pub mod Run
pub mod Control
pub mod Lookup
pub mod Idls
pub mod Includes
pub mod Docker
pub mod DockerLaws
pub mod ReportLaws
pub mod Reported
pub mod Reports
pub mod Turns
pub mod Examples
pub mod IdlExamples
use phntm_bridge.Prelude.{
  ℕ, Bool, true, false, not, ◌||◌, Option, none, some, List, [], ◌∷◌, ◌++◌, Str, codes, is_empty,
  mem, if◌then◌else◌, Map, contains, emplace, erase, find, update, str_key,
}
use phntm_bridge.Text.{rfind}

-- A QoS profile is a number, which is all that is asked of it here: equality, and
-- `rclcpp::qos_check_compatible`, which is a parameter where it is used.
pub record SubQos : Type 0 where
  pub qos : ℕ
  pub error : Str
  pub warning : Str

pub record NodePubTopic : Type 0 where
  pub msg_type : Str
  pub qos : List ℕ

pub record NodeSubTopic : Type 0 where
  pub msg_type : Str
  pub qos : List SubQos

pub record DiscoveredNode : Type 0 where
  pub ns : Str
  pub publishers : Map Str NodePubTopic
  pub subscribers : Map Str NodeSubTopic
  pub tmp_publishers : Map Str NodePubTopic
  pub tmp_subscribers : Map Str NodeSubTopic
  pub services : Map Str Str
  pub needs_subscribers_qos_check : Bool

-- A file extractor is known by its node, and stands for the service that it offers.
pub record Discovered : Type 0 where
  pub nodes : Map Str DiscoveredNode
  pub topics : Map Str Str
  pub file_extractors : Map Str Str

-- An endpoint of a topic is its node and its QoS profile.
pub record Observed : Type 0 where
  pub node_names : Option (List Str)
  pub topics_and_types : Option (Map Str Str)
  pub publishers : Str → Option (List (Str × ℕ))
  pub subscribers : Str → Option (List (Str × ℕ))
  pub services : Str → Str → Option (Map Str Str)

-- The name of a node, and its namespace.
unfoldable pub split_name : Str → Str × Str
split_name n = elim (rfind 47 n) [
  | none ↦ (n, 47 ∷ [])
  | some (ns, name) ↦ (name, if is_empty ns then 47 ∷ [] else ns)
]

unfoldable pub nodes_and_namespaces : List Str → Map Str Str → Map Str Str
unfolding split_name
nodes_and_namespaces [] m = m
nodes_and_namespaces (n ∷ ns) m =
    let (name, space) = split_name n in nodes_and_namespaces ns (emplace name space m)

-- The loops that drop what is not observed any more; the flag is whether something was.
unfoldable pub keep_observed : {V W : Type 0} → Map Str W → Map Str V → Map Str V × Bool
keep_observed observed [] = ([], false)
keep_observed observed ((k, v) ∷ m) =
    let (rest, lost) = keep_observed observed m in
    if contains k observed then ((k, v) ∷ rest, lost) else (rest, true)

unfoldable pub reset_node : DiscoveredNode → DiscoveredNode
reset_node n = record n {
  tmp_publishers = [];
  tmp_subscribers = [];
  needs_subscribers_qos_check = false;
}

abbrev pub new_node : Str → DiscoveredNode
new_node ns = record {
  ns = ns;
  publishers = [];
  subscribers = [];
  tmp_publishers = [];
  tmp_subscribers = [];
  services = [];
  needs_subscribers_qos_check = false;
}

-- The loop over the observed nodes; a node that is there is reset.
unfoldable pub add_nodes :
    Map Str Str → Map Str DiscoveredNode × Bool → Map Str DiscoveredNode × Bool
unfolding reset_node
add_nodes [] s = s
add_nodes ((name, ns) ∷ observed) (m, changed) = add_nodes observed (elim (find name m) [
  | none ↦ (emplace name (new_node ns) m, true)
  | some n ↦ (update name reset_node m, changed)
])

-- The extractors of the nodes that were lost are forgotten with them.
unfoldable forget : Map Str Str → Map Str DiscoveredNode → Map Str Str → Map Str Str
forget observed [] extractors = extractors
forget observed ((k, n) ∷ m) extractors =
    forget observed m (if contains k observed then extractors else erase k extractors)

unfoldable pub update_nodes : List Str → Discovered → Discovered × Bool
unfolding nodes_and_namespaces keep_observed add_nodes forget
update_nodes names d =
    let observed = nodes_and_namespaces names [] in
    let (nodes, changed) = add_nodes observed (keep_observed observed d.nodes) in
    (
      record d { nodes = nodes; file_extractors = forget observed d.nodes d.file_extractors },
      changed,
    )
