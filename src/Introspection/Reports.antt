-- ===== src/Introspection/Reports.antt =====
-- The reports of src/introspection.cpp as messages of the socket. A pointer to a message that is
-- emplaced is the message.
use phntm_bridge.Prelude.{
  ℕ, ◌%◌, ◌^◌, ◌-◌, Bool, Option, none, some, List, [], ◌∷◌, Str, codes, is_empty, if◌then◌else◌,
  Map,
}
use phntm_bridge.Services.{
  Msg, int, double, string, boolean, array, object, Msgs, end, item, Entries, empty,
}
use phntm_bridge.Services.Response.{extend, emplace_entry}
use phntm_bridge.Introspection.{SubQos, NodePubTopic, NodeSubTopic, DiscoveredNode}
use phntm_bridge.Introspection.Docker.{Container, DockerStatus, Hosts}

-- What rclcpp::QoS gives of a profile: the depth and the policies as numbers, and the durations in
-- nanoseconds, where `none` is rclcpp::Duration::max().
pub record Profile : Type 0 where
  pub depth : ℕ
  pub history : ℕ
  pub reliability : ℕ
  pub durability : ℕ
  pub lifespan : Option ℕ
  pub deadline : Option ℕ

-- A cast to int, of 32 bits, which an int message takes as an int64_t.
abbrev to_int : ℕ → Msg
to_int n = int (extend 32 (n % 2 ^ 32))

abbrev duration : Option ℕ → Msg
duration none = int (2 ^ 64 - 1)
duration (some ns) = to_int ns

-- The maps are those of objects, filled by emplace.
abbrev fill : List (Str × Msg) → Entries → Entries
fill [] es = es
fill ((k, m) ∷ kms) es = fill kms (emplace_entry k m es)

unfoldable pub create_qos_message : Profile → Msg
unfolding emplace_entry
create_qos_message q = object (
    fill
      ((codes "depth", to_int q.depth)
        ∷ (codes "history", to_int q.history)
        ∷ (codes "reliability", to_int q.reliability)
        ∷ (codes "durability", to_int q.durability)
        ∷ (codes "lifespan", duration q.lifespan)
        ∷ (codes "deadline", duration q.deadline)
        ∷ [])
      empty)

-- The loop over the entries of a map.
unfoldable pub emplace_all : {V : Type 0} → (V → Msg) → Map Str V → Entries → Entries
unfolding emplace_entry
emplace_all f [] es = es
emplace_all f ((k, v) ∷ m) es = emplace_all f m (emplace_entry k (f v) es)

abbrev pub messages : {A : Type 0} → (A → Msg) → List A → Msgs
messages f [] = end
messages f (a ∷ rest) = item (f a) (messages f rest)

-- A profile is a number, of which `profile` gives what is reported.
module _ (profile : ℕ → Profile) where
  abbrev pub publisher_message : NodePubTopic → Msg
  publisher_message t = object (
      fill
        ((codes "msg_type", string t.msg_type)
          ∷ (codes "qos", array (messages (λ q. create_qos_message (profile q)) t.qos))
          ∷ [])
        empty)

  -- The error and the warning are left out where they are empty.
  unfoldable pub sub_qos_message : SubQos → Msg
  unfolding emplace_entry create_qos_message
  sub_qos_message q =
      let es = emplace_entry (codes "qos") (create_qos_message (profile q.qos)) empty in
      let es' =
        if is_empty q.error then es else emplace_entry (codes "error") (string q.error) es in
      object
        (if is_empty q.warning then es' else emplace_entry (codes "warning") (string q.warning) es')

  abbrev pub subscriber_message : NodeSubTopic → Msg
  subscriber_message t = object (
      fill
        ((codes "msg_type", string t.msg_type)
          ∷ (codes "qos", array (messages sub_qos_message t.qos))
          ∷ [])
        empty)

  unfoldable pub node_message : DiscoveredNode → Msg
  unfolding emplace_all sub_qos_message
  node_message n = object (
      fill
        ((codes "namespace", string n.ns)
          ∷ (codes "publishers", object (emplace_all publisher_message n.publishers empty))
          ∷ (codes "subscribers", object (emplace_all subscriber_message n.subscribers empty))
          ∷ (codes "services", object (emplace_all string n.services empty))
          ∷ [])
        empty)

  unfoldable pub report_nodes : Map Str DiscoveredNode → Msg
  unfolding emplace_all node_message
  report_nodes nodes = object (emplace_all node_message nodes empty)

unfoldable report_idls : Map Str Str → Msg
unfolding emplace_all
report_idls idls = object (emplace_all string idls empty)

-- The numbers of a container are patterns of 64 bits.
unfoldable container_message : Container → Msg
unfolding emplace_entry
container_message c = object (
    fill
      ((codes "block_io_read_bytes", int c.block_io_read_bytes)
        ∷ (codes "block_io_write_bytes", int c.block_io_write_bytes)
        ∷ (codes "cpu_percent", double c.cpu_percent)
        ∷ (codes "id", string c.id)
        ∷ (codes "name", string c.name)
        ∷ (codes "pids", int c.pids)
        ∷ (codes "status", int c.status)
        ∷ [])
      empty)

unfoldable host_message : DockerStatus → Msg
unfolding emplace_entry container_message
host_message s =
    let stamp =
      object (fill ((codes "sec", int s.sec) ∷ (codes "nanosec", int s.nanosec) ∷ []) empty) in
    let header =
      object (fill ((codes "frame_id", string s.frame_id) ∷ (codes "stamp", stamp) ∷ []) empty) in
    object (
      fill
        ((codes "header", header)
          ∷ (codes "containers", array (messages container_message s.containers))
          ∷ [])
        empty)

unfoldable report_docker : Hosts → Msg
unfolding emplace_all host_message
report_docker hosts = object (emplace_all host_message hosts empty)

unfoldable report_running_state : Bool → Msg
report_running_state running = boolean running

-- Introspection::report, and the order of its messages: the definitions before what uses them.
unfoldable report :
    (ℕ → Profile) → Map Str Str → Map Str DiscoveredNode → Hosts → Bool → List (Str × Msg)
unfolding report_idls report_nodes report_docker report_running_state
report profile idls nodes hosts running =
    (codes "idls", report_idls idls)
    ∷ (codes "nodes", report_nodes profile nodes)
    ∷ (codes "docker", report_docker hosts)
    ∷ (codes "introspection", report_running_state running)
    ∷ []
