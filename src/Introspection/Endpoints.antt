-- ===== src/Introspection/Endpoints.antt =====
-- Who publishes and who subscribes, in Introspection::runIntrospection: a run collects the endpoints
-- of every topic by node, and compares them with those of the run before.
use phntm_bridge.Prelude.{
  ℕ, Bool, true, false, not, ◌||◌, none, some, List, [], ◌∷◌, ◌++◌, Str, any, length, nat_eq,
  str_eq, mem, if◌then◌else◌, Map, contains, emplace, find, update, str_key,
}
use phntm_bridge.Introspection.{
  SubQos, NodePubTopic, NodeSubTopic, DiscoveredNode, Discovered, Observed,
}

abbrev fresh_qos : ℕ → SubQos
fresh_qos q = record { qos = q; error = []; warning = [] }

-- One more publisher of a topic on a node.
unfoldable pub add_publisher : Str → Str → ℕ → DiscoveredNode → DiscoveredNode
add_publisher topic msg_type q n = record n {
  tmp_publishers =
      if contains topic n.tmp_publishers
      then update topic (λ p. record p { qos = p.qos ++ q ∷ [] }) n.tmp_publishers
      else emplace topic (record { msg_type = msg_type; qos = q ∷ [] }) n.tmp_publishers;
}

unfoldable pub add_subscriber : Str → Str → ℕ → DiscoveredNode → DiscoveredNode
add_subscriber topic msg_type q n = record n {
  tmp_subscribers =
      if contains topic n.tmp_subscribers
      then update topic (λ p. record p { qos = p.qos ++ fresh_qos q ∷ [] }) n.tmp_subscribers
      else emplace topic (record { msg_type = msg_type; qos = fresh_qos q ∷ [] }) n.tmp_subscribers;
}

-- The loops over the endpoints of one topic; one on a node that is not known is passed over.
unfoldable pub add_endpoints :
    (ℕ → DiscoveredNode → DiscoveredNode)
    → List (Str × ℕ)
    → Map Str DiscoveredNode
    → Map Str DiscoveredNode
add_endpoints add [] nodes = nodes
add_endpoints add ((name, q) ∷ es) nodes = add_endpoints add es (update name (add q) nodes)

-- The endpoints of a topic. Where the publishers are not known, the subscribers are not asked for.
unfoldable pub collect_topic :
    Observed → Str → Str → Map Str DiscoveredNode → Map Str DiscoveredNode
unfolding add_endpoints add_publisher add_subscriber
collect_topic o topic msg_type nodes = elim (o.publishers topic) [
  | none ↦ nodes
  | some pubs ↦
      let nodes' = add_endpoints (add_publisher topic msg_type) pubs nodes in
      elim (o.subscribers topic) [
        | none ↦ nodes'
        | some subs ↦ add_endpoints (add_subscriber topic msg_type) subs nodes'
      ]
]

-- The loop over the observed topics.
unfoldable pub add_topics :
    Observed → List Str → Map Str Str → Discovered × Bool → Discovered × Bool
unfolding collect_topic
add_topics o blacklist [] s = s
add_topics o blacklist ((topic, msg_type) ∷ observed) (d, changed) =
    let new = not (contains topic d.topics) in
    add_topics o blacklist observed (
      if mem topic blacklist || mem msg_type blacklist then (d, changed) else (
        record d {
          topics = if new then emplace topic msg_type d.topics else d.topics;
          nodes = collect_topic o topic msg_type d.nodes;
        },
        new || changed,
      ))

-- tmp.qos[i] != old.qos[i] for some i, on lists of one length
unfoldable qos_differ : List ℕ → List ℕ → Bool
qos_differ [] ys = false
qos_differ (x ∷ xs) [] = false
qos_differ (x ∷ xs) (y ∷ ys) = not (nat_eq x y) || qos_differ xs ys

-- A publisher that was there before, and what the run has collected.
unfoldable pub_changed : Map Str NodePubTopic → Str × NodePubTopic → Bool
unfolding qos_differ
pub_changed tmp (topic, old) = elim (find topic tmp) [
  | none ↦ true
  | some new ↦
      not (str_eq new.msg_type old.msg_type)
      || (not (nat_eq (length new.qos) (length old.qos)) || qos_differ new.qos old.qos)
]

abbrev profiles : List SubQos → List ℕ
profiles [] = []
profiles (q ∷ qs) = q.qos ∷ profiles qs

unfoldable sub_changed : Map Str NodeSubTopic → Str × NodeSubTopic → Bool
unfolding qos_differ
sub_changed tmp (topic, old) = elim (find topic tmp) [
  | none ↦ true
  | some new ↦
      not (str_eq new.msg_type old.msg_type)
      || (not (nat_eq (length new.qos) (length old.qos))
          || qos_differ (profiles new.qos) (profiles old.qos))
]

unfoldable pubs_changed : DiscoveredNode → Bool
unfolding pub_changed
pubs_changed n =
    any (λ p. not (contains p.0 n.publishers)) n.tmp_publishers
    || any (pub_changed n.tmp_publishers) n.publishers

unfoldable subs_changed : DiscoveredNode → Bool
unfolding sub_changed
subs_changed n =
    any (λ p. not (contains p.0 n.subscribers)) n.tmp_subscribers
    || any (sub_changed n.tmp_subscribers) n.subscribers

-- What was collected takes the place of what was known. The error and the warning of a profile that
-- has not changed are copied into a value that is dropped behind the comparison (`auto tmp`), so
-- the collected ones stand.
unfoldable settle_node : DiscoveredNode → DiscoveredNode × Bool
unfolding pubs_changed subs_changed
settle_node n = (
  record n {
    publishers = n.tmp_publishers;
    subscribers = n.tmp_subscribers;
    needs_subscribers_qos_check = subs_changed n || n.needs_subscribers_qos_check;
  },
  subs_changed n || pubs_changed n,
)

unfoldable pub settle_nodes : Map Str DiscoveredNode → Map Str DiscoveredNode × Bool
unfolding settle_node
settle_nodes [] = ([], false)
settle_nodes ((k, n) ∷ m) =
    let (n', changed) = settle_node n in
    let (m', others) = settle_nodes m in ((k, n') ∷ m', changed || others)
