-- ===== src/Introspection/Qos.antt =====
-- Introspection::checkSubscriberQos. `qos_check_compatible` is rclcpp's.
use phntm_bridge.Prelude.{
  ℕ, false, none, some, List, [], ◌∷◌, Str, if◌then◌else◌, Map, find, str_key,
}
use phntm_bridge.Introspection.{SubQos, NodeSubTopic, DiscoveredNode}

-- rclcpp::QoSCheckCompatibleResult, a failed comparison with its reason
pub data Compatibility : Type 0 where
  ok : Compatibility
  warning : Str → Compatibility
  error : Str → Compatibility

module _ (qos_check_compatible : ℕ → ℕ → Compatibility) where
  -- One publisher against one subscriber.
  unfoldable pub check_one : ℕ → SubQos → SubQos
  check_one pub_qos s = elim (qos_check_compatible pub_qos s.qos) [
    | ok ↦ s
    | warning reason ↦ record s { error = []; warning = reason }
    | error reason ↦ record s { error = reason; warning = [] }
  ]

  unfoldable pub check_all : List ℕ → SubQos → SubQos
  unfolding check_one
  check_all [] s = s
  check_all (q ∷ qs) s = check_all qs (check_one q s)

  -- The publishers of the topic, node by node.
  unfoldable pub check_nodes : Str → Map Str DiscoveredNode → SubQos → SubQos
  unfolding check_all
  check_nodes topic [] s = s
  check_nodes topic ((k, n) ∷ nodes) s =
      check_nodes topic nodes
        (elim (find topic n.publishers) [ none ↦ s | some p ↦ check_all p.qos s ])

  unfoldable pub check_profiles : Str → Map Str DiscoveredNode → List SubQos → List SubQos
  unfolding check_nodes
  check_profiles topic nodes [] = []
  check_profiles topic nodes (s ∷ ss) =
      check_nodes topic nodes (record s { error = []; warning = [] })
      ∷ check_profiles topic nodes ss

  unfoldable check_subscribers :
      Map Str DiscoveredNode → Map Str NodeSubTopic → Map Str NodeSubTopic
  unfolding check_profiles
  check_subscribers nodes [] = []
  check_subscribers nodes ((topic, t) ∷ subs) =
      (topic, record t { qos = check_profiles topic nodes t.qos }) ∷ check_subscribers nodes subs

  -- The loop over the nodes that need the check. A check changes no publisher, so all of them see the
  -- publishers that the loop starts from.
  unfoldable pub check_subscriber_qos :
      Map Str DiscoveredNode → Map Str DiscoveredNode → Map Str DiscoveredNode
  unfolding check_subscribers
  check_subscriber_qos all [] = []
  check_subscriber_qos all ((k, n) ∷ nodes) =
      let rest = check_subscriber_qos all nodes in
      if n.needs_subscribers_qos_check
      then (
        k,
        record n {
          subscribers = check_subscribers all n.subscribers;
          needs_subscribers_qos_check = false;
        },
      )
        ∷ rest
      else (k, n) ∷ rest
