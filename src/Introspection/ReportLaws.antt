-- ===== src/Introspection/ReportLaws.antt =====
-- What the cloud can read from the reports of src/introspection.cpp.
use phntm_bridge.Prelude.{
  ℕ, ◌≡◌, refl, ◌∙◌, Option, none, some, List, [], ◌∷◌, Str, codes, str_eq, str_lt, is_some,
  if◌then◌else◌, Map, find, str_key, arith, str_eq_iff,
}
use phntm_bridge.Services.{
  Msg, null, binary, int, double, string, boolean, array, object, Entries, empty, entry,
}
use phntm_bridge.Services.Response.{find_entry, insert_entry, emplace_entry}
use phntm_bridge.Introspection.{DiscoveredNode}
use phntm_bridge.Introspection.Reports.{
  Profile, emplace_all, node_message, report_nodes, publisher_message, subscriber_message,
}

module _ {V : Type 0} (f : V → Msg) where
  abbrev pub as_message : Option V → Option Msg
  as_message none = none
  as_message (some v) = some (f v)

find_insert_entry :
    (k j : Str) (m : Msg) (es : Entries)
    → find_entry k es ≡ none
    → find_entry j (insert_entry k m es) ≡ (if str_eq k j then some m else find_entry j es)
unfolding find_entry insert_entry
find_insert_entry k j m empty h = refl
find_insert_entry k j m (entry i n rest) h = ground (
  arith,
  h,
  find_insert_entry k j m rest,
  str_eq_iff k j,
  str_eq_iff i k,
  str_eq_iff i j,
  str_eq_iff k k,
)

find_emplace_entry :
    (k j : Str) (m : Msg) (es : Entries)
    → find_entry j (emplace_entry k m es) ≡ (
        if is_some (find_entry k es)
        then find_entry j es
        else (if str_eq k j then some m else find_entry j es))
unfolding emplace_entry
find_emplace_entry k j m es = ground (arith, find_insert_entry k j m es)

-- An object that is filled from a map has the message of the map's entry, for each key.
find-emplace_all :
    {V : Type 0} (f : V → Msg) (j : Str) (m : Map Str V) (es : Entries)
    → find_entry j (emplace_all f m es)
      ≡ (if is_some (find_entry j es) then find_entry j es else as_message f (find j m))
unfolding emplace_all find
find-emplace_all f j [] es = ground arith
find-emplace_all f j ((k, v) ∷ m) es =
    find-emplace_all f j m (emplace_entry k (f v) es)
    ∙ ground (arith, find_emplace_entry k j (f v) es, str_eq_iff k j)

-- What stands in a message under a path of keys.
abbrev pub lookup : List Str → Msg → Option Msg
lookup [] m = some m
lookup (k ∷ ks) (object es) = elim (find_entry k es) [ none ↦ none | some m ↦ lookup ks m ]
lookup (k ∷ ks) null = none
lookup (k ∷ ks) (int n) = none
lookup (k ∷ ks) (double n) = none
lookup (k ∷ ks) (string s) = none
lookup (k ∷ ks) (binary s) = none
lookup (k ∷ ks) (boolean b) = none
lookup (k ∷ ks) (array ms) = none

-- The same, in a message that may not be there.
abbrev pub lookup_in : List Str → Option Msg → Option Msg
lookup_in ks none = none
lookup_in ks (some m) = lookup ks m

lookup-emplace_all :
    {V : Type 0} (f : V → Msg) (j : Str) (ks : List Str) (m : Map Str V)
    → lookup (j ∷ ks) (object (emplace_all f m empty)) ≡ lookup_in ks (as_message f (find j m))
unfolding find_entry
lookup-emplace_all f j ks m =
    rw (find-emplace_all f j m empty, lookup) (same (as_message f (find j m)))
  where
    same :
        (o : Option Msg)
        → let r : Option Msg = elim o [ none ↦ none | some m ↦ lookup ks m ] in r ≡ lookup_in ks o
    same none = refl
    same (some m) = refl

lookup-fields :
    (profile : ℕ → Profile) (n : DiscoveredNode)
    → (lookup (codes "namespace" ∷ []) (node_message profile n) ≡ some (string n.ns))
      × ((t : Str)
          → lookup (codes "publishers" ∷ t ∷ []) (node_message profile n)
            ≡ as_message (publisher_message profile) (find t n.publishers))
      × ((t : Str)
          → lookup (codes "subscribers" ∷ t ∷ []) (node_message profile n)
            ≡ as_message (subscriber_message profile) (find t n.subscribers))
      × ((s : Str)
          → lookup (codes "services" ∷ s ∷ []) (node_message profile n)
            ≡ as_message string (find s n.services))
unfolding node_message emplace_entry insert_entry find_entry str_eq str_lt
lookup-fields profile n = (
  refl,
  (λ t. lookup-emplace_all (publisher_message profile) t [] n.publishers ∙ whole _),
  (λ t. lookup-emplace_all (subscriber_message profile) t [] n.subscribers ∙ whole _),
  (λ s. lookup-emplace_all string s [] n.services ∙ whole _),
)
  where
    whole : (o : Option Msg) → lookup_in [] o ≡ o
    whole none = refl
    whole (some m) = refl

-- What a node has, where there is one.
abbrev pub of_node : (DiscoveredNode → Option Msg) → Option DiscoveredNode → Option Msg
of_node f none = none
of_node f (some n) = f n

pub report_nodes-fields :
    (profile : ℕ → Profile) (nodes : Map Str DiscoveredNode) (j : Str)
    → let r = report_nodes profile nodes in
      let node = find j nodes in
      (lookup (j ∷ codes "namespace" ∷ []) r ≡ of_node (λ n. some (string n.ns)) node)
      × ((s : Str)
          → lookup (j ∷ codes "services" ∷ s ∷ []) r
            ≡ of_node (λ n. as_message string (find s n.services)) node)
      × ((t : Str)
          → lookup (j ∷ codes "publishers" ∷ t ∷ []) r
            ≡ of_node (λ n. as_message (publisher_message profile) (find t n.publishers)) node)
      × ((t : Str)
          → lookup (j ∷ codes "subscribers" ∷ t ∷ []) r
            ≡ of_node (λ n. as_message (subscriber_message profile) (find t n.subscribers)) node)
unfolding report_nodes
report_nodes-fields profile nodes j = (
  at_node (codes "namespace" ∷ []) _ (λ n. (lookup-fields profile n).0),
  (λ s. at_node (codes "services" ∷ s ∷ []) _ (λ n. (lookup-fields profile n).3 s)),
  (λ t. at_node (codes "publishers" ∷ t ∷ []) _ (λ n. (lookup-fields profile n).1 t)),
  (λ t. at_node (codes "subscribers" ∷ t ∷ []) _ (λ n. (lookup-fields profile n).2 t)),
)
  where
    in_node :
        (ks : List Str) (f : DiscoveredNode → Option Msg) (o : Option DiscoveredNode)
        → ((n : DiscoveredNode) → lookup ks (node_message profile n) ≡ f n)
        → lookup_in ks (as_message (node_message profile) o) ≡ of_node f o
    in_node ks f none h = refl
    in_node ks f (some n) h = h n

    at_node :
        (ks : List Str) (f : DiscoveredNode → Option Msg)
        → ((n : DiscoveredNode) → lookup ks (node_message profile n) ≡ f n)
        → lookup (j ∷ ks) (object (emplace_all (node_message profile) nodes empty))
          ≡ of_node f (find j nodes)
    at_node ks f h =
        lookup-emplace_all (node_message profile) j ks nodes ∙ in_node ks f (find j nodes) h
