-- ===== src/Introspection/Reported.antt =====
-- The report of the nodes in src/introspection.cpp, as the cloud reads it.
use phntm_bridge.Prelude.{
  ℕ, ◌+◌, ◌-◌, ◌%◌, ◌^◌, ◌≡◌, refl, sym, subst, Option, none, some, List, [], ◌∷◌, Str, codes,
  str_eq, str_lt, ltb, is_empty, if◌then◌else◌, Map, find, str_key,
}
use phntm_bridge.Services.{
  Msg, null, binary, int, double, string, boolean, array, object, Msgs, end, item,
}
use phntm_bridge.Services.Response.{find_entry, insert_entry, emplace_entry}
use phntm_bridge.Introspection.{NodePubTopic, NodeSubTopic, SubQos, DiscoveredNode}
use phntm_bridge.Introspection.Reports.{
  Profile, create_qos_message, report_nodes, messages, publisher_message, sub_qos_message,
  subscriber_message,
}
use phntm_bridge.Introspection.ReportLaws.{
  lookup, lookup_in, of_node, as_message, report_nodes-fields,
}

-- A number xs an `int` of 32 bits, whose sign an int64_t takes over.
abbrev word : ℕ → Msg
word n = int (if ltb (n % 2 ^ 32) (2 ^ 31) then n % 2 ^ 32 else n % 2 ^ 32 + (2 ^ 64 - 2 ^ 32))

-- A duration in nanoseconds; -1 is for one without an end.
abbrev span : Option ℕ → Msg
span none = int (2 ^ 64 - 1)
span (some ns) = word ns

-- The six entries of a profile.
abbrev HasProfile : Profile → Option Msg → Type 0
HasProfile q o =
    (lookup_in (codes "depth" ∷ []) o ≡ some (word q.depth))
    × (lookup_in (codes "history" ∷ []) o ≡ some (word q.history))
    × (lookup_in (codes "reliability" ∷ []) o ≡ some (word q.reliability))
    × (lookup_in (codes "durability" ∷ []) o ≡ some (word q.durability))
    × (lookup_in (codes "lifespan" ∷ []) o ≡ some (span q.lifespan))
    × (lookup_in (codes "deadline" ∷ []) o ≡ some (span q.deadline))

create_qos_message-HasProfile : (q : Profile) → HasProfile q (some (create_qos_message q))
unfolding create_qos_message emplace_entry insert_entry find_entry str_eq str_lt
create_qos_message-HasProfile q = (refl, refl, refl, refl, spans q.lifespan, spans q.deadline)
  where
    spans : (o : Option ℕ) → some (span o) ≡ some (span o)
    spans o = refl

-- The messages of an array stand for the elements of a list, in their order.
abbrev Items : {A : Type 0} → (A → Msg → Type 0) → List A → Msgs → Type 0
Items P [] end = Unit
Items P [] (item m ms) = ⊥
Items P (x ∷ xs) end = ⊥
Items P (x ∷ xs) (item m ms) = P x m × Items P xs ms

messages-Items :
    {A : Type 0} (P : A → Msg → Type 0) (f : A → Msg)
    → ((x : A) → P x (f x))
    → (xs : List A) → Items P xs (messages f xs)
messages-Items P f h [] = tt
messages-Items P f h (x ∷ xs) = (h x, messages-Items P f h xs)

abbrev IsArray : {A : Type 0} → (A → Msg → Type 0) → List A → Option Msg → Type 0
IsArray P xs none = ⊥
IsArray P xs (some (array ms)) = Items P xs ms
IsArray P xs (some null) = ⊥
IsArray P xs (some (int n)) = ⊥
IsArray P xs (some (double n)) = ⊥
IsArray P xs (some (string t)) = ⊥
IsArray P xs (some (binary t)) = ⊥
IsArray P xs (some (boolean b)) = ⊥
IsArray P xs (some (object es)) = ⊥

abbrev unless_empty : Str → Option Msg
unless_empty s = if is_empty s then none else some (string s)

module _ (profile : ℕ → Profile) where
  -- A publisher: its type and its profiles.
  abbrev HasPublisher : NodePubTopic → Option Msg → Type 0
  HasPublisher p o =
      (lookup_in (codes "msg_type" ∷ []) o ≡ some (string p.msg_type))
      × IsArray (λ q m. HasProfile (profile q) (some m)) p.qos (lookup_in (codes "qos" ∷ []) o)

  -- A profile of a subscriber, with the error and the warning that it has.
  abbrev HasVerdict : SubQos → Msg → Type 0
  HasVerdict s m =
      HasProfile (profile s.qos) (lookup (codes "qos" ∷ []) m)
      × (lookup (codes "error" ∷ []) m ≡ unless_empty s.error)
      × (lookup (codes "warning" ∷ []) m ≡ unless_empty s.warning)

  abbrev HasSubscriber : NodeSubTopic → Option Msg → Type 0
  HasSubscriber p o =
      (lookup_in (codes "msg_type" ∷ []) o ≡ some (string p.msg_type))
      × IsArray HasVerdict p.qos (lookup_in (codes "qos" ∷ []) o)

  publisher_message-HasPublisher :
      (p : NodePubTopic) → HasPublisher p (some (publisher_message profile p))
  unfolding emplace_entry insert_entry find_entry str_eq str_lt
  publisher_message-HasPublisher p = (
    refl,
    messages-Items (λ q m. HasProfile (profile q) (some m)) (λ q. create_qos_message (profile q))
        (λ q. create_qos_message-HasProfile (profile q)) p.qos,
  )

  sub_qos_message-HasVerdict : (s : SubQos) → HasVerdict s (sub_qos_message profile s)
  unfolding sub_qos_message emplace_entry insert_entry find_entry str_eq str_lt
  sub_qos_message-HasVerdict s =
      (profiles s.error s.warning, (verdicts s.error s.warning).0, (verdicts s.error s.warning).1)
    where
      made : Str → Str → Msg
      made error warning =
          sub_qos_message profile (record { qos = s.qos; error = error; warning = warning })

      profiles :
          (error warning : Str)
          → HasProfile (profile s.qos) (lookup (codes "qos" ∷ []) (made error warning))
      profiles [] [] = create_qos_message-HasProfile (profile s.qos)
      profiles [] (w ∷ ws) = create_qos_message-HasProfile (profile s.qos)
      profiles (e ∷ es) [] = create_qos_message-HasProfile (profile s.qos)
      profiles (e ∷ es) (w ∷ ws) = create_qos_message-HasProfile (profile s.qos)

      verdicts :
          (error warning : Str)
          → (lookup (codes "error" ∷ []) (made error warning) ≡ unless_empty error)
            × (lookup (codes "warning" ∷ []) (made error warning) ≡ unless_empty warning)
      verdicts [] [] = (refl, refl)
      verdicts [] (w ∷ ws) = (refl, refl)
      verdicts (e ∷ es) [] = (refl, refl)
      verdicts (e ∷ es) (w ∷ ws) = (refl, refl)

  subscriber_message-HasSubscriber :
      (p : NodeSubTopic) → HasSubscriber p (some (subscriber_message profile p))
  unfolding emplace_entry insert_entry find_entry str_eq str_lt
  subscriber_message-HasSubscriber p =
      (refl, messages-Items HasVerdict (sub_qos_message profile) sub_qos_message-HasVerdict p.qos)

-- A message for what is there, and none for what is not.
abbrev Reported : {A : Type 0} → (A → Option Msg → Type 0) → Option A → Option Msg → Type 0
Reported P none o = o ≡ none
Reported P (some x) o = P x o

-- What a node has under a name, where there is a node.
abbrev pub in_node :
    {A : Type 0} → (DiscoveredNode → Map Str A) → Str → Option DiscoveredNode → Option A
in_node f t none = none
in_node f t (some n) = find t (f n)

as_message-Reported :
    {A : Type 0} (P : A → Option Msg → Type 0) (f : A → Msg) (fields : DiscoveredNode → Map Str A)
    (t : Str)
    → ((x : A) → P x (some (f x)))
    → (node : Option DiscoveredNode)
    → Reported P (in_node fields t node) (of_node (λ n. as_message f (find t (fields n))) node)
as_message-Reported {A} P f fields t h none = refl
as_message-Reported {A} P f fields t h (some n) = found (find t (fields n))
  where
    found : (o : Option A) → Reported P o (as_message f o)
    found none = refl
    found (some x) = h x

-- The report of the nodes has a namespace exactly for each known node, which is its own. And of each
-- node it has, under each name: of a service, its type, and nothing where the node has no such
-- service; and of a topic that the node publishes, or subscribes to, a message with its type and an
-- array with the six numbers of each of its profiles, in their order, as `int`s of 32 bits with -1 for
-- a duration without an end, and for a subscriber with the error and the warning of the profile, each
-- where it is not empty; and nothing where the node has no such topic.
pub report_nodes_lem :
    (profile : ℕ → Profile) (nodes : Map Str DiscoveredNode) (j t : Str)
    → let r = report_nodes profile nodes in
      let node = find j nodes in
      (lookup (j ∷ codes "namespace" ∷ []) r ≡ of_node (λ n. some (string n.ns)) node)
      × (lookup (j ∷ codes "services" ∷ t ∷ []) r
          ≡ of_node (λ n. as_message string (find t n.services)) node)
      × Reported
          (HasPublisher profile)
          (in_node (λ n. n.publishers) t node)
          (lookup (j ∷ codes "publishers" ∷ t ∷ []) r)
      × Reported
          (HasSubscriber profile)
          (in_node (λ n. n.subscribers) t node)
          (lookup (j ∷ codes "subscribers" ∷ t ∷ []) r)
report_nodes_lem profile nodes j t =
    let (ns, services, pubs, subs) = report_nodes-fields profile nodes j in
    (
      ns,
      services t,
      subst (Reported (HasPublisher profile) (in_node (λ n. n.publishers) t (find j nodes)))
          (sym (pubs t))
          (as_message-Reported (HasPublisher profile) (publisher_message profile)
            (λ n. n.publishers) t (publisher_message-HasPublisher profile) (find j nodes)),
      subst (Reported (HasSubscriber profile) (in_node (λ n. n.subscribers) t (find j nodes)))
          (sym (subs t))
          (as_message-Reported (HasSubscriber profile) (subscriber_message profile)
            (λ n. n.subscribers) t (subscriber_message-HasSubscriber profile) (find j nodes)),
    )
