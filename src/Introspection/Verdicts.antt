-- ===== src/Introspection/Verdicts.antt =====
-- What Introspection::checkSubscriberQos writes into a subscriber's profile.
use phntm_bridge.Prelude.{
  ℕ, ◌≡◌, refl, ap, ap₂, sym, map, ◌∙◌, none, some, List, [], ◌∷◌, ◌++◌, Str, Map, find, str_key,
  Option-cases, inl, inr,
}
use phntm_bridge.Introspection.{SubQos, DiscoveredNode}
use phntm_bridge.Introspection.Qos.{
  Compatibility, ok, warning, error, check_one, check_all, check_nodes, check_profiles,
}

-- The profiles of a topic's publishers, node by node.
unfoldable pub offers : Str → Map Str DiscoveredNode → List ℕ
offers topic [] = []
offers topic ((k, n) ∷ nodes) = elim (find topic n.publishers) [
  | none ↦ offers topic nodes
  | some p ↦ p.qos ++ offers topic nodes
]

-- The last comparison that has a reason.
abbrev pub later : Compatibility → Compatibility → Compatibility
later a ok = a
later a (warning r) = warning r
later a (error r) = error r

abbrev last_issue : (ℕ → ℕ → Compatibility) → ℕ → List ℕ → Compatibility
last_issue compare sub_qos [] = ok
last_issue compare sub_qos (p ∷ ps) = later (compare p sub_qos) (last_issue compare sub_qos ps)

-- A profile with that reason alone.
abbrev marked : ℕ → Compatibility → SubQos
marked q ok = record { qos = q; error = []; warning = [] }
marked q (warning r) = record { qos = q; error = []; warning = r }
marked q (error r) = record { qos = q; error = r; warning = [] }

later_assoc : (a b c : Compatibility) → later (later a b) c ≡ later a (later b c)
later_assoc a b ok = refl
later_assoc a b (warning r) = refl
later_assoc a b (error r) = refl

later-ok : (a : Compatibility) → later ok a ≡ a
later-ok ok = refl
later-ok (warning r) = refl
later-ok (error r) = refl

-- The effect of one comparison on a marked profile.
step-marked :
    (q : ℕ) (c d : Compatibility)
    → elim d as (λ _. SubQos) [
      | ok ↦ marked q c
      | warning r ↦ record (marked q c) { error = []; warning = r }
      | error r ↦ record (marked q c) { error = r; warning = [] }
    ]
      ≡ marked q (later c d)
step-marked q c ok = refl
step-marked q ok (warning r) = refl
step-marked q (warning s) (warning r) = refl
step-marked q (error s) (warning r) = refl
step-marked q ok (error r) = refl
step-marked q (warning s) (error r) = refl
step-marked q (error s) (error r) = refl

qos-marked : (q : ℕ) (c : Compatibility) → (marked q c).qos ≡ q
qos-marked q ok = refl
qos-marked q (warning r) = refl
qos-marked q (error r) = refl

module _ (compare : ℕ → ℕ → Compatibility) (q : ℕ) where
  check_one-marked :
      (p : ℕ) (c : Compatibility)
      → check_one compare p (marked q c) ≡ marked q (later c (compare p q))
  unfolding check_one
  check_one-marked p ok = step-marked q ok (compare p q)
  check_one-marked p (warning s) = step-marked q (warning s) (compare p q)
  check_one-marked p (error s) = step-marked q (error s) (compare p q)

  check_all-marked :
      (ps : List ℕ) (c : Compatibility)
      → check_all compare ps (marked q c) ≡ marked q (later c (last_issue compare q ps))
  unfolding check_all
  check_all-marked [] c = refl
  check_all-marked (p ∷ ps) c =
      ap (check_all compare ps) (check_one-marked p c)
      ∙ (check_all-marked ps (later c (compare p q))
          ∙ ap (marked q) (later_assoc c (compare p q) (last_issue compare q ps)))

  last_issue-append :
      (xs ys : List ℕ)
      → last_issue compare q (xs ++ ys) ≡ later (last_issue compare q xs) (last_issue compare q ys)
  last_issue-append [] ys = sym (later-ok (last_issue compare q ys))
  last_issue-append (x ∷ xs) ys =
      ap (later (compare x q)) (last_issue-append xs ys)
      ∙ sym (later_assoc (compare x q) (last_issue compare q xs) (last_issue compare q ys))

  check_nodes-marked :
      (topic : Str) (nodes : Map Str DiscoveredNode) (c : Compatibility)
      → check_nodes compare topic nodes (marked q c)
        ≡ marked q (later c (last_issue compare q (offers topic nodes)))
  unfolding check_nodes offers
  check_nodes-marked topic [] c = refl
  check_nodes-marked topic ((k, n) ∷ nodes) c = elim (Option-cases (find topic n.publishers)) [
    | inl e ↦ rw (e, check_nodes, offers) (check_nodes-marked topic nodes c)
    | inr (p, e) ↦
        rw (e, check_nodes, offers)
          (ap (check_nodes compare topic nodes) (check_all-marked p.qos c)
            ∙ (check_nodes-marked topic nodes (later c (last_issue compare q p.qos))
                ∙ ap (marked q) (
                    later_assoc c (last_issue compare q p.qos)
                      (last_issue compare q (offers topic nodes))
                    ∙ ap (later c) (sym (last_issue-append p.qos (offers topic nodes))))))
  ]

-- The check of a topic's subscribers gives each of them the reason of the last comparison with a
-- publisher of the topic that has one, as an error or as a warning and never as both, and nothing
-- where no comparison has a reason; what it had before is gone.
pub check_profiles_lem :
    (compare : ℕ → ℕ → Compatibility) (topic : Str) (nodes : Map Str DiscoveredNode)
    (subs : List SubQos)
    → check_profiles compare topic nodes subs
      ≡ map (λ s. marked s.qos (last_issue compare s.qos (offers topic nodes))) subs
unfolding check_profiles
check_profiles_lem compare topic nodes [] = refl
check_profiles_lem compare topic nodes (s ∷ subs) =
    ap₂ ◌∷◌
      (check_nodes-marked compare s.qos topic nodes ok
        ∙ ap (marked s.qos) (later-ok (last_issue compare s.qos (offers topic nodes))))
      (check_profiles_lem compare topic nodes subs)
