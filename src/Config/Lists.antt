-- ===== src/Config/Lists.antt =====
-- The lists of src/config.cpp that a configuration adds to.
use phntm_bridge.Prelude.{
  ◌≡◌, ◌≢◌, refl, ap, ◌∙◌, Bool, true, false, not, ◌&&◌, ◌||◌, List, [], ◌∷◌, ◌++◌, Str, str_eq_iff,
  str_eq, mem, str_key, is_empty, nat_eq_iff, arith, Bool-cases, inl, inr,
}
use phntm_bridge.Config.{add_custom, Vector, end_of, same_place, find_in, add_blacklisted}

-- No entry stands twice.
abbrev distinct : List Str → Bool
distinct [] = true
distinct (x ∷ xs) = not (mem x xs) && distinct xs

mem-append_one : (j x : Str) (l : List Str) → mem j (l ++ x ∷ []) ≡ mem j l || str_eq x j
unfolding mem
mem-append_one j x [] = ground arith
mem-append_one j x (y ∷ l) = ground (arith, mem-append_one j x l)

distinct-append_one :
    (x : Str) (l : List Str) → distinct l ≡ true → mem x l ≡ false → distinct (l ++ x ∷ []) ≡ true
unfolding mem
distinct-append_one x [] h k = refl
distinct-append_one x (y ∷ l) h k =
    ground (arith, distinct-append_one x l, mem-append_one y x l, str_eq_iff x y, str_eq_iff y x)

-- To add the entries of a configuration gives the defaults and those entries, and nothing else; where
-- no default stands twice, no entry does.
add_custom_lem :
    (l ones : List Str) (j : Str)
    → distinct l ≡ true
    → (mem j (add_custom l ones) ≡ mem j l || mem j ones) × (distinct (add_custom l ones) ≡ true)
unfolding add_custom
add_custom_lem l [] j h = (ground arith, h)
add_custom_lem l (one ∷ ones) j h = elim (Bool-cases (mem one l)) [
  | inl b ↦
      let (p, q) = add_custom_lem l ones j h in rw b (ground (arith, p, b, str_eq_iff one j), q)
  | inr b ↦
      let (p, q) = add_custom_lem (l ++ one ∷ []) ones j (distinct-append_one one l h b) in
      rw b (ground (arith, p, mem-append_one j one l), q)
]

-- Vectors with storage of their own, the first of which is not empty: nothing is ever added to it,
-- whatever the configuration lists.
add_blacklisted_keeps :
    (other v : Vector) (ones : List Str)
    → is_empty v.items ≡ false
    → v.storage ≢ other.storage
    → add_blacklisted other v ones ≡ v
unfolding add_blacklisted
add_blacklisted_keeps other v [] e d = refl
add_blacklisted_keeps other v (one ∷ ones) e d =
    let apart : same_place (find_in one v) (end_of other) ≡ false =
      unfold same_place find_in end_of in
      ground (arith, e, d, nat_eq_iff v.storage other.storage) in
    rw apart (add_blacklisted_keeps other v ones e d)

-- Where both vectors are empty, the first entry of the configuration is added, and no other.
add_blacklisted_first :
    (other v : Vector) (one : Str) (ones : List Str)
    → v.items ≡ []
    → other.items ≡ []
    → v.storage ≢ other.storage
    → (add_blacklisted other v (one ∷ ones)).items ≡ one ∷ []
unfolding add_blacklisted
add_blacklisted_first other v one ones e f d =
    let same : same_place (find_in one v) (end_of other) ≡ true =
      unfold same_place find_in end_of in rw e (rw f refl) in
    rw (same, add_blacklisted)
      (ap (λ (u : Vector). u.items)
          (add_blacklisted_keeps other (record v { items = v.items ++ one ∷ [] }) ones (rw e refl)
            d)
        ∙ ap (λ (l : List Str). l ++ one ∷ []) e)
