-- ===== src/Prelude/Dict.antt =====
-- `std::map`: an association list in the order of the keys. `emplace` keeps an entry that is there,
-- `assign` (`operator[]` and `insert_or_assign`) replaces it, and iteration runs through the list.
use mathlib.Core.Path.{◌≡◌, refl}
use mathlib.Core.Logic.{◌↔◌}
use mathlib.Core.Bool.{Bool, true, false, ◌||◌}
use mathlib.Core.Option.{Option, none, some}
use mathlib.Core.List.{List, [], ◌∷◌}
use native.Mathlib.Omega.{arith}
use Prim.Native.Nat.{ℕ}
use phntm_bridge.Prelude.Tests.{if◌then◌else◌, is_some, nat_eq, ltb, nat_eq_iff}
use phntm_bridge.Prelude.Lists.{Str, str_eq, str_lt, str_eq_iff}

pub record Key (K : Type 0) : Type 0 where
  pub beq : K → K → Bool
  pub blt : K → K → Bool
  pub beq_iff : (a b : K) → (beq a b ≡ true) ↔ (a ≡ b)

infix 50 ◌==◌
abbrev pub ◌==◌ : {K : Type 0} ⦃e : Key K⦄ → K → K → Bool
◌==◌ ⦃e⦄ = e.beq

instance abbrev pub nat_key : Key ℕ
nat_key = record { beq = nat_eq; blt = ltb; beq_iff = nat_eq_iff }

instance abbrev pub str_key : Key Str
str_key = record { beq = str_eq; blt = str_lt; beq_iff = str_eq_iff }

abbrev pub Map : Type 0 → Type 0 → Type 0
Map K V = List (K × V)

abbrev pub mapped : {V : Type 0} → (V → V) → Option V → Option V
mapped f none = none
mapped f (some v) = some (f v)

module _ {K : Type 0} ⦃e : Key K⦄ where
  unfoldable pub mem : K → List K → Bool
  mem k [] = false
  mem k (j ∷ l) = j == k || mem k l

  pub beq_refl : (k : K) → (k == k) ≡ true
  beq_refl k = (e.beq_iff k k).1 refl

module _ {K V : Type 0} ⦃e : Key K⦄ where
  unfoldable pub find : K → Map K V → Option V
  find k [] = none
  find k ((j, v) ∷ m) = if j == k then some v else find k m

  abbrev pub contains : K → Map K V → Bool
  contains k m = is_some (find k m)

  -- The place of a key that is not there.
  unfoldable pub insert_new : K → V → Map K V → Map K V
  insert_new k v [] = (k, v) ∷ []
  insert_new k v ((j, w) ∷ m) = if e.blt k j then (k, v) ∷ (j, w) ∷ m else (j, w) ∷ insert_new k v m

  unfoldable pub emplace : K → V → Map K V → Map K V
  emplace k v m = if contains k m then m else insert_new k v m

  unfoldable pub erase : K → Map K V → Map K V
  erase k [] = []
  erase k ((j, v) ∷ m) = let rest = erase k m in if j == k then rest else (j, v) ∷ rest

  -- Change the entry of a key in place; without an entry, nothing.
  unfoldable pub update : K → (V → V) → Map K V → Map K V
  update k f [] = []
  update k f ((j, v) ∷ m) = if j == k then (j, f v) ∷ m else (j, v) ∷ update k f m

  unfoldable pub assign : K → V → Map K V → Map K V
  assign k v m = if contains k m then update k (λ _. v) m else insert_new k v m

  find-insert_new :
      (k j : K) (v : V) (m : Map K V)
      → find k m ≡ none
      → find j (insert_new k v m) ≡ (if k == j then some v else find j m)
  unfolding find insert_new
  find-insert_new k j v [] h = refl
  find-insert_new k j v ((i, w) ∷ m) h =
      ground
        (arith, find-insert_new k j v m, e.beq_iff k j, e.beq_iff i k, e.beq_iff i j, beq_refl k)

  pub find-emplace :
      (k j : K) (v : V) (m : Map K V)
      → find j (emplace k v m)
        ≡ (if contains k m then find j m else (if k == j then some v else find j m))
  unfolding emplace
  find-emplace k j v m = ground (arith, find-insert_new k j v m)

  pub find-erase :
      (k j : K) (m : Map K V) → find j (erase k m) ≡ (if k == j then none else find j m)
  unfolding find erase
  find-erase k j [] = ground arith
  find-erase k j ((i, w) ∷ m) =
      ground (arith, find-erase k j m, e.beq_iff k j, e.beq_iff i k, e.beq_iff i j)

  pub find-update :
      (k j : K) (f : V → V) (m : Map K V)
      → find j (update k f m) ≡ (if k == j then mapped f (find j m) else find j m)
  unfolding find update
  find-update k j f [] = ground arith
  find-update k j f ((i, w) ∷ m) =
      ground (arith, find-update k j f m, e.beq_iff k j, e.beq_iff i k, e.beq_iff i j)

  pub find-assign :
      (k j : K) (v : V) (m : Map K V)
      → find j (assign k v m) ≡ (if k == j then some v else find j m)
  unfolding assign
  find-assign k j v m =
      ground (arith, find-insert_new k j v m, find-update k j (λ _. v) m, e.beq_iff k j)

pub ruleset map_laws = (find-emplace, find-erase, find-update, find-assign)
