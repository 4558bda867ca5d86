-- ===== src/Prelude/Lists.antt =====
-- Lists measured by native numbers, predicates on lists, and byte strings.
use Prim.Native.Nat.{ℕ, zero, suc, ◌+◌, ◌≤◌}
use Prim.Native.Char.{code}
use Prim.Native.String.{String}
use mathlib.Core.Path.{◌≡◌, refl}
use mathlib.Core.Bool.{Bool, true, false, ◌&&◌, ◌||◌}
use mathlib.Core.Logic.{◌↔◌, ◌⊎◌, inl, inr}
use mathlib.Core.List.{List, [], ◌∷◌, ◌++◌}
use mathlib.Core.Option.{Option, none, some}
use native.Mathlib.Omega.{arith}
use phntm_bridge.Prelude.Tests.{nat_eq, ltb, if◌then◌else◌}

module _ {ℓ} {A : Type ℓ} where
  abbrev pub length : List A → ℕ
  length [] = 0
  length (x ∷ xs) = suc (length xs)

  pub length-append : (xs ys : List A) → length (xs ++ ys) ≡ length xs + length ys
  length-append [] ys = omega arith
  length-append (x ∷ xs) ys = omega (arith, length-append xs ys)

  abbrev pub is_empty : List A → Bool
  is_empty [] = true
  is_empty (x ∷ xs) = false

  abbrev pub all : (A → Bool) → List A → Bool
  all p [] = true
  all p (x ∷ xs) = p x && all p xs

  abbrev pub any : (A → Bool) → List A → Bool
  any p [] = false
  any p (x ∷ xs) = p x || any p xs

  -- The entries that pass a test, in order.
  abbrev pub keep : (A → Bool) → List A → List A
  keep p [] = []
  keep p (x ∷ xs) = let rest = keep p xs in if p x then x ∷ rest else rest

  abbrev pub get_elem? : List A → ℕ → Option A
  get_elem? [] i = none
  get_elem? (x ∷ xs) zero = some x
  get_elem? (x ∷ xs) (suc i) = get_elem? xs i

  pub List-cases : (l : List A) → (l ≡ []) ⊎ ((x : A) × (xs : List A) × (l ≡ x ∷ xs))
  List-cases [] = inl refl
  List-cases (x ∷ xs) = inr (x, xs, refl)

  pub any-append : (p : A → Bool) (xs ys : List A) → any p (xs ++ ys) ≡ any p xs || any p ys
  any-append p [] ys = refl
  any-append p (x ∷ xs) ys = ground (arith, any-append p xs ys)

  abbrev pub All {κ} : (A → Type κ) → List A → Type κ
  All P [] = Unit
  All P (x ∷ xs) = P x × All P xs

-- Byte strings: `std::string`, and `std::vector<uint8_t>`.
abbrev pub Str : Type 0
Str = List ℕ

-- The bytes of an ASCII literal.
abbrev pub codes : String → Str
codes String.[] = []
codes (String.◌∷◌ c s) = code c ∷ codes s

unfoldable pub str_eq : Str → Str → Bool
str_eq [] [] = true
str_eq [] (b ∷ t) = false
str_eq (a ∷ s) [] = false
str_eq (a ∷ s) (b ∷ t) = nat_eq a b && str_eq s t

-- The order of `std::string`, by bytes.
unfoldable pub str_lt : Str → Str → Bool
str_lt s [] = false
str_lt [] (b ∷ t) = true
str_lt (a ∷ s) (b ∷ t) = ltb a b || (nat_eq a b && str_lt s t)

str_eq_sound : (s t : Str) → str_eq s t ≡ true → s ≡ t
unfolding str_eq
str_eq_sound [] [] h = refl
str_eq_sound [] (b ∷ t) h = cc
str_eq_sound (a ∷ s) [] h = cc
str_eq_sound (a ∷ s) (b ∷ t) h = ground (arith, str_eq_sound s t)

pub str_eq_refl : (s : Str) → str_eq s s ≡ true
unfolding str_eq
str_eq_refl [] = refl
str_eq_refl (a ∷ s) = ground (arith, str_eq_refl s)

str_eq_complete : (s t : Str) → s ≡ t → str_eq s t ≡ true
str_eq_complete s t e = ground (arith, str_eq_refl s)

pub str_eq_iff : (s t : Str) → (str_eq s t ≡ true) ↔ (s ≡ t)
str_eq_iff s t = (str_eq_sound s t, str_eq_complete s t)

module _ {ℓ} {A : Type ℓ} where
  -- The list with another entry at a place.
  abbrev pub set_at : ℕ → A → List A → List A
  set_at i x [] = []
  set_at zero x (y ∷ ys) = x ∷ ys
  set_at (suc i) x (y ∷ ys) = y ∷ set_at i x ys

  abbrev pub count : (A → Bool) → List A → ℕ
  count p [] = 0
  count p (x ∷ xs) = (if p x then 1 else 0) + count p xs

  pub count-set_at :
      (p : A → Bool) (xs : List A) (i : ℕ) (x y : A)
      → get_elem? xs i ≡ some x
      → (count p (set_at i y xs) + (if p x then 1 else 0) ≡ count p xs + (if p y then 1 else 0))
        × (length (set_at i y xs) ≡ length xs)
  count-set_at p [] i x y h = ground (arith, h)
  count-set_at p (z ∷ xs) zero x y h = ground (arith, h)
  count-set_at p (z ∷ xs) (suc i) x y h = ground (arith, count-set_at p xs i x y h)

  pub count-all :
      (p : A → Bool) (xs : List A)
      → (count p xs ≤ length xs) × (all p xs ≡ true → count p xs ≡ length xs)
  count-all p [] = ground arith
  count-all p (x ∷ xs) = ground (arith, count-all p xs)

  pub get_elem?-set_at :
      (xs : List A) (i j : ℕ) (x y : A)
      → get_elem? xs i ≡ some x
      → (get_elem? (set_at i y xs) i ≡ some y)
        × (nat_eq i j ≡ false → get_elem? (set_at i y xs) j ≡ get_elem? xs j)
  get_elem?-set_at [] i j x y h = ground (arith, h)
  get_elem?-set_at (z ∷ xs) zero zero x y h = ground (arith, h)
  get_elem?-set_at (z ∷ xs) zero (suc j) x y h = ground (arith, h)
  get_elem?-set_at (z ∷ xs) (suc i) zero x y h = ground (arith, h, get_elem?-set_at xs i i x y)
  get_elem?-set_at (z ∷ xs) (suc i) (suc j) x y h = ground (arith, get_elem?-set_at xs i j x y h)
