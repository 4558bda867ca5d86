-- ===== src/Text/Replace.antt =====
-- `replace` of src/lib.cpp: that it ends, and what it gives.
use phntm_bridge.Prelude.{
  ℕ, zero, suc, ◌+◌, ◌≤◌, ◌<◌, ◌≡◌, ◌≢◌, refl, sym, ap, inl, inr, none, some, [], ◌∷◌, ◌++◌, Str,
  nat_key, nat_eq, length, arith, Bool-cases, Option-cases, if◌then◌else◌,
}
use phntm_bridge.Text.{strip_prefix, str_find, replace_loop, replace}

-- An empty search text is found in every round: no fuel is enough.
replace_loop-empty : (fuel : ℕ) (by s : Str) → replace_loop fuel [] by s ≡ none
unfolding replace_loop
replace_loop-empty zero by s = refl
replace_loop-empty (suc fuel) by [] = ground (arith, replace_loop-empty fuel by [])
replace_loop-empty (suc fuel) by (c ∷ s) = ground (arith, replace_loop-empty fuel by (c ∷ s))

length-strip_prefix : (p s r : Str) → strip_prefix p s ≡ some r → length r + length p ≤ length s
unfolding strip_prefix
length-strip_prefix [] s r e = ground arith
length-strip_prefix (a ∷ p) [] r e = cc
length-strip_prefix (a ∷ p) (c ∷ s) r e = ground (arith, length-strip_prefix p s r)

-- What a search leaves is shorter by the search text at least.
length-str_find :
    (p s before behind : Str)
    → str_find p s ≡ some (before, behind)
    → length behind + length p ≤ length s
unfolding str_find
length-str_find p [] b a e = elim (Option-cases (strip_prefix p [])) [
  | inl n ↦ ground (arith, n)
  | inr (r, n) ↦ ground (arith, n, length-strip_prefix p [] r n)
]
length-str_find p (c ∷ s) b a e = elim (Option-cases (strip_prefix p (c ∷ s))) [
  | inr (r, n) ↦ ground (arith, n, length-strip_prefix p (c ∷ s) r n)
  | inl n ↦ elim (Option-cases (str_find p s)) [
    | inl k ↦ ground (arith, n, k)
    | inr ((b', a'), k) ↦ ground (arith, n, k, length-str_find p s b' a' k)
  ]
]

replace_loop_total :
    (fuel c : ℕ) (search by s : Str)
    → length s < fuel
    → (r : Str) × (replace_loop fuel (c ∷ search) by s ≡ some r)
unfolding replace_loop
replace_loop_total zero c search by s h = absurd (omega arith)
replace_loop_total (suc fuel) c search by s h = elim (Option-cases (str_find (c ∷ search) s)) [
  | inl e ↦ (s, rw (e, replace_loop))
  | inr ((b, a), e) ↦
      let (r, q) =
        replace_loop_total fuel c search by a
          (omega (arith, length-str_find (c ∷ search) s b a e)) in
      (b ++ (by ++ r), rw (e, replace_loop, q))
]

-- `replace` ends for every search text that is not empty.
pub replace_total : (s search by : Str) → search ≢ [] → (r : Str) × (replace s search by ≡ some r)
unfolding replace
replace_total s [] by h = absurd (h refl)
replace_total s (c ∷ search) by h = replace_loop_total (length s + 1) c search by s (omega arith)

strip_prefix-one :
    (a c : ℕ) (s : Str) → strip_prefix (a ∷ []) (c ∷ s) ≡ (if nat_eq a c then some s else none)
unfolding strip_prefix
strip_prefix-one a c s = refl

-- Every place of one byte is replaced, and nothing else.
abbrev substitute : ℕ → Str → Str → Str
substitute a by [] = []
substitute a by (c ∷ s) =
    let rest = substitute a by s in if nat_eq a c then by ++ rest else c ∷ rest

substitute_found :
    (a : ℕ) (by s before behind : Str)
    → str_find (a ∷ []) s ≡ some (before, behind)
    → substitute a by s ≡ before ++ (by ++ substitute a by behind)
unfolding str_find strip_prefix
substitute_found a by [] b r e = cc
substitute_found a by (c ∷ s) b r e = elim (Bool-cases (nat_eq a c)) [
  | inl x ↦ ground (arith, x)
  | inr x ↦ elim (Option-cases (str_find (a ∷ []) s)) [
    | inl k ↦ ground (arith, x, k)
    | inr ((b', r'), k) ↦ ground (arith, x, k, substitute_found a by s b' r' k)
  ]
]

substitute_absent : (a : ℕ) (by s : Str) → str_find (a ∷ []) s ≡ none → substitute a by s ≡ s
unfolding str_find strip_prefix
substitute_absent a by [] e = refl
substitute_absent a by (c ∷ s) e = ground (arith, substitute_absent a by s)

replace_loop-substitute :
    (fuel a : ℕ) (by s : Str)
    → length s < fuel
    → replace_loop fuel (a ∷ []) by s ≡ some (substitute a by s)
unfolding replace_loop
replace_loop-substitute zero a by s h = absurd (omega arith)
replace_loop-substitute (suc fuel) a by s h = elim (Option-cases (str_find (a ∷ []) s)) [
  | inl e ↦ rw (e, replace_loop) (ap some (sym (substitute_absent a by s e)))
  | inr ((b, r), e) ↦
      let ih =
        replace_loop-substitute fuel a by r (omega (arith, length-str_find (a ∷ []) s b r e)) in
      rw (e, replace_loop, ih) (ap some (sym (substitute_found a by s b r e)))
]

-- For a search text of one byte, `replace` ends and substitutes it everywhere.
replace-substitute : (s : Str) (a : ℕ) (by : Str) → replace s (a ∷ []) by ≡ some (substitute a by s)
unfolding replace
replace-substitute s a by = replace_loop-substitute (length s + 1) a by s (omega arith)
