-- ===== src/Text/Trim.antt =====
-- `trim` of src/lib.cpp against what it leaves and what it takes away.
use mathlib.Core.List.{reverse-append, reverse-reverse}
use phntm_bridge.Prelude.{
  ℕ, ◌≡◌, refl, sym, ap, ◌∙◌, inl, inr, Bool, true, false, [], ◌∷◌, ◌++◌, reverse, Str, mem,
  nat_key, all, arith, Bool-cases,
}
use phntm_bridge.Text.{drop_leading, drop_trailing, trim}

-- The text is empty, or begins with a byte that is not trimmed.
abbrev StartsClean : Str → Str → Type 0
StartsClean chars [] = Unit
StartsClean chars (c ∷ s) = mem c chars ≡ false

drop_leading-StartsClean : (chars s : Str) → StartsClean chars (drop_leading chars s)
unfolding drop_leading
drop_leading-StartsClean chars [] = tt
drop_leading-StartsClean chars (c ∷ s) = elim (Bool-cases (mem c chars)) [
  | inl e ↦ rw e (drop_leading-StartsClean chars s)
  | inr e ↦ rw e e
]

drop_leading-clean : (chars s : Str) → StartsClean chars s → drop_leading chars s ≡ s
unfolding drop_leading
drop_leading-clean chars [] h = refl
drop_leading-clean chars (c ∷ s) h = rw h

drop_leading_split :
    (chars s : Str)
    → (pre : Str) × (s ≡ pre ++ drop_leading chars s) × (all (λ c. mem c chars) pre ≡ true)
unfolding drop_leading
drop_leading_split chars [] = ([], refl, refl)
drop_leading_split chars (c ∷ s) = elim (Bool-cases (mem c chars)) [
  | inl e ↦ let (pre, p, q) = drop_leading_split chars s in (c ∷ pre, rw e (ap (◌∷◌ c) p), rw e q)
  | inr e ↦ ([], rw e, refl)
]

all-append :
    (p : ℕ → Bool) (xs ys : Str) → all p xs ≡ true → all p ys ≡ true → all p (xs ++ ys) ≡ true
all-append p [] ys h k = k
all-append p (x ∷ xs) ys h k = ground (arith, all-append p xs ys)

all-reverse : (p : ℕ → Bool) (xs : Str) → all p xs ≡ true → all p (reverse xs) ≡ true
all-reverse p [] h = refl
all-reverse p (x ∷ xs) h =
    rw (reverse-append (x ∷ []) xs)
      (all-append p (reverse xs) (x ∷ []) (all-reverse p xs (ground arith)) (ground arith))

drop_trailing_split :
    (chars s : Str)
    → (post : Str) × (s ≡ drop_trailing chars s ++ post) × (all (λ c. mem c chars) post ≡ true)
unfolding drop_trailing
drop_trailing_split chars s =
    let (pre, p, q) = drop_leading_split chars (reverse s) in
    (
      reverse pre,
      sym (reverse-reverse s)
          ∙ (ap reverse p ∙ reverse-append pre (drop_leading chars (reverse s))),
      all-reverse (λ c. mem c chars) pre q,
    )

-- What is trimmed is a run of trimmed bytes at either end.
trim_split :
    (chars s : Str)
    → (pre post : Str) × (s ≡ pre ++ (trim chars s ++ post))
      × (all (λ c. mem c chars) pre ≡ true)
      × (all (λ c. mem c chars) post ≡ true)
unfolding trim
trim_split chars s =
    let (pre, p, q) = drop_leading_split chars s in
    let (post, p', q') = drop_trailing_split chars (drop_leading chars s) in
    (pre, post, p ∙ ap (◌++◌ pre) p', q, q')

-- A text that starts clean still does when it is cut at the end.
prefix-StartsClean : (chars s t : Str) → StartsClean chars (s ++ t) → StartsClean chars s
prefix-StartsClean chars [] t h = tt
prefix-StartsClean chars (c ∷ s) t h = h

-- The result begins and ends with a byte that is not trimmed, or is empty.
trim-StartsClean :
    (chars s : Str) → StartsClean chars (trim chars s) × StartsClean chars (reverse (trim chars s))
unfolding trim
trim-StartsClean chars s =
    let (post, p, q) = drop_trailing_split chars (drop_leading chars s) in
    (
      prefix-StartsClean chars _ post (rw p at (drop_leading-StartsClean chars s)),
      unfold drop_trailing in rw reverse-reverse (drop_leading-StartsClean chars _),
    )

-- Trimming twice is trimming once.
trim_idem : (chars s : Str) → trim chars (trim chars s) ≡ trim chars s
trim_idem chars s =
    let (l, r) = trim-StartsClean chars s in let t : Str = trim chars s in unfold_trim t l r
  where
    unfold_trim : (t : Str) → StartsClean chars t → StartsClean chars (reverse t) → trim chars t ≡ t
    unfold_trim t l r =
        unfold trim drop_trailing in
        rw (drop_leading-clean chars t l, drop_leading-clean chars (reverse t) r)
          (reverse-reverse t)
