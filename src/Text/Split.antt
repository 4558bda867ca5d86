-- ===== src/Text/Split.antt =====
-- `split`, `rsplit`, `join` and `replace` of src/lib.cpp.
use phntm_bridge.Prelude.{
  ℕ, zero, suc, ◌+◌, ◌≤◌, ◌<◌, ◌≡◌, refl, sym, ap, ◌∙◌, inl, inr, Bool, true, false, Option, none,
  some, List, [], ◌∷◌, ◌++◌, append_assoc, Str, mem, nat_key, nat_eq, nat_eq_iff, all, not, length,
  length-append, arith, Bool-cases, Option-cases, List-cases,
}
use phntm_bridge.Text.{split, cons_token, rfind, rsplit_loop, rsplit, join}

-- No token holds the delimiter.
abbrev free_of : ℕ → List Str → Bool
free_of d ts = all (λ t. not (mem d t)) ts

abbrev ends_with : ℕ → Str → Bool
ends_with d [] = true
ends_with d (c ∷ []) = nat_eq c d
ends_with d (c ∷ e ∷ s) = ends_with d (e ∷ s)

join-cons_token : (c d : ℕ) (ts : List Str) → join (cons_token c ts) (d ∷ []) ≡ c ∷ join ts (d ∷ [])
unfolding join
join-cons_token c d [] = refl
join-cons_token c d (t ∷ []) = refl
join-cons_token c d (t ∷ u ∷ ts) = refl

split-cons : (d c : ℕ) (s : Str) → (t : Str) × (ts : List Str) × (split d (c ∷ s) ≡ t ∷ ts)
unfolding split
split-cons d c s = elim (Bool-cases (nat_eq c d)) [
  | inl e ↦ ([], split d s, rw e)
  | inr e ↦ elim (List-cases (split d s)) [
    | inl h ↦ (c ∷ [], [], rw (e, h))
    | inr (t, ts, h) ↦ (c ∷ t, ts, rw (e, h))
  ]
]

join-blank :
    (d : ℕ) (t : Str) (ts : List Str) → join ([] ∷ t ∷ ts) (d ∷ []) ≡ d ∷ join (t ∷ ts) (d ∷ [])
unfolding join
join-blank d t ts = refl

split-hit : (d c : ℕ) (s : Str) → nat_eq c d ≡ true → split d (c ∷ s) ≡ [] ∷ split d s
unfolding split
split-hit d c s e = rw e

split-miss : (d c : ℕ) (s : Str) → nat_eq c d ≡ false → split d (c ∷ s) ≡ cons_token c (split d s)
unfolding split
split-miss d c s e = rw e

join-split-hit :
    (d c : ℕ) (s : Str) (t : Str) (ts : List Str)
    → split d s ≡ t ∷ ts
    → join (split d s) (d ∷ []) ≡ s
    → c ≡ d
    → join ([] ∷ split d s) (d ∷ []) ≡ c ∷ s
join-split-hit d c s t ts q ih k = rw q (join-blank d t ts ∙ cc)

join-single : (d : ℕ) (t : Str) → join (t ∷ []) (d ∷ []) ≡ t
unfolding join
join-single d t = refl

join-split-one : (d c : ℕ) → nat_eq c d ≡ false → join (split d (c ∷ [])) (d ∷ []) ≡ c ∷ []
unfolding split join
join-split-one d c e = rw e

-- A text that does not end in the delimiter is put together again from its tokens.
pub join-split : (d : ℕ) (s : Str) → ends_with d s ≡ false → join (split d s) (d ∷ []) ≡ s
join-split d [] h = cc
join-split d (c ∷ []) h = join-split-one d c h
join-split d (c ∷ e ∷ s) h =
    let ih = join-split d (e ∷ s) h in
    let (t, ts, q) = split-cons d e s in
    elim (Bool-cases (nat_eq c d)) [
      | inl x ↦
          rw (split-hit d c (e ∷ s) x) (join-split-hit d c (e ∷ s) t ts q ih ((nat_eq_iff c d).0 x))
      | inr x ↦
          rw (split-miss d c (e ∷ s) x) (join-cons_token c d (split d (e ∷ s)) ∙ ap (◌∷◌ c) ih)
    ]

cons_token-free :
    (c d : ℕ) (ts : List Str)
    → nat_eq c d ≡ false
    → free_of d ts ≡ true
    → free_of d (cons_token c ts) ≡ true
unfolding mem
cons_token-free c d [] e h = ground arith
cons_token-free c d (t ∷ ts) e h = ground arith

-- No token holds the delimiter.
split-free : (d : ℕ) (s : Str) → free_of d (split d s) ≡ true
unfolding split mem
split-free d [] = refl
split-free d (c ∷ s) = ground (arith, split-free d s, cons_token-free c d (split d s))

rfind-none : (d : ℕ) (s : Str) → rfind d s ≡ none → mem d s ≡ false
unfolding rfind mem
rfind-none d [] h = refl
rfind-none d (c ∷ s) h = ground (arith, rfind-none d s)

rfind-some :
    (d : ℕ) (s before behind : Str)
    → rfind d s ≡ some (before, behind)
    → (s ≡ before ++ d ∷ behind) × (mem d behind ≡ false)
unfolding rfind mem
rfind-some d [] b a h = cc
rfind-some d (c ∷ s) b a h = elim (Option-cases (rfind d s)) [
  | inl e ↦ ground (arith, e, rfind-none d s e)
  | inr ((b', a'), e) ↦ ground (arith, e, rfind-some d s b' a' e)
]

join_push :
    (d : ℕ) (before behind : Str) (out : List Str)
    → join (before ∷ behind ∷ out) (d ∷ []) ≡ join ((before ++ d ∷ behind) ∷ out) (d ∷ [])
unfolding join
join_push d b a [] = refl
join_push d b a (t ∷ out) = sym (append_assoc b (d ∷ a) _)

join-rsplit_loop :
    (fuel d : ℕ) (m : Option ℕ) (s : Str) (out : List Str)
    → join (rsplit_loop fuel d m s out) (d ∷ []) ≡ join (s ∷ out) (d ∷ [])
unfolding rsplit_loop
join-rsplit_loop zero d m s out = refl
join-rsplit_loop (suc fuel) d (some zero) s out = refl
join-rsplit_loop (suc fuel) d (some (suc m)) s out = elim (Option-cases (rfind d s)) [
  | inl e ↦ rw (e, rsplit_loop)
  | inr ((b, a), e) ↦
      rw (e, rsplit_loop)
        (join-rsplit_loop fuel d (some m) b (a ∷ out)
          ∙ (join_push d b a out
              ∙ ap (λ x. join (x ∷ out) (d ∷ [])) (sym (rfind-some d s b a e).0)))
]
join-rsplit_loop (suc fuel) d none s out = elim (Option-cases (rfind d s)) [
  | inl e ↦ rw (e, rsplit_loop)
  | inr ((b, a), e) ↦
      rw (e, rsplit_loop)
        (join-rsplit_loop fuel d none b (a ∷ out)
          ∙ (join_push d b a out
              ∙ ap (λ x. join (x ∷ out) (d ∷ [])) (sym (rfind-some d s b a e).0)))
]

-- Whatever the number of splits, the pieces joined by the delimiter are the text.
join-rsplit : (s : Str) (d : ℕ) (m : Option ℕ) → join (rsplit s d m) (d ∷ []) ≡ s
unfolding rsplit
join-rsplit s d m = join-rsplit_loop (length s + 1) d m s [] ∙ join-single d s

length-rfind :
    (d : ℕ) (s before behind : Str) → rfind d s ≡ some (before, behind) → length before < length s
length-rfind d s b a e = omega (arith, ap length (rfind-some d s b a e).0, length-append b (d ∷ a))

rsplit_loop-free :
    (fuel d : ℕ) (s : Str) (out : List Str)
    → length s < fuel
    → free_of d out ≡ true
    → free_of d (rsplit_loop fuel d none s out) ≡ true
unfolding rsplit_loop
rsplit_loop-free zero d s out l h = absurd (omega arith)
rsplit_loop-free (suc fuel) d s out l h = elim (Option-cases (rfind d s)) [
  | inl e ↦ rw (e, rsplit_loop) (ground (arith, rfind-none d s e))
  | inr ((b, a), e) ↦
      rw (e, rsplit_loop)
        (rsplit_loop-free fuel d b (a ∷ out) (omega (arith, length-rfind d s b a e))
          (ground (arith, rfind-some d s b a e)))
]

-- With no bound on the splits, no piece holds the delimiter.
rsplit-free : (s : Str) (d : ℕ) → free_of d (rsplit s d none) ≡ true
unfolding rsplit
rsplit-free s d = rsplit_loop-free (length s + 1) d s [] (omega arith) refl

length-rsplit_loop :
    (fuel d m : ℕ) (s : Str) (out : List Str)
    → length (rsplit_loop fuel d (some m) s out) ≤ m + 1 + length out
unfolding rsplit_loop
length-rsplit_loop zero d m s out = omega arith
length-rsplit_loop (suc fuel) d zero s out = omega arith
length-rsplit_loop (suc fuel) d (suc m) s out = elim (Option-cases (rfind d s)) [
  | inl e ↦ rw (e, rsplit_loop) (omega arith)
  | inr ((b, a), e) ↦ rw (e, rsplit_loop) (omega (arith, length-rsplit_loop fuel d m b (a ∷ out)))
]

-- At most `maxsplit` splits make at most one piece more.
length-rsplit : (s : Str) (d m : ℕ) → length (rsplit s d (some m)) ≤ m + 1
unfolding rsplit
length-rsplit s d m = omega (arith, length-rsplit_loop (length s + 1) d m s [])
