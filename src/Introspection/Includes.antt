-- ===== src/Introspection/Includes.antt =====
-- That Introspection::collectIDLs of src/introspection.cpp ends, and what it collects.
use phntm_bridge.Prelude.{
  ℕ, zero, suc, ◌+◌, ◌≤◌, ◌<◌, ◌≡◌, ◌⊎◌, refl, ap, ◌∙◌, Bool, true, false, Option, none, some, inl,
  inr, List, [], ◌∷◌, Str, if◌then◌else◌, mem, find, contains, emplace, str_key, find-emplace,
  arith, Option-cases, All, str_eq_iff, length,
}
use phntm_bridge.Introspection.Idls.{Disk, Idls, idl_path, read_idl, collect_each, collect_idls}

-- Nothing is taken away or changed.
abbrev Keeps : Idls → Idls → Type 0
Keeps m m' = (j v : Str) → find j m ≡ some v → find j m' ≡ some v

-- How many of the types are not there.
abbrev left : List Str → Idls → ℕ
left [] m = 0
left (u ∷ us) m = (if contains u m then 0 else 1) + left us m

left-Keeps : (us : List Str) (m m' : Idls) → Keeps m m' → left us m' ≤ left us m
left-Keeps [] m m' k = omega arith
left-Keeps (u ∷ us) m m' k = elim (Option-cases (find u m)) [
  | inl q ↦ ground (arith, q, left-Keeps us m m' k)
  | inr (v, q) ↦ ground (arith, q, k u v q, left-Keeps us m m' k)
]

Keeps-emplace : (t x : Str) (m : Idls) → find t m ≡ none → Keeps m (emplace t x m)
Keeps-emplace t x m h j v q = ground (arith, q, h, find-emplace t j x m, str_eq_iff t j)

find-added :
    (t x j v : Str) (m : Idls)
    → find t m ≡ none
    → find j (emplace t x m) ≡ some v
    → (find j m ≡ some v) ⊎ ((j ≡ t) × (v ≡ x))
find-added t x j v m h q = ground (arith, q, h, find-emplace t j x m, str_eq_iff t j)

left-emplace :
    (us : List Str) (t x : Str) (m : Idls)
    → find t m ≡ none
    → mem t us ≡ true
    → left us (emplace t x m) < left us m
unfolding mem
left-emplace [] t x m h i = ground (arith, i)
left-emplace (u ∷ us) t x m h i = ground (
  arith,
  i,
  h,
  find-emplace t u x m,
  str_eq_iff u t,
  str_eq_iff t u,
  left-emplace us t x m h,
  left-Keeps us m (emplace t x m) (Keeps-emplace t x m h),
)

module _ (disk : Disk) (blacklist : List Str) where
  -- A type that is there, or that has no file to read, or is in the blacklist.
  abbrev pub Settled : Idls → Str → Type 0
  Settled m t = ((v : Str) × (find t m ≡ some v)) ⊎ (idl_path disk blacklist t ≡ none)

  -- The text of the file of the type, whose includes are all settled.
  abbrev pub Good : Idls → Str → Str → Type 0
  Good m t v =
      (path : Str) × (idl_path disk blacklist t ≡ some path)
      × (v ≡ (read_idl disk path).0)
      × All (Settled m) (read_idl disk path).1

  -- What is new is good.
  abbrev New : Idls → Idls → Type 0
  New m m' = (j v : Str) → find j m' ≡ some v → (find j m ≡ some v) ⊎ Good m' j v

  Settled-Keeps : (m m' : Idls) (t : Str) → Keeps m m' → Settled m t → Settled m' t
  Settled-Keeps m m' t k (inl (v, q)) = inl (v, k t v q)
  Settled-Keeps m m' t k (inr q) = inr q

  All-Keeps : (m m' : Idls) (ts : List Str) → Keeps m m' → All (Settled m) ts → All (Settled m') ts
  All-Keeps m m' [] k a = tt
  All-Keeps m m' (t ∷ ts) k (s, a) = (Settled-Keeps m m' t k s, All-Keeps m m' ts k a)

  New-trans : (m m₁ m₂ : Idls) → Keeps m₁ m₂ → New m m₁ → New m₁ m₂ → New m m₂
  New-trans m m₁ m₂ k n n' j v q = elim (n' j v q) [
    | inr g ↦ inr g
    | inl q₁ ↦ elim (n j v q₁) [
      | inl q₀ ↦ inl q₀
      | inr (path, r, e, a) ↦ inr (path, r, e, All-Keeps m₁ m₂ (read_idl disk path).1 k a)
    ]
  ]

  -- What comes of collecting a type, and of collecting the types of a list.
  abbrev Collected : Str → Idls → Option (Idls × Bool) → Type 0
  Collected t m r =
      (m' : Idls) × (b : Bool) × (r ≡ some (m', b)) × Keeps m m' × New m m' × Settled m' t

  abbrev AllCollected : List Str → Idls → Option Idls → Type 0
  AllCollected ts m r = (m' : Idls) × (r ≡ some m') × Keeps m m' × New m m' × All (Settled m') ts

  each-lem :
      (us : List Str) (n : ℕ) (collect : Str → Idls → Option (Idls × Bool))
      → ((t : Str) (m : Idls) → left us m < n → Collected t m (collect t m))
      → (ts : List Str) (m : Idls) → left us m < n
      → AllCollected ts m (collect_each collect ts m)
  unfolding collect_each
  each-lem us n collect one [] m l = (m, refl, (λ j v q. q), (λ j v q. inl q), tt)
  each-lem us n collect one (t ∷ ts) m l =
      let (m₁, b, e₁, k₁, n₁, s₁) = one t m l in
      let (m₂, e₂, k₂, n₂, s₂) =
        each-lem us n collect one ts m₁ (omega (arith, l, left-Keeps us m m₁ k₁)) in
      (
        m₂,
        next e₁ ∙ e₂,
        (λ j v q. k₂ j v (k₁ j v q)),
        New-trans m m₁ m₂ k₂ n₁ n₂,
        (Settled-Keeps m₁ m₂ t k₂ s₁, s₂),
      )
    where
      next :
          {m₁ : Idls} {b : Bool}
          → collect t m ≡ some (m₁, b)
          → collect_each collect (t ∷ ts) m ≡ collect_each collect ts m₁
      next e = rw (e, collect_each) refl

  -- The type itself, with its file: the text is added, and then the includes are collected.
  file-lem :
      (us : List Str) (n : ℕ) (collect : Str → Idls → Option (Idls × Bool)) (t path : Str)
      (m : Idls)
      → ((t : Str) (m : Idls) → left us m < n → Collected t m (collect t m))
      → find t m ≡ none
      → idl_path disk blacklist t ≡ some path
      → let (text, types) = read_idl disk path in
        left us (emplace t text m) < n
        → (m' : Idls) × (collect_each collect types (emplace t text m) ≡ some m')
          × Keeps m m'
          × New m m'
          × Settled m' t
  file-lem us n collect t path m one h q l =
      let (text, types) = read_idl disk path in
      let m₁ = emplace t text m in
      let (m₂, e, k, n₂, s) = each-lem us n collect one types m₁ l in
      let k₁ = Keeps-emplace t text m h in
      let at_t : find t m₁ ≡ some text =
        ground (arith, h, find-emplace t t text m, str_eq_iff t t) in
      (
        m₂,
        e,
        (λ j v p. k j v (k₁ j v p)),
        (λ j v p. elim (n₂ j v p) [
          | inr g ↦ inr g
          | inl p₁ ↦ elim (find-added t text j v m h p₁) [
            | inl p₀ ↦ inl p₀
            | inr (a, b) ↦ inr (path, ap (idl_path disk blacklist) a ∙ q, b, s)
          ]
        ]),
        inl (text, k t text at_t),
      )

  collect_idls-lem :
      (us : List Str)
      → ((t path : Str) → idl_path disk blacklist t ≡ some path → mem t us ≡ true)
      → (fuel : ℕ) (t : Str) (m : Idls) → left us m < fuel
      → Collected t m (collect_idls fuel disk blacklist t m)
  unfolding collect_idls
  collect_idls-lem us files zero t m l = absurd (omega (arith, l))
  collect_idls-lem us files (suc fuel) t m l = elim (Option-cases (find t m)) [
    | inr (v, h) ↦ (m, false, rw (h) refl, (λ j v q. q), (λ j v q. inl q), inl (v, h))
    | inl h ↦ elim (Option-cases (idl_path disk blacklist t)) [
      | inl q ↦ (m, false, rw (h, q) refl, (λ j v q. q), (λ j v q. inl q), inr q)
      | inr (path, q) ↦
          let (m', e, k, n, s) =
            file-lem us fuel (collect_idls fuel disk blacklist) t path m
              (collect_idls-lem us files fuel) h q
              (omega (arith, l, left-emplace us t (read_idl disk path).0 m h (files t path q))) in
          (m', true, rw (h, q, e) refl, k, n, s)
    ]
  ]

left-empty : (us : List Str) → left us [] ≡ length us
unfolding find
left-empty [] = refl
left-empty (u ∷ us) = ground (arith, left-empty us)

-- Where the types that have a file are among those of a list, fuel for one more than the list has is
-- enough to collect any types, one after the other: the recursion through the includes ends, also where
-- they form a circle. Each type that was asked for is there then, if it has a file outside the
-- blacklist; each that is there has the text of its file, and every type that this file includes is
-- there in turn, or has no file, or is in the blacklist.
pub collect_idls-closed :
    (disk : Disk) (blacklist us ts : List Str)
    → ((t path : Str) → idl_path disk blacklist t ≡ some path → mem t us ≡ true)
    → (m : Idls) × (collect_each (collect_idls (suc (length us)) disk blacklist) ts [] ≡ some m)
      × ((j v : Str) → find j m ≡ some v → Good disk blacklist m j v)
      × All (Settled disk blacklist m) ts
unfolding find
collect_idls-closed disk blacklist us ts files =
    let (m, e, k, n, s) =
      each-lem disk blacklist us (suc (length us)) (collect_idls (suc (length us)) disk blacklist)
        (collect_idls-lem disk blacklist us files (suc (length us))) ts []
        (omega (arith, left-empty us)) in
    (m, e, (λ j v q. elim (n j v q) [ inl p ↦ ground (arith, p) | inr g ↦ g ]), s)
