-- ===== src/Peer/Secrets.antt =====
-- That what src/wrtc_peer.cpp logs of its TURN servers does not show the secret.
use phntm_bridge.Prelude.{
  Bool, map, if◌then◌else◌, ℕ, zero, suc, ◌≡◌, ◌≢◌, inl, inr, refl, ap, ap₂, ◌∙◌, subst, true,
  false, none, some, List, [], ◌∷◌, ◌++◌, Str, is_some, mem, nat_key, arith, Option-cases, All,
  codes,
}
use phntm_bridge.Text.{strip_prefix, str_find, replace, replace_loop}
use phntm_bridge.Text.Replace.{replace_total}
use phntm_bridge.Peer.Ice.{turn_url, turn_line, turn_servers, stars}

-- The text is not found at any place.
abbrev Absent : Str → Str → Type 0
Absent p [] = strip_prefix p [] ≡ none
Absent p (c ∷ s) = (strip_prefix p (c ∷ s) ≡ none) × Absent p s

Absent-str_find : (p s : Str) → str_find p s ≡ none → Absent p s
unfolding str_find
Absent-str_find p [] h = ground (arith, h)
Absent-str_find p (c ∷ s) h = ground (arith, h, Absent-str_find p s)

str_find-Absent : (p s : Str) → Absent p s → str_find p s ≡ none
unfolding str_find
str_find-Absent p [] h = ground (arith, h)
str_find-Absent p (c ∷ s) (h, a) = ground (arith, h, str_find-Absent p s a)

strip_prefix-append : (p s r : Str) → strip_prefix p s ≡ some r → s ≡ p ++ r
unfolding strip_prefix
strip_prefix-append [] s r h = ground (arith, h)
strip_prefix-append (a ∷ p) [] r h = ground (arith, h)
strip_prefix-append (a ∷ p) (c ∷ s) r h = ground (arith, h, strip_prefix-append p s r)

-- The first place: at the head, or behind it, with nothing found at the head.
abbrev FirstPlace : Str → ℕ → Str → Str → Str → Type 0
FirstPlace p c s [] a = strip_prefix p (c ∷ s) ≡ some a
FirstPlace p c s (d ∷ b) a =
    (strip_prefix p (c ∷ s) ≡ none) × (c ≡ d) × (str_find p s ≡ some (b, a))

str_find-FirstPlace :
    (p : Str) (c : ℕ) (s b a : Str) → str_find p (c ∷ s) ≡ some (b, a) → FirstPlace p c s b a
unfolding str_find
str_find-FirstPlace p c s b a h = elim (Option-cases (strip_prefix p (c ∷ s))) [
  | inr (r, q) ↦
      let (e, f) : ([] ≡ b) × (r ≡ a) = ground (arith, h, q) in
      subst (λ x. FirstPlace p c s x a) e (q ∙ ap some f)
  | inl q ↦ elim (Option-cases (str_find p s)) [
    | inl k ↦ ground (arith, h, q, k)
    | inr ((b', a'), k) ↦
        let (e, f) : (c ∷ b' ≡ b) × (a' ≡ a) = ground (arith, h, q, k) in
        subst (λ x. FirstPlace p c s x a) e (q, refl, k ∙ ap (λ y. some (b', y)) f)
  ]
]

str_find-append : (p s b a : Str) → str_find p s ≡ some (b, a) → s ≡ b ++ (p ++ a)
unfolding str_find
str_find-append p [] b a h = elim (Option-cases (strip_prefix p [])) [
  | inl q ↦ ground (arith, h, q)
  | inr (r, q) ↦ ground (arith, h, q, strip_prefix-append p [] r q)
]
str_find-append p (c ∷ s) [] a h =
    strip_prefix-append p (c ∷ s) a (str_find-FirstPlace p c s [] a h)
str_find-append p (c ∷ s) (d ∷ b) a h =
    let (_, e, k) = str_find-FirstPlace p c s (d ∷ b) a h in
    ap₂ (λ x y. x ∷ y) e (str_find-append p s b a k)

-- A text without a star that stands before a star stands before anything.
before_star :
    (p b t u : Str)
    → mem 42 p ≡ false
    → is_some (strip_prefix p (b ++ 42 ∷ t)) ≡ true
    → is_some (strip_prefix p (b ++ u)) ≡ true
unfolding strip_prefix mem
before_star [] b t u m h = refl
before_star (x ∷ p) [] t u m h = ground (arith, m, h)
before_star (x ∷ p) (c ∷ b) t u m h = ground (arith, m, h, before_star p b t u)

-- In front of a star, what stands before the first place hides the text.
Absent-before :
    (p s b a t : Str)
    → mem 42 p ≡ false
    → str_find p s ≡ some (b, a)
    → Absent p (42 ∷ t)
    → Absent p (b ++ 42 ∷ t)
Absent-before p s [] a t m h n = n
Absent-before p [] (d ∷ b) a t m h n = ground (arith, str_find-append p [] (d ∷ b) a h)
Absent-before p (c ∷ s) (d ∷ b) a t m h n =
    let (q, e, k) = str_find-FirstPlace p c s (d ∷ b) a h in
    let same : c ∷ s ≡ d ∷ (b ++ (p ++ a)) = str_find-append p (c ∷ s) (d ∷ b) a h in
    (ground (arith, q, same, before_star p (d ∷ b) t (p ++ a) m), Absent-before p s b a t m k n)

-- Nothing but what has no star begins with one.
Absent-star : (p t : Str) → p ≢ [] → mem 42 p ≡ false → Absent p t → Absent p (42 ∷ t)
unfolding strip_prefix mem
Absent-star [] t z m n = absurd (z refl)
Absent-star (x ∷ p) t z m n = (ground (arith, m), n)

replace_loop-Absent :
    (fuel : ℕ) (p s r : Str)
    → p ≢ []
    → mem 42 p ≡ false
    → replace_loop fuel p stars s ≡ some r
    → Absent p r
unfolding replace_loop
replace_loop-Absent zero p s r z m h = ground (arith, h)
replace_loop-Absent (suc fuel) p s r z m h = elim (Option-cases (str_find p s)) [
  | inl q ↦ subst (Absent p) (ground (arith, h, q)) (Absent-str_find p s q)
  | inr ((b, a), q) ↦ elim (Option-cases (replace_loop fuel p stars a)) [
    | inl k ↦ ground (arith, h, q, k)
    | inr (d, k) ↦
        let star = λ (t : Str) (n : Absent p t). Absent-star p t z m n in
        let rest = replace_loop-Absent fuel p a d z m k in
        let e : b ++ (stars ++ d) ≡ r = ground (arith, h, q, k) in
        subst (Absent p) e (
          Absent-before p s b a _ m q
            (star _ (star _ (star _ (star _ (star _ (star _ (star _ rest))))))))
  ]
]

-- The URLs of the servers of turn:, with the name and the secret.
abbrev urls : Str → Str → List Str → List Str
urls username secret [] = []
urls username secret (one ∷ ones) = elim (strip_prefix (codes "turn:") one) [
  | none ↦ urls username secret ones
  | some address ↦
      (codes "turn://" ++ (username ++ (codes ":" ++ (secret ++ (codes "@" ++ address)))))
      ∷ urls username secret ones
]

-- The URLs up to the first that is not accepted, and whether there is one.
abbrev taken : (Str → Bool) → List Str → List Str × Bool
taken accepts [] = ([], false)
taken accepts (u ∷ us) =
    let (vs, threw) = taken accepts us in if accepts u then (u ∷ vs, threw) else ([], true)

-- The line of a server shows its URL with the secret replaced; there, the secret is not found.
abbrev Hides : Str → Str → Str × Str → Type 0
Hides id secret (url, line) =
    (shown : Str) × (line
      ≡ (27 ∷ codes "[33m")
        ++ ((codes "[RTC Peer #" ++ (id ++ codes "] "))
            ++ (codes "Config adding ICE: " ++ (shown ++ 27 ∷ codes "[0m"))))
    × (replace url secret (codes "*******") ≡ some shown)
    × (str_find secret shown ≡ none)

-- The servers, the exception and the lines of a run of the loop.
abbrev pub Added : Str → Str → List Str × Bool → List (Str × Str) × Bool → Type 0
Added id secret (vs, threw) (us, t) =
    (map (λ (u : Str × Str). u.0) us ≡ vs) × (t ≡ threw) × All (Hides id secret) us

Added-if :
    (c : Bool) (id secret u line : Str) (vs : List Str) (threw : Bool) (us : List (Str × Str))
    (t : Bool)
    → Hides id secret (u, line)
    → Added id secret (vs, threw) (us, t)
    → Added id secret
        (if c then (u ∷ vs, threw) else ([], true))
        (if c then ((u, line) ∷ us, t) else ([], true))
Added-if true id secret u line vs threw us t h (a, b, c) = (ap (λ x. u ∷ x) a, b, (h, c))
Added-if false id secret u line vs threw us t h a = (refl, refl, tt)

-- With a secret that is not empty and has no star, the loop ends: it adds exactly the servers of turn:,
-- with the name and the secret in their URLs, up to the first that is refused, which throws. For each
-- that is added it logs a line, which is of a fixed form, with the identifier of the peer and the URL
-- with the secret replaced; and what stands there for the URL does not show the secret.
pub turn_servers-hidden :
    (accepts : Str → Bool) (id username secret : Str) (ones : List Str)
    → secret ≢ []
    → mem 42 secret ≡ false
    → (r : List (Str × Str) × Bool) × (turn_servers accepts id username secret ones ≡ some r)
      × Added id secret (taken accepts (urls username secret ones)) r
unfolding turn_servers
turn_servers-hidden accepts id username secret [] z m = (([], false), refl, (refl, refl, tt))
turn_servers-hidden accepts id username secret (one ∷ ones) z m =
    let ((us, t), e, a) = turn_servers-hidden accepts id username secret ones z m in
    elim (Option-cases (strip_prefix (codes "turn:") one)) [
      | inl q ↦ ((us, t), rw (q) e, rw (q) a)
      | inr (address, q) ↦
          let url = turn_url username secret address in
          let (shown, r) = replace_total url secret stars z in
          let (vs, threw) = taken accepts (urls username secret ones) in
          (
            (if accepts url then ((url, turn_line id shown) ∷ us, t) else ([], true)),
            rw (q, r, e) (joined (accepts url) url shown us t),
            rw (q) (
                Added-if (accepts url) id secret url (turn_line id shown) vs threw us t
                  (shown, refl, r, str_find-Absent secret shown (hidden url shown r)) a),
          )
    ]
  where
    hidden : (url log : Str) → replace url secret stars ≡ some log → Absent secret log
    hidden url log r = unfold replace in replace_loop-Absent _ secret url log z m r

    joined :
        (c : Bool) (url shown : Str) (us : List (Str × Str)) (t : Bool)
        → let x : List (Str × Str) × Bool = ((url, turn_line id shown) ∷ us, t) in
          (if c then some x else some ([], true)) ≡ some (if c then x else ([], true))
    joined true url shown us t = refl
    joined false url shown us t = refl
