-- ===== src/Introspection/Split.antt =====
-- How src/introspection.cpp splits the full name of a node.
use phntm_bridge.Prelude.{
  ℕ, ◌≡◌, refl, false, none, some, Option-cases, inl, inr, Str, [], ◌∷◌, mem, nat_eq, nat_key,
  is_some, if◌then◌else◌, arith,
}
use phntm_bridge.Text.{rfind}
use phntm_bridge.Introspection.{split_name}

-- The part of a text behind its last slash, or the whole text.
abbrev pub base_name : Str → Str
base_name [] = []
base_name (c ∷ s) = if mem 47 (c ∷ s) then base_name s else c ∷ s

base_name-whole : (s : Str) → mem 47 s ≡ false → base_name s ≡ s
base_name-whole [] h = refl
base_name-whole (c ∷ s) h = ground (arith, h)

rfind-base_name :
    (s : Str)
    → let r : Str = elim (rfind 47 s) [ none ↦ s | some (before, behind) ↦ behind ] in
      (r ≡ base_name s) × (is_some (rfind 47 s) ≡ mem 47 s)
unfolding rfind mem
rfind-base_name [] = (refl, refl)
rfind-base_name (c ∷ s) =
    let (same, found) = rfind-base_name s in
    (
      ground (arith, same, found, base_name-whole s, nat_eq_comm c 47),
      ground (arith, found, nat_eq_comm c 47),
    )
  where
    nat_eq_comm : (m n : ℕ) → nat_eq m n ≡ nat_eq n m
    nat_eq_comm m n = ground arith

pub split_name-base_name : (n : Str) → (split_name n).0 ≡ base_name n
unfolding split_name
split_name-base_name n = elim (Option-cases (rfind 47 n)) [
  | inl q ↦ ground (arith, q, rfind-base_name n)
  | inr ((before, behind), q) ↦ ground (arith, q, rfind-base_name n)
]
