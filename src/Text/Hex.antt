-- ===== src/Text/Hex.antt =====
-- `toHex` of src/lib.cpp writes the number it is given.
use native.Mathlib.Nat.{div-div-eq-div-mul, pow-suc}
use phntm_bridge.Prelude.{
  ℕ, zero, suc, ◌+◌, ◌-◌, ◌*◌, ◌/◌, ◌%◌, ◌^◌, ◌<◌, ◌≡◌, refl, ap, ◌∙◌, inl, inr, Bool, ◌||◌, not,
  [], ◌∷◌, ◌++◌, Str, nat_eq, ltb, arith, Bool-cases, if◌then◌else◌, is_empty,
}
use phntm_bridge.Text.{hex_char, to_hex_loop, to_hex}

-- The value of a digit, of either case.
unfoldable digit : ℕ → ℕ
digit c = if ltb c 58 then c - 48 else (if ltb c 71 then c - 55 else c - 87)

-- The number that a text of digits stands for, read from the left.
unfoldable of_hex : ℕ → Str → ℕ
unfolding digit
of_hex acc [] = acc
of_hex acc (c ∷ s) = of_hex (16 * acc + digit c) s

digit-hex_char : (u : Bool) (n : ℕ) → n < 16 → digit (hex_char u n) ≡ n
unfolding digit hex_char
digit-hex_char u n h = ground arith

of_hex-append : (acc : ℕ) (s : Str) (c : ℕ) → of_hex acc (s ++ c ∷ []) ≡ 16 * of_hex acc s + digit c
unfolding of_hex
of_hex-append acc [] c = refl
of_hex-append acc (b ∷ s) c = of_hex-append (16 * acc + digit b) s c

nibble_weight : (k : ℕ) → 2 ^ (4 * suc k) ≡ 2 ^ (4 * k) * 16
nibble_weight k =
    let e : 4 * suc k ≡ suc (suc (suc (suc (4 * k)))) = omega arith in
    rw
      (
        e,
        pow-suc 2 (suc (suc (suc (4 * k)))),
        pow-suc 2 (suc (suc (4 * k))),
        pow-suc 2 (suc (4 * k)),
        pow-suc 2 (4 * k),
      )
      (omega arith)

next_nibble :
    (num k : ℕ) → num / 2 ^ (4 * k) ≡ 16 * (num / 2 ^ (4 * suc k)) + (num / 2 ^ (4 * k)) % 16
next_nibble num k = rw (nibble_weight k, ← div-div-eq-div-mul num (2 ^ (4 * k)) 16) (omega arith)

-- One digit more, or none in front of the first that is not 0.
of_hex-push :
    (u : Bool) (n : ℕ) (r : Str)
    → n < 16
    → of_hex 0 (if not (nat_eq n 0) || not (is_empty r) then r ++ hex_char u n ∷ [] else r)
      ≡ 16 * of_hex 0 r + n
of_hex-push u n [] h = elim (Bool-cases (nat_eq n 0)) [
  | inl e ↦ rw e (unfold of_hex in ground arith)
  | inr e ↦
      rw e
        (of_hex-append 0 [] (hex_char u n) ∙ ap (λ d. 16 * of_hex 0 [] + d) (digit-hex_char u n h))
]
of_hex-push u n (c ∷ r) h = elim (Bool-cases (nat_eq n 0)) [
  | inl e ↦ rw e (
      of_hex-append 0 (c ∷ r) (hex_char u n)
      ∙ ap (λ d. 16 * of_hex 0 (c ∷ r) + d) (digit-hex_char u n h))
  | inr e ↦ rw e (
      of_hex-append 0 (c ∷ r) (hex_char u n)
      ∙ ap (λ d. 16 * of_hex 0 (c ∷ r) + d) (digit-hex_char u n h))
]

of_hex-to_hex_loop :
    (u : Bool) (k num : ℕ) (r : Str)
    → of_hex 0 r ≡ num / 2 ^ (4 * k)
    → of_hex 0 (to_hex_loop k u num r) ≡ num
unfolding to_hex_loop
of_hex-to_hex_loop u zero num r h = h ∙ omega arith
of_hex-to_hex_loop u (suc k) num r h =
    of_hex-to_hex_loop u k num _ (
      of_hex-push u ((num / 2 ^ (4 * k)) % 16) r (omega arith)
      ∙ omega (arith, h, next_nibble num k))

or_zero : (s : Str) → of_hex 0 (if is_empty s then 48 ∷ [] else s) ≡ of_hex 0 s
unfolding of_hex
or_zero [] = refl
or_zero (c ∷ s) = refl

-- The digits, of either case, stand for the 32-bit number.
of_hex-to_hex : (num : ℕ) (u : Bool) → num < 2 ^ 32 → of_hex 0 (to_hex num u) ≡ num
unfolding to_hex
of_hex-to_hex num u h =
    or_zero (to_hex_loop 8 u num []) ∙ of_hex-to_hex_loop u 8 num [] (unfold of_hex in omega arith)
