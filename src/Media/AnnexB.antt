-- ===== src/Media/AnnexB.antt =====
-- The NAL units that splitNalUnits of src/topic_reader_h264.cpp finds in an H.264 byte stream in the
-- format of Annex B.
use phntm_bridge.Prelude.{
  ℕ, zero, suc, ◌≡◌, refl, ap, ap₂, ◌∙◌, Bool, true, false, not, ◌&&◌, Option, some, List, [], ◌∷◌,
  ◌++◌, Str, is_empty, nat_eq, if◌then◌else◌, map, arith,
}
use phntm_bridge.Media.Nal.{
  rev_onto, zeros, drop, is_start_code, grown, cut, last_unit, nal_loop, split_nal_units,
}

-- An Annex B stream: each unit behind a start code of four bytes or of three.
unfoldable pub annex_b : List (Bool × Str) → Str
annex_b [] = []
annex_b ((long, u) ∷ units) =
    let code = 0 ∷ 0 ∷ 1 ∷ (u ++ annex_b units) in if long then 0 ∷ code else code

-- No 0, 0, 1 within, and no 0 at the end; `seen` is what stands before, the last byte first.
abbrev clean_from : Str → Str → Bool
clean_from seen [] = not (zeros 1 seen)
clean_from seen (c ∷ u) = not (nat_eq c 1 && zeros 2 seen) && clean_from (c ∷ seen) u

-- What H.264 asks of a unit.
abbrev is_nal_unit : Str → Bool
is_nal_unit u = not (is_empty u) && clean_from [] u

abbrev all_nal_units : List (Bool × Str) → Bool
all_nal_units [] = true
all_nal_units ((long, u) ∷ units) = is_nal_unit u && all_nal_units units

rev_onto-rev_onto : (u r s : Str) → rev_onto (rev_onto u r) s ≡ rev_onto r (u ++ s)
unfolding rev_onto
rev_onto-rev_onto [] r s = refl
rev_onto-rev_onto (x ∷ u) r s = rev_onto-rev_onto u (x ∷ r) s

append_empty : (u : Str) → u ++ [] ≡ u
append_empty [] = refl
append_empty (x ∷ u) = ap (◌∷◌ x) (append_empty u)

-- A start code's 1 ends the run of zeros.
zeros-append : (n : ℕ) (r m : Str) → zeros n (r ++ 1 ∷ m) ≡ zeros n r
unfolding zeros
zeros-append zero r m = refl
zeros-append (suc n) [] m = refl
zeros-append (suc n) (x ∷ r) m = ap (◌&&◌ (nat_eq x 0)) (zeros-append n r m)

nal_loop-plain :
    (seen s : Str) (unit : Option Str) (c : ℕ)
    → is_start_code seen c ≡ false
    → nal_loop seen unit (c ∷ s) ≡ nal_loop (c ∷ seen) (grown c unit) s
unfolding nal_loop
nal_loop-plain seen s unit c h = rw h refl

nal_loop-code :
    (seen s : Str) (unit : Option Str) (c : ℕ)
    → is_start_code seen c ≡ true
    → nal_loop seen unit (c ∷ s) ≡ cut seen unit ++ nal_loop (c ∷ seen) (some []) s
unfolding nal_loop
nal_loop-code seen s unit c h = rw h refl

zeros_fewer : (r : Str) → zeros 3 r ≡ true → zeros 2 r ≡ true
unfolding zeros
zeros_fewer [] h = h
zeros_fewer (a ∷ []) h = ground (arith, h)
zeros_fewer (a ∷ b ∷ r) h = ground (arith, h)

no_code :
    (r m : Str) (c : ℕ)
    → not (nat_eq c 1 && zeros 2 r) ≡ true
    → is_start_code (r ++ 1 ∷ m) c ≡ false
unfolding is_start_code
no_code r m c h = ground (arith, h, zeros-append 3 r m, zeros-append 2 r m, zeros_fewer r)

-- Within a unit no start code is seen.
nal_loop-unit :
    (u r m s : Str)
    → clean_from r u ≡ true
    → nal_loop (r ++ 1 ∷ m) (some r) (u ++ s)
      ≡ nal_loop (rev_onto u r ++ 1 ∷ m) (some (rev_onto u r)) s
unfolding rev_onto
nal_loop-unit [] r m s h = refl
nal_loop-unit (c ∷ u) r m s h =
    nal_loop-plain (r ++ 1 ∷ m) (u ++ s) (some r) c (no_code r m c (ground (arith, h)))
    ∙ nal_loop-unit u (c ∷ r) m s (ground (arith, h))

-- The end of a unit is not a zero.
clean-end : (u r : Str) → clean_from r u ≡ true → zeros 1 (rev_onto u r) ≡ false
unfolding rev_onto
clean-end [] r h = ground (arith, h)
clean-end (c ∷ u) r h = clean-end u (c ∷ r) (ground (arith, h))

rev_onto-cons : (u r : Str) (x : ℕ) → is_empty (rev_onto u (x ∷ r)) ≡ false
unfolding rev_onto
rev_onto-cons [] r x = refl
rev_onto-cons (y ∷ u) r x = rev_onto-cons u (x ∷ r) y

-- A start code of three or four bytes behind a unit, or at the start of the stream.
short_code :
    (r m s : Str)
    → zeros 1 r ≡ false
    → nal_loop (r ++ 1 ∷ m) (some r) (0 ∷ 0 ∷ 1 ∷ s)
      ≡ rev_onto r [] ∷ nal_loop (1 ∷ 0 ∷ 0 ∷ (r ++ 1 ∷ m)) (some []) s
short_code r m s h =
    nal_loop-plain (r ++ 1 ∷ m) (0 ∷ 1 ∷ s) (some r) 0 (unfold is_start_code in refl)
    ∙ (nal_loop-plain (0 ∷ (r ++ 1 ∷ m)) (1 ∷ s) (some (0 ∷ r)) 0 (unfold is_start_code in refl)
        ∙ (nal_loop-code (0 ∷ 0 ∷ (r ++ 1 ∷ m)) s (some (0 ∷ 0 ∷ r)) 1
              (unfold is_start_code zeros in rw (zeros-append 1 r m ∙ h) refl)
            ∙ ap (λ us. us ++ nal_loop (1 ∷ 0 ∷ 0 ∷ (r ++ 1 ∷ m)) (some []) s) ends))
  where
    ends : cut (0 ∷ 0 ∷ (r ++ 1 ∷ m)) (some (0 ∷ 0 ∷ r)) ≡ rev_onto r [] ∷ []
    ends = unfold cut drop zeros in rw (zeros-append 1 r m ∙ h) refl

long_code :
    (r m s : Str)
    → zeros 1 r ≡ false
    → nal_loop (r ++ 1 ∷ m) (some r) (0 ∷ 0 ∷ 0 ∷ 1 ∷ s)
      ≡ rev_onto r [] ∷ nal_loop (1 ∷ 0 ∷ 0 ∷ 0 ∷ (r ++ 1 ∷ m)) (some []) s
long_code r m s h =
    nal_loop-plain (r ++ 1 ∷ m) (0 ∷ 0 ∷ 1 ∷ s) (some r) 0 (unfold is_start_code in refl)
    ∙ (nal_loop-plain (0 ∷ (r ++ 1 ∷ m)) (0 ∷ 1 ∷ s) (some (0 ∷ r)) 0 (unfold is_start_code in refl)
        ∙ (nal_loop-plain (0 ∷ 0 ∷ (r ++ 1 ∷ m)) (1 ∷ s) (some (0 ∷ 0 ∷ r)) 0
              (unfold is_start_code in refl)
            ∙ (nal_loop-code (0 ∷ 0 ∷ 0 ∷ (r ++ 1 ∷ m)) s (some (0 ∷ 0 ∷ 0 ∷ r)) 1
                  (unfold is_start_code zeros in refl)
                ∙ ap (λ us. us ++ nal_loop (1 ∷ 0 ∷ 0 ∷ 0 ∷ (r ++ 1 ∷ m)) (some []) s) ends)))
  where
    ends : cut (0 ∷ 0 ∷ 0 ∷ (r ++ 1 ∷ m)) (some (0 ∷ 0 ∷ 0 ∷ r)) ≡ rev_onto r [] ∷ []
    ends = unfold cut drop zeros in refl

rev_onto_twice : (u : Str) → rev_onto (rev_onto u []) [] ≡ u
unfolding rev_onto
rev_onto_twice u = rev_onto-rev_onto u [] [] ∙ append_empty u

last_unit-rev_onto :
    (c : ℕ) (u seen : Str) → last_unit seen (some (rev_onto (c ∷ u) [])) ≡ (c ∷ u) ∷ []
unfolding last_unit rev_onto
last_unit-rev_onto c u seen = rw (rev_onto-cons u [] c) (ap (λ v. v ∷ []) (rev_onto_twice (c ∷ u)))

-- The start code of the next unit ends a unit, and the loop goes on behind it.
next_unit :
    (units : List (Bool × Str)) (v u m : Str) (long : Bool)
    → clean_from [] u ≡ true
    → ((m' : Str) → nal_loop (1 ∷ m') (some []) (v ++ annex_b units) ≡ v ∷ map (λ p. p.1) units)
    → nal_loop (rev_onto u [] ++ 1 ∷ m) (some (rev_onto u [])) (annex_b ((long, v) ∷ units))
      ≡ u ∷ v ∷ map (λ p. p.1) units
unfolding annex_b
next_unit units v u m true h rest =
    long_code (rev_onto u []) m (v ++ annex_b units) (clean-end u [] h)
    ∙ ap₂ ◌∷◌ (rev_onto_twice u) (rest (0 ∷ 0 ∷ 0 ∷ (rev_onto u [] ++ 1 ∷ m)))
next_unit units v u m false h rest =
    short_code (rev_onto u []) m (v ++ annex_b units) (clean-end u [] h)
    ∙ ap₂ ◌∷◌ (rev_onto_twice u) (rest (0 ∷ 0 ∷ (rev_onto u [] ++ 1 ∷ m)))

-- Behind a start code, the loop gives the unit and those that follow.
nal_loop-annex_b :
    (units : List (Bool × Str)) (u m : Str)
    → is_nal_unit u ≡ true
    → all_nal_units units ≡ true
    → nal_loop (1 ∷ m) (some []) (u ++ annex_b units) ≡ u ∷ map (λ p. p.1) units
unfolding annex_b nal_loop last_unit
nal_loop-annex_b units [] m h k = ground (arith, h)
nal_loop-annex_b [] (c ∷ u) m h k =
    nal_loop-unit (c ∷ u) [] m [] (ground (arith, h))
    ∙ last_unit-rev_onto c u (rev_onto (c ∷ u) [] ++ 1 ∷ m)
nal_loop-annex_b ((long, v) ∷ units) (c ∷ u) m h k =
    nal_loop-unit (c ∷ u) [] m _ (ground (arith, h))
    ∙ next_unit units v (c ∷ u) m long (ground (arith, h))
        (λ m'. nal_loop-annex_b units v m' (ground (arith, k)) (ground (arith, k)))

-- A stream of units, each behind a start code of three or of four bytes, is split into its units, if
-- each unit is not empty, has no bytes 0, 0, 1 within and does not end in a 0.
pub split_nal_units-annex_b :
    (units : List (Bool × Str))
    → all_nal_units units ≡ true
    → split_nal_units (annex_b units) ≡ map (λ p. p.1) units
unfolding split_nal_units annex_b
split_nal_units-annex_b [] h = unfold nal_loop last_unit in refl
split_nal_units-annex_b ((true, u) ∷ units) h =
    unfold nal_loop is_start_code zeros cut in
    nal_loop-annex_b units u (0 ∷ 0 ∷ 0 ∷ []) (ground (arith, h)) (ground (arith, h))
split_nal_units-annex_b ((false, u) ∷ units) h =
    unfold nal_loop is_start_code zeros cut in
    nal_loop-annex_b units u (0 ∷ 0 ∷ []) (ground (arith, h)) (ground (arith, h))
