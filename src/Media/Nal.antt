-- ===== src/Media/Nal.antt =====
-- splitNalUnits and hasSpsPps of src/topic_reader_h264.cpp.
use phntm_bridge.Prelude.{
  ℕ, zero, suc, ◌%◌, Bool, true, false, ◌&&◌, ◌||◌, Option, none, some, List, [], ◌∷◌, ◌++◌, Str,
  is_empty, nat_eq, if◌then◌else◌,
}

-- The elements of the first list from its end, in front of the second.
unfoldable pub rev_onto : Str → Str → Str
rev_onto [] r = r
rev_onto (x ∷ xs) r = rev_onto xs (x ∷ r)

-- The first so many entries are there, and are 0.
unfoldable pub zeros : ℕ → Str → Bool
zeros zero s = true
zeros (suc n) [] = false
zeros (suc n) (b ∷ s) = nat_eq b 0 && zeros n s

unfoldable pub drop : ℕ → Str → Str
drop zero s = s
drop (suc n) [] = []
drop (suc n) (b ∷ s) = drop n s

-- `seen` are the bytes before the position, the last one first, so data[i-1] is its head.
unfoldable pub is_start_code : Str → ℕ → Bool
unfolding zeros
is_start_code seen c = nat_eq c 1 && (zeros 3 seen || zeros 2 seen)

-- The bytes from `start` on, the last one first; `none` is start = 0, before any start code.
abbrev pub grown : ℕ → Option Str → Option Str
grown c none = none
grown c (some u) = some (c ∷ u)

-- The unit that a start code ends: without the two or three zeros of the code.
unfoldable pub cut : Str → Option Str → List Str
unfolding drop rev_onto zeros
cut seen none = []
cut seen (some u) = rev_onto (drop (if zeros 3 seen then 3 else 2) u) [] ∷ []

-- Behind the end: the rest is a unit, if there is one.
unfoldable pub last_unit : Str → Option Str → List Str
unfolding rev_onto
last_unit seen none = if is_empty seen then [] else rev_onto seen [] ∷ []
last_unit seen (some u) = if is_empty u then [] else rev_onto u [] ∷ []

unfoldable pub nal_loop : Str → Option Str → Str → List Str
unfolding is_start_code cut last_unit
nal_loop seen unit [] = last_unit seen unit
nal_loop seen unit (c ∷ s) =
    let code = is_start_code seen c in
    let rest = nal_loop (c ∷ seen) (if code then some [] else grown c unit) s in
    if code then cut seen unit ++ rest else rest

unfoldable pub split_nal_units : Str → List Str
unfolding nal_loop
split_nal_units bytes = nal_loop [] none bytes

-- unit[0] & 0x1F is 7 or 8 for some unit
unfoldable has_sps_pps : List Str → Bool
has_sps_pps [] = false
has_sps_pps ([] ∷ units) = has_sps_pps units
has_sps_pps ((b ∷ u) ∷ units) =
    let rest = has_sps_pps units in nat_eq (b % 32) 7 || (nat_eq (b % 32) 8 || rest)
