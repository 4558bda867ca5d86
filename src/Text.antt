-- ===== src/Text.antt =====
-- The text helpers of src/lib.cpp. A `std::string` is the list of its bytes.
-- `std::string::npos` is `none`.
pub mod Trim
pub mod Split
pub mod Replace
pub mod Hex
pub mod Examples
use phntm_bridge.Prelude.{
  ℕ, zero, suc, ◌+◌, ◌-◌, ◌*◌, ◌/◌, ◌%◌, ◌^◌, Bool, true, false, not, ◌&&◌, ◌||◌, Option, none,
  some, List, [], ◌∷◌, ◌++◌, reverse, Str, codes, str_eq, nat_eq, ltb, leb, if◌then◌else◌, is_empty,
  mem, nat_key, length,
}

-- s.find_first_not_of(chars), as the text from there on; `[]` stands for `npos`.
unfoldable pub drop_leading : Str → Str → Str
unfolding mem
drop_leading chars [] = []
drop_leading chars (c ∷ s) = let rest = drop_leading chars s in if mem c chars then rest else c ∷ s

-- The text up to s.find_last_not_of(chars).
unfoldable pub drop_trailing : Str → Str → Str
unfolding drop_leading
drop_trailing chars s = reverse (drop_leading chars (reverse s))

unfoldable pub trim : Str → Str → Str
unfolding drop_leading drop_trailing
trim chars str = drop_trailing chars (drop_leading chars str)

-- The default of `trim_chars` in lib.hpp.
abbrev pub whitespace : Str
whitespace = codes " " ++ 9 ∷ 10 ∷ 13 ∷ 12 ∷ 11 ∷ []

-- std::getline: the text up to the first delimiter, and what follows it if there is one.
unfoldable getline : ℕ → Str → Str × Option Str
getline d [] = ([], none)
getline d (c ∷ s) = let r = getline d s in if nat_eq c d then ([], some s) else (c ∷ r.0, r.1)

-- One token more to the front of what was read: a token that is open, and those behind it.
abbrev pub cons_token : ℕ → List Str → List Str
cons_token c [] = (c ∷ []) ∷ []
cons_token c (t ∷ ts) = (c ∷ t) ∷ ts

-- split: `getline` until the stream is at its end. A text that ends in the delimiter, and the empty
-- text, leave no empty token behind.
unfoldable pub split : ℕ → Str → List Str
split d [] = []
split d (c ∷ s) = let r = split d s in if nat_eq c d then [] ∷ r else cons_token c r

-- str.rfind(d) on the text before the position that the loop has reached: what stands before the
-- last delimiter, and what stands behind it.
unfoldable pub rfind : ℕ → Str → Option (Str × Str)
rfind d [] = none
rfind d (c ∷ s) = elim (rfind d s) [
  | some (before, behind) ↦ some (c ∷ before, behind)
  | none ↦ if nat_eq c d then some ([], s) else none
]

-- The loop of `rsplit`, on the text that is not yet split, with the splits that it may still make.
-- The fuel is the length of the text: each round takes at least the delimiter away.
unfoldable pub rsplit_loop : ℕ → ℕ → Option ℕ → Str → List Str → List Str
rsplit_loop zero d maxsplit s out = s ∷ out
rsplit_loop (suc fuel) d (some zero) s out = s ∷ out
rsplit_loop (suc fuel) d (some (suc m)) s out = elim (rfind d s) [
  | none ↦ s ∷ out
  | some (before, behind) ↦ rsplit_loop fuel d (some m) before (behind ∷ out)
]
rsplit_loop (suc fuel) d none s out = elim (rfind d s) [
  | none ↦ s ∷ out
  | some (before, behind) ↦ rsplit_loop fuel d none before (behind ∷ out)
]

-- rsplit: `none` is maxsplit = -1. The pieces are collected from the back and reversed at the end,
-- so they stand here in their order. `last_pos` is the length of the text that is left, which is
-- pushed as the last piece, empty or not.
unfoldable pub rsplit : Str → ℕ → Option ℕ → List Str
unfolding rsplit_loop rfind
rsplit str d maxsplit = rsplit_loop (length str + 1) d maxsplit str []

unfoldable pub join : List Str → Str → Str
join [] separator = []
join (t ∷ []) separator = t
join (t ∷ u ∷ ts) separator = t ++ (separator ++ join (u ∷ ts) separator)

-- What stands behind the prefix, if the text begins with it.
unfoldable pub strip_prefix : Str → Str → Option Str
strip_prefix [] s = some s
strip_prefix (p ∷ ps) [] = none
strip_prefix (p ∷ ps) (c ∷ s) = if nat_eq p c then strip_prefix ps s else none

-- str.find(search, pos), on the text from `pos`: what stands before the first place and behind it.
-- The empty text is found at once, at the end of the text too.
unfoldable pub str_find : Str → Str → Option (Str × Str)
unfolding strip_prefix
str_find search [] = elim (strip_prefix search []) [ some rest ↦ some ([], rest) | none ↦ none ]
str_find search (c ∷ s) =
    let later = str_find search s in
    elim (strip_prefix search (c ∷ s)) [
      | some rest ↦ some ([], rest)
      | none ↦ elim later [ some (before, behind) ↦ some (c ∷ before, behind) | none ↦ none ]
    ]

-- The loop of `replace`, on the text from `pos`; `none` means that the fuel ran out.
unfoldable pub replace_loop : ℕ → Str → Str → Str → Option Str
unfolding str_find
replace_loop zero search by s = none
replace_loop (suc fuel) search by s = elim (str_find search s) [
  | none ↦ some s
  | some (before, behind) ↦ elim (replace_loop fuel search by behind) [
    | none ↦ none
    | some done ↦ some (before ++ (by ++ done))
  ]
]

-- replace, with fuel for one round more than the text has bytes.
unfoldable pub replace : Str → Str → Str → Option Str
unfolding replace_loop
replace str search by = replace_loop (length str + 1) search by str

unfoldable to_lower : ℕ → ℕ
to_lower c = if leb b'A' c && leb c b'Z' then c + 32 else c

unfoldable pub str_to_lower : Str → Str
unfolding to_lower
str_to_lower [] = []
str_to_lower (c ∷ s) = to_lower c ∷ str_to_lower s

-- hex_chars[nibble]
unfoldable pub hex_char : Bool → ℕ → ℕ
hex_char uppercase n = if ltb n 10 then 48 + n else (if uppercase then 55 + n else 87 + n)

-- The loop of `toHex`, over the nibbles that are left; `i` runs from 28 down to 0 in steps of 4.
unfoldable pub to_hex_loop : ℕ → Bool → ℕ → Str → Str
unfolding hex_char
to_hex_loop zero uppercase num result = result
to_hex_loop (suc k) uppercase num result =
    let nibble = (num / 2 ^ (4 * k)) % 16 in
    to_hex_loop k uppercase num (
      if not (nat_eq nibble 0) || not (is_empty result)
      then result ++ hex_char uppercase nibble ∷ []
      else result)

unfoldable pub to_hex : ℕ → Bool → Str
unfolding to_hex_loop
to_hex num uppercase =
    let result = to_hex_loop 8 uppercase num [] in if is_empty result then 48 ∷ [] else result
