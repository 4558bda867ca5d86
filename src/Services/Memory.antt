-- ===== src/Services/Memory.antt =====
-- The fields of a message in memory, as src/generic_services.cpp finds and sets them by their offsets.
use phntm_bridge.Prelude.{
  ◌≡◌, refl, Bool, true, false, not, ◌&&◌, none, some, Str, str_eq, str_eq_iff, str_eq_refl,
  if◌then◌else◌, arith, Bool-cases, inl, inr, is_some,
}
use phntm_bridge.Services.{
  Members, no_more, member, Value, Fields, no_field, field, find_member, get, put,
}
use phntm_bridge.Services.Types.{fits, fits_parts}

-- A field is found in what was put exactly where it was.
pub get-put :
    (k j : Str) (v : Value) (fs : Fields)
    → get j (put k v fs)
      ≡ (if str_eq k j then (if is_some (get k fs) then some v else none) else get j fs)
unfolding get put
get-put k j v no_field = ground arith
get-put k j v (field n w fs) =
    ground (arith, get-put k j v fs, str_eq_iff k j, str_eq_iff n k, str_eq_iff n j, str_eq_refl n)

-- The members of a message have fields, and its fields are of members.
pub find_member-get :
    (j : Str) (members : Members) (fs : Fields)
    → fits members fs ≡ true
    → is_some (find_member j members) ≡ is_some (get j fs)
unfolding find_member get
find_member-get j no_more no_field h = refl
find_member-get j no_more (field n w fs) h = unfold fits in cc
find_member-get j (member name t s ns rest) no_field h = unfold fits in cc
find_member-get j (member name t s ns rest) (field n w fs) h =
    let (e, p, q) = fits_parts name n t s ns rest w fs h in
    let ih = find_member-get j rest fs q in
    elim (Bool-cases (str_eq name j)) [
      | inl b ↦ let b' : str_eq n j ≡ true = rw (← e) b in rw b (rw b' refl)
      | inr b ↦ let b' : str_eq n j ≡ false = rw (← e) b in rw b (rw b' ih)
    ]

-- No name stands twice.
abbrev pub distinct_names : Members → Bool
distinct_names no_more = true
distinct_names (member name t s ns rest) =
    not (is_some (find_member name rest)) && distinct_names rest

-- Two messages of one type that agree in every field are equal.
pub fields_ext :
    (members : Members) (a b : Fields)
    → distinct_names members ≡ true
    → fits members a ≡ true
    → fits members b ≡ true
    → ((j : Str) → is_some (find_member j members) ≡ true → get j a ≡ get j b)
    → a ≡ b
unfolding find_member get
fields_ext no_more no_field no_field d h k same = refl
fields_ext no_more no_field (field n w fs) d h k same = unfold fits in cc
fields_ext no_more (field n w fs) b d h k same = unfold fits in cc
fields_ext (member name t s ns rest) no_field b d h k same = unfold fits in cc
fields_ext (member name t s ns rest) (field n w fs) no_field d h k same = unfold fits in cc
fields_ext (member name t s ns rest) (field n w fs) (field n' w' fs') d h k same =
    let (e, p, q) = fits_parts name n t s ns rest w fs h in
    let (e', p', q') = fits_parts name n' t s ns rest w' fs' k in
    let first : get name (field n w fs) ≡ get name (field n' w' fs') =
      same name (rw (str_eq_refl name) refl) in
    let a : str_eq n name ≡ true = rw (← e) (str_eq_refl name) in
    let b : str_eq n' name ≡ true = rw (← e') (str_eq_refl name) in
    let value : some w ≡ some w' = rw a at (rw b at first) in
    let tails : fs ≡ fs' = fields_ext rest fs fs' (ground arith) q q' (λ j g. tail_same j g) in cc
  where
    tail_same : (j : Str) → is_some (find_member j rest) ≡ true → get j fs ≡ get j fs'
    tail_same j g = elim (Bool-cases (str_eq name j)) [
      | inl b ↦
          let e : name ≡ j = (str_eq_iff name j).0 b in
          let g' : is_some (find_member name rest) ≡ true = rw e g in absurd (ground (arith, g'))
      | inr b ↦
          let (e, p, q) = fits_parts name n t s ns rest w fs h in
          let (e', p', q') = fits_parts name n' t s ns rest w' fs' k in
          let c : str_eq n j ≡ false = rw (← e) b in
          let c' : str_eq n' j ≡ false = rw (← e') b in
          let whole : get j (field n w fs) ≡ get j (field n' w' fs') = same j (rw b g) in
          rw c at (rw c' at whole)
    ]
