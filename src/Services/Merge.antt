-- ===== src/Services/Merge.antt =====
-- The fields of a response in src/generic_services.cpp, as a socket message carries them into a request.
use phntm_bridge.Prelude.{
  ◌≡◌, ◌⊎◌, str_lt, refl, ap, sym, ◌∙◌, Bool, true, false, Option, none, some, Str, str_eq,
  str_eq_iff, if◌then◌else◌, arith, Bool-cases, Option-cases, inl, inr, is_some,
}
use phntm_bridge.Services.{
  Msg, Entries, empty, entry, TypeId, Shape, single, many, Members, Value, Fields, Outcome, done,
  Support, find_member, get, put,
}
use phntm_bridge.Services.Types.{
  fits, fits_array, fits_shape, get-fits, put-fits, starts, fits_starts,
}
use phntm_bridge.Services.Request.{set_value, set_array, map_entries}
use phntm_bridge.Services.Response.{find_entry, insert_entry, emplace_entry}
use phntm_bridge.Services.Memory.{get-put, find_member-get}

abbrev pub set_shape : Support → Str → TypeId → Shape → Members → Msg → Value → Value × Outcome
set_shape ts key t single nested m old = set_value ts t nested m old
set_shape ts key t (many upper size) nested m old = set_array ts key t upper size nested m old

abbrev pub starts_shape : TypeId → Shape → Members → Value → Bool
starts_shape t single nested old = starts t nested old
starts_shape t (many upper size) nested old = fits_array t nested old

-- A message sets the field of that name to what the other memory `fs` has in it.
abbrev pub Goes : Support → Members → Fields → Str → Msg → Type 0
Goes ts members fs key m =
    (t : TypeId) × (shape : Shape) × (nested : Members) × (v : Value) × (find_member key members
      ≡ some (t, shape, nested))
    × (get key fs ≡ some v)
    × ((old : Value)
        → starts_shape t shape nested old ≡ true
        → set_shape ts key t shape nested m old ≡ (v, done))

abbrev pub AllGo : Support → Members → Fields → Entries → Type 0
AllGo ts members fs empty = Unit {0}
AllGo ts members fs (entry key m rest) = Goes ts members fs key m × AllGo ts members fs rest

abbrev set_one : Str → Option Value → Fields → Fields
set_one key none fs = fs
set_one key (some v) fs = put key v fs

-- `into` with the fields of `fs` that the entries name.
abbrev pub merge : Entries → Fields → Fields → Fields
merge empty fs into = into
merge (entry key m rest) fs into = merge rest fs (set_one key (get key fs) into)

insert-AllGo :
    (ts : Support) (members : Members) (fs : Fields) (key : Str) (m : Msg) (es : Entries)
    → Goes ts members fs key m
    → AllGo ts members fs es
    → AllGo ts members fs (insert_entry key m es)
unfolding insert_entry
insert-AllGo ts members fs key m empty g h = (g, tt)
insert-AllGo ts members fs key m (entry k n rest) g (a, h) = elim (Bool-cases (str_lt key k)) [
  | inl b ↦ rw b (g, (a, h))
  | inr b ↦ rw b (a, insert-AllGo ts members fs key m rest g h)
]

pub emplace-AllGo :
    (ts : Support) (members : Members) (fs : Fields) (key : Str) (m : Msg) (es : Entries)
    → Goes ts members fs key m
    → AllGo ts members fs es
    → AllGo ts members fs (emplace_entry key m es)
unfolding emplace_entry
emplace-AllGo ts members fs key m es g h = elim (Option-cases (find_entry key es)) [
  | inl e ↦ rw (e, emplace_entry) (insert-AllGo ts members fs key m es g h)
  | inr (n, e) ↦ rw (e, emplace_entry) h
]

find-insert :
    (k j : Str) (m : Msg) (es : Entries)
    → is_some (find_entry j (insert_entry k m es))
      ≡ (if str_eq k j then true else is_some (find_entry j es))
unfolding find_entry insert_entry
find-insert k j m empty = ground arith
find-insert k j m (entry i n rest) = ground (arith, find-insert k j m rest)

pub find-emplace_entry :
    (k j : Str) (m : Msg) (es : Entries)
    → is_some (find_entry j (emplace_entry k m es))
      ≡ (if str_eq k j then true else is_some (find_entry j es))
unfolding emplace_entry
find-emplace_entry k j m es = elim (Option-cases (find_entry k es)) [
  | inl e ↦ rw (e, emplace_entry) (find-insert k j m es)
  | inr (n, e) ↦ rw (e, emplace_entry) (there n e (Bool-cases (str_eq k j)))
]
  where
    there :
        (n : Msg)
        → find_entry k es ≡ some n
        → (str_eq k j ≡ true) ⊎ (str_eq k j ≡ false)
        → is_some (find_entry j es) ≡ (if str_eq k j then true else is_some (find_entry j es))
    there n e (inl b) =
        rw b (ap (λ i. is_some (find_entry i es)) (sym ((str_eq_iff k j).0 b)) ∙ ap is_some e)
    there n e (inr b) = rw b refl

-- The loop over an object at an entry that is set.
map_entries-entry :
    (ts : Support) (members nested : Members) (key : Str) (m : Msg) (rest : Entries) (into : Fields)
    (t : TypeId) (shape : Shape) (old v : Value)
    → find_member key members ≡ some (t, shape, nested)
    → get key into ≡ some old
    → set_shape ts key t shape nested m old ≡ (v, done)
    → map_entries ts members (entry key m rest) into ≡ map_entries ts members rest (put key v into)
unfolding map_entries
map_entries-entry ts members nested key m rest into t single old v e g h = ground arith
map_entries-entry ts members nested key m rest into t (many upper size) old v e g h = ground arith

shape_starts :
    (t : TypeId) (shape : Shape) (nested : Members) (v : Value)
    → fits_shape t shape nested v ≡ true
    → starts_shape t shape nested v ≡ true
shape_starts t single nested v h = fits_starts t nested v h
shape_starts t (many upper size) nested v h = h

-- One entry that goes, and the memory behind it.
Goes-step :
    (ts : Support) (members : Members) (fs into : Fields) (key : Str) (m : Msg) (rest : Entries)
    → fits members fs ≡ true
    → fits members into ≡ true
    → Goes ts members fs key m
    → (map_entries ts members (entry key m rest) into
        ≡ map_entries ts members rest (set_one key (get key fs) into))
      × (fits members (set_one key (get key fs) into) ≡ true)
      × (is_some (get key into) ≡ true)
      × (is_some (get key fs) ≡ true)
Goes-step ts members fs into key m rest h k (t, shape, nested, v, e, g, goes) =
    let there : is_some (get key into) ≡ true =
      sym (find_member-get key members into k) ∙ ap is_some e in
    elim (Option-cases (get key into)) [
      | inl n ↦ absurd (ground (arith, there))
      | inr (old, o) ↦ rw g (
        map_entries-entry ts members nested key m rest into t shape old v e o (
            goes old (
              shape_starts t shape nested old
                (get-fits key members nested into t shape old k e o))),
        (put-fits key members nested into t shape v k e
            (get-fits key members nested fs t shape v h e g)),
        there,
        refl,
      )
    ]

-- A merge has the other memory's fields where the entries name them.
pub get-merge :
    (ts : Support) (members : Members) (fs : Fields) (es : Entries) (into : Fields) (j : Str)
    → fits members fs ≡ true
    → fits members into ≡ true
    → AllGo ts members fs es
    → get j (merge es fs into) ≡ (if is_some (find_entry j es) then get j fs else get j into)
unfolding find_entry
get-merge ts members fs empty into j h k all = refl
get-merge ts members fs (entry key m rest) into j h k (goes, more) =
    let (same, fit, there, mine) = Goes-step ts members fs into key m rest h k goes in
    get-merge ts members fs rest (set_one key (get key fs) into) j h fit more
    ∙ set_here (get key fs) refl there mine (Bool-cases (str_eq key j))
  where
    set_here :
        (o : Option Value)
        → get key fs ≡ o
        → is_some (get key into) ≡ true
        → is_some o ≡ true
        → (str_eq key j ≡ true) ⊎ (str_eq key j ≡ false)
        → (if is_some (find_entry j rest) then get j fs else get j (set_one key o into)) ≡ (
            if is_some (if str_eq key j then some m else find_entry j rest)
            then get j fs
            else get j into)
    set_here none g there mine b = cc
    set_here (some v) g there mine (inl b) = ground (arith, get-put key j v into, str_eq_iff key j)
    set_here (some v) g there mine (inr b) = ground (arith, get-put key j v into)

-- The loop over an object whose entries all go.
pub map_entries-merge :
    (ts : Support) (members : Members) (fs : Fields) (es : Entries) (into : Fields)
    → fits members fs ≡ true
    → fits members into ≡ true
    → AllGo ts members fs es
    → (map_entries ts members es into ≡ (merge es fs into, done))
      × (fits members (merge es fs into) ≡ true)
unfolding map_entries
map_entries-merge ts members fs empty into h k all = (refl, k)
map_entries-merge ts members fs (entry key m rest) into h k (goes, more) =
    let (same, fit, there, mine) = Goes-step ts members fs into key m rest h k goes in
    let (tail, tail_fit) =
      map_entries-merge ts members fs rest (set_one key (get key fs) into) h fit more in
    (same ∙ tail, tail_fit)
