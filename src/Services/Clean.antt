-- ===== src/Services/Clean.antt =====
-- Messages in memory that src/generic_services.cpp can map both ways, and the parts of their responses.
use phntm_bridge.Prelude.{
  ℕ, suc, zero, ◌≡◌, refl, Bool, true, false, not, ◌&&◌, some, Str, str_eq, str_eq_iff, nat_eq,
  if◌then◌else◌, arith, is_some,
}
use phntm_bridge.Services.{
  TypeId, primitive, message, other, Shape, single, many, Members, no_more, member, Value, flag,
  bits, chars, units, struct, sequence, Fields, no_field, field, Values, nothing, element, Support,
  find_member,
}
use phntm_bridge.Services.Types.{fits_primitive, fits, fits_value, fits_array, all_fit, fits_whole}
use phntm_bridge.Services.Memory.{distinct_names}

abbrev pub values_length : Values → ℕ
values_length nothing = 0
values_length (element v vs) = suc (values_length vs)

-- An array without a size, or a bounded one that is full.
abbrev pub is_mapped_size : Bool → ℕ → ℕ → Bool
is_mapped_size upper size n = if upper then nat_eq n size else nat_eq size 0

-- A message of its type, with no unsupported member and no array of a fixed size, whose bounded arrays
-- are full, and whose members' names are distinct.
unfoldable mutual
  pub is_clean : Members → Fields → Bool
  is_clean no_more no_field = true
  is_clean (member name t shape nested rest) (field n v fs) =
      let here : Bool = elim shape [
        | single ↦ is_clean_value t nested v
        | many upper size ↦ is_clean_array t upper size nested v
      ] in
      str_eq name n && (not (is_some (find_member name rest)) && (here && is_clean rest fs))
  is_clean members fs = false

  pub is_clean_value : TypeId → Members → Value → Bool
  is_clean_value (primitive p) nested v = fits_primitive p v
  is_clean_value (other id) nested v = false
  is_clean_value message nested (struct fs) = is_clean nested fs
  is_clean_value message nested v = false

  pub is_clean_array : TypeId → Bool → ℕ → Members → Value → Bool
  is_clean_array t upper size nested (sequence vs) =
      is_mapped_size upper size (values_length vs) && all_clean t nested vs
  is_clean_array t upper size nested v = false

  pub all_clean : TypeId → Members → Values → Bool
  all_clean t nested nothing = true
  all_clean t nested (element v vs) = is_clean_value t nested v && all_clean t nested vs

abbrev is_clean_shape : TypeId → Shape → Members → Value → Bool
is_clean_shape t single nested v = is_clean_value t nested v
is_clean_shape t (many upper size) nested v = is_clean_array t upper size nested v

abbrev pub set_at : Values → ℕ → Value → Values
set_at nothing i v = nothing
set_at (element w ws) zero v = element v ws
set_at (element w ws) (suc i) v = element w (set_at ws i v)

-- What the generated functions promise: an array without a size, and a bounded one up to its bound,
-- is resized to the number that is asked for; assign replaces one element.
pub record KeepsArrays (ts : Support) : Type 0 where
  pub resized :
      (upper : Bool) (size : ℕ) (t : TypeId) (nested : Members) (vs : Values) (n : ℕ)
      → is_mapped_size upper size n ≡ true
      → (ws : Values) × (ts.resize (many upper size) t nested vs n ≡ some ws)
        × (values_length ws ≡ n)
  pub assigned : (vs : Values) (i : ℕ) (v : Value) → ts.assign vs i v ≡ set_at vs i v

and_parts :
    (a b c d : Bool)
    → a && (not b && (c && d)) ≡ true
    → (a ≡ true) × (b ≡ false) × (c ≡ true) × (d ≡ true)
and_parts true false true true h = (refl, refl, refl, refl)
and_parts a b c d h = ground arith

pub clean_parts :
    (name n : Str) (t : TypeId) (s : Shape) (ns rest : Members) (w : Value) (fs : Fields)
    → is_clean (member name t s ns rest) (field n w fs) ≡ true
    → (name ≡ n)
      × (is_some (find_member name rest) ≡ false)
      × (is_clean_shape t s ns w ≡ true)
      × (is_clean rest fs ≡ true)
unfolding is_clean
clean_parts name n t s ns rest w fs h = parts s h
  where
    parts :
        (shape : Shape)
        → is_clean (member name t shape ns rest) (field n w fs) ≡ true
        → (name ≡ n)
          × (is_some (find_member name rest) ≡ false)
          × (is_clean_shape t shape ns w ≡ true)
          × (is_clean rest fs ≡ true)
    parts single h =
        let (p, q, c, r) =
          and_parts (str_eq name n) (is_some (find_member name rest)) (is_clean_value t ns w)
            (is_clean rest fs) h in
        ((str_eq_iff name n).0 p, q, c, r)
    parts (many b k) h =
        let (p, q, c, r) =
          and_parts (str_eq name n) (is_some (find_member name rest)) (is_clean_array t b k ns w)
            (is_clean rest fs) h in
        ((str_eq_iff name n).0 p, q, c, r)

pub clean_distinct :
    (members : Members) (fs : Fields) → is_clean members fs ≡ true → distinct_names members ≡ true
clean_distinct no_more fs h = refl
clean_distinct (member name t s ns rest) no_field h = unfold is_clean in cc
clean_distinct (member name t s ns rest) (field n w fs) h =
    let (e, d, c, q) = clean_parts name n t s ns rest w fs h in rw d (clean_distinct rest fs q)

mutual
  unfolding is_clean fits

  pub clean-fits :
      (members : Members) (fs : Fields) → is_clean members fs ≡ true → fits members fs ≡ true
  clean-fits no_more no_field h = refl
  clean-fits no_more (field n w fs) h = h
  clean-fits (member name t s ns rest) no_field h = h
  clean-fits (member name t single ns rest) (field n w fs) h =
      let (e, d, c, q) = clean_parts name n t single ns rest w fs h in
      fits_whole name n t single ns rest w fs e (clean-fits_value t ns w c) (clean-fits rest fs q)
  clean-fits (member name t (many b k) ns rest) (field n w fs) h =
      let (e, d, c, q) = clean_parts name n t (many b k) ns rest w fs h in
      fits_whole name n t (many b k) ns rest w fs e (clean-fits_array t b k ns w c)
        (clean-fits rest fs q)

  clean-fits_value :
      (t : TypeId) (nested : Members) (v : Value)
      → is_clean_value t nested v ≡ true
      → fits_value t nested v ≡ true
  clean-fits_value (primitive p) nested v h = h
  clean-fits_value (other id) nested v h = refl
  clean-fits_value message nested (struct fs) h = clean-fits nested fs h
  clean-fits_value message nested (flag b) h = h
  clean-fits_value message nested (bits b) h = h
  clean-fits_value message nested (chars b) h = h
  clean-fits_value message nested (units b) h = h
  clean-fits_value message nested (sequence b) h = h

  clean-fits_array :
      (t : TypeId) (upper : Bool) (size : ℕ) (nested : Members) (v : Value)
      → is_clean_array t upper size nested v ≡ true
      → fits_array t nested v ≡ true
  clean-fits_array t upper size nested (sequence vs) h =
      all_clean-fit t nested vs (ground (arith, h))
  clean-fits_array t upper size nested (flag b) h = h
  clean-fits_array t upper size nested (bits b) h = h
  clean-fits_array t upper size nested (chars b) h = h
  clean-fits_array t upper size nested (units b) h = h
  clean-fits_array t upper size nested (struct b) h = h

  all_clean-fit :
      (t : TypeId) (nested : Members) (vs : Values)
      → all_clean t nested vs ≡ true
      → all_fit t nested vs ≡ true
  all_clean-fit t nested nothing h = refl
  all_clean-fit t nested (element v vs) h = ground (
    arith,
    clean-fits_value t nested v (ground (arith, h)),
    all_clean-fit t nested vs (ground (arith, h)),
  )
