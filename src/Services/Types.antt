-- ===== src/Services/Types.antt =====
-- What it is for the memory of a message to be of its type, for src/generic_services.cpp.
use phntm_bridge.Prelude.{
  ℕ, ◌^◌, ◌≡◌, refl, Bool, true, false, ◌&&◌, some, Str, str_eq, str_eq_iff, ltb, arith, Bool-cases,
  inl, inr,
}
use phntm_bridge.Services.{
  Primitive, bool, uint8, int8, float32, float64, int16, uint16, int32, uint32, int64, uint64, text,
  wide, TypeId, primitive, message, other, Shape, single, many, Members, no_more, member, Value,
  flag, bits, chars, units, struct, sequence, Fields, no_field, field, Values, nothing, element,
  Support, find_member, get, put,
}

-- Integers lie in their range; the patterns of floats may be any.
abbrev pub fits_primitive : Primitive → Value → Bool
fits_primitive bool (flag b) = true
fits_primitive uint8 (bits n) = ltb n (2 ^ 8)
fits_primitive int8 (bits n) = ltb n (2 ^ 8)
fits_primitive float32 (bits n) = true
fits_primitive float64 (bits n) = true
fits_primitive int16 (bits n) = ltb n (2 ^ 16)
fits_primitive uint16 (bits n) = ltb n (2 ^ 16)
fits_primitive int32 (bits n) = ltb n (2 ^ 32)
fits_primitive uint32 (bits n) = ltb n (2 ^ 32)
fits_primitive int64 (bits n) = ltb n (2 ^ 64)
fits_primitive uint64 (bits n) = ltb n (2 ^ 64)
fits_primitive text (chars s) = true
fits_primitive wide (units w) = true
fits_primitive p v = false

-- A message has its members' fields, in their order.
unfoldable mutual
  pub fits : Members → Fields → Bool
  fits no_more no_field = true
  fits (member name t shape nested rest) (field n v fs) =
      let here : Bool = elim shape [
        | single ↦ fits_value t nested v
        | many upper size ↦ fits_array t nested v
      ] in
      str_eq name n && (here && fits rest fs)
  fits members fs = false

  pub fits_value : TypeId → Members → Value → Bool
  fits_value (primitive p) nested v = fits_primitive p v
  fits_value (other id) nested v = true
  fits_value message nested (struct fs) = fits nested fs
  fits_value message nested v = false

  pub fits_array : TypeId → Members → Value → Bool
  fits_array t nested (sequence vs) = all_fit t nested vs
  fits_array t nested v = false

  pub all_fit : TypeId → Members → Values → Bool
  all_fit t nested nothing = true
  all_fit t nested (element v vs) = fits_value t nested v && all_fit t nested vs

abbrev pub fits_shape : TypeId → Shape → Members → Value → Bool
fits_shape t single nested v = fits_value t nested v
fits_shape t (many upper size) nested v = fits_array t nested v

-- What the generated functions promise: init gives a message of its type; resize keeps the elements
-- and adds such of their type; assign puts a value of the type in.
pub record KeepsTypes (ts : Support) : Type 0 where
  pub init_fits : (ms : Members) → fits ms (ts.init ms) ≡ true
  pub resize_fits :
      (shape : Shape) (t : TypeId) (nested : Members) (vs ws : Values) (n : ℕ)
      → all_fit t nested vs ≡ true
      → ts.resize shape t nested vs n ≡ some ws
      → all_fit t nested ws ≡ true
  pub assign_fits :
      (t : TypeId) (nested : Members) (vs : Values) (i : ℕ) (v : Value)
      → all_fit t nested vs ≡ true
      → fits_value t nested v ≡ true
      → all_fit t nested (ts.assign vs i v) ≡ true

pub fits_parts :
    (name n : Str) (u : TypeId) (s : Shape) (ns rest : Members) (w : Value) (fs : Fields)
    → fits (member name u s ns rest) (field n w fs) ≡ true
    → (name ≡ n) × (fits_shape u s ns w ≡ true) × (fits rest fs ≡ true)
unfolding fits
fits_parts name n u single ns rest w fs h =
    ((str_eq_iff name n).0 (ground (arith, h)), ground (arith, h), ground (arith, h))
fits_parts name n u (many b k) ns rest w fs h =
    ((str_eq_iff name n).0 (ground (arith, h)), ground (arith, h), ground (arith, h))

pub fits_whole :
    (name n : Str) (u : TypeId) (s : Shape) (ns rest : Members) (w : Value) (fs : Fields)
    → name ≡ n
    → fits_shape u s ns w ≡ true
    → fits rest fs ≡ true
    → fits (member name u s ns rest) (field n w fs) ≡ true
unfolding fits
fits_whole name n u single ns rest w fs e h k = rw ((str_eq_iff name n).1 e) (rw h k)
fits_whole name n u (many b l) ns rest w fs e h k = rw ((str_eq_iff name n).1 e) (rw h k)

pub get-fits :
    (key : Str) (members nested : Members) (fs : Fields) (t : TypeId) (shape : Shape) (v : Value)
    → fits members fs ≡ true
    → find_member key members ≡ some (t, shape, nested)
    → get key fs ≡ some v
    → fits_shape t shape nested v ≡ true
unfolding find_member get
get-fits key no_more nested fs t shape v h f g = cc
get-fits key (member name u s ns rest) nested no_field t shape v h f g = cc
get-fits key (member name u s ns rest) nested (field n w fs) t shape v h f g =
    let (e, p, q) = fits_parts name n u s ns rest w fs h in
    let g' : get key (field name w fs) ≡ some v = rw e g in
    elim (Bool-cases (str_eq name key)) [
      | inl b ↦ cc
      | inr b ↦ get-fits key rest nested fs t shape v q (rw b at f) (rw b at g')
    ]

pub put-fits :
    (key : Str) (members nested : Members) (fs : Fields) (t : TypeId) (shape : Shape) (v : Value)
    → fits members fs ≡ true
    → find_member key members ≡ some (t, shape, nested)
    → fits_shape t shape nested v ≡ true
    → fits members (put key v fs) ≡ true
unfolding find_member put
put-fits key no_more nested fs t shape v h f g = cc
put-fits key (member name u s ns rest) nested no_field t shape v h f g = unfold fits in cc
put-fits key (member name u s ns rest) nested (field n w fs) t shape v h f g =
    let (e, p, q) = fits_parts name n u s ns rest w fs h in
    elim (Bool-cases (str_eq name key)) [
      | inl b ↦
          let here : fits_shape u s ns v ≡ true = cc in
          let b' : str_eq n key ≡ true = rw (← e) b in
          rw b' (fits_whole name n u s ns rest v fs e here q)
      | inr b ↦
          let b' : str_eq n key ≡ false = rw (← e) b in
          rw b' (
            fits_whole name n u s ns rest w (put key v fs) e p
              (put-fits key rest nested fs t shape v q (rw b at f) g))
    ]

-- What the field of a nested message must hold before.
abbrev pub starts : TypeId → Members → Value → Bool
starts message nested old = fits_value message nested old
starts t nested old = true

pub fits_starts :
    (t : TypeId) (nested : Members) (v : Value)
    → fits_value t nested v ≡ true
    → starts t nested v ≡ true
fits_starts (primitive p) nested v h = refl
fits_starts message nested v h = h
fits_starts (other id) nested v h = refl

pub init_starts :
    (ts : Support)
    → KeepsTypes ts
    → (t : TypeId) (nested : Members) → starts t nested (struct (ts.init nested)) ≡ true
unfolding fits
init_starts ts k (primitive p) nested = refl
init_starts ts k message nested = k.init_fits nested
init_starts ts k (other id) nested = refl
