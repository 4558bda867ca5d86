-- ===== src/Services/Typed.antt =====
-- The memory of a request under MapSocketMessageToRequest of src/generic_services.cpp: what it holds
-- is of the type that the type support describes.
use phntm_bridge.Prelude.{
  ℕ, suc, ◌≡◌, refl, Bool, true, Option, none, some, List, Str, arith, Option-cases, inl, inr,
}
use phntm_bridge.Services.{
  Msg, null, int, double, string, binary, boolean, array, object, Msgs, end, item, Entries, empty,
  entry, Primitive, bool, uint8, int8, float32, float64, int16, uint16, int32, uint32, int64,
  uint64, text, wide, TypeId, primitive, message, other, Shape, single, many, Members, Value, flag,
  bits, chars, units, struct, sequence, Fields, Values, Outcome, done, error, fault, Support,
  find_member, get, put, no_key,
}
use phntm_bridge.Services.Request.{
  string_of, widened, convert, request_size, set_value, set_elements, set_array, map_entries,
  map_request,
}
use phntm_bridge.Services.Types.{
  fits_primitive, fits, fits_value, fits_array, all_fit, fits_shape, KeepsTypes, get-fits, put-fits,
  starts, fits_starts, init_starts,
}

convert-fits : (ts : Support) (p : Primitive) (m : Msg) → fits_primitive p (convert ts p m).0 ≡ true
unfolding convert
convert-fits ts bool m = refl
convert-fits ts uint8 m = ground arith
convert-fits ts int8 m = ground arith
convert-fits ts float32 m = refl
convert-fits ts float64 m = refl
convert-fits ts int16 m = ground arith
convert-fits ts uint16 m = ground arith
convert-fits ts int32 m = ground arith
convert-fits ts uint32 m = ground arith
convert-fits ts int64 m = ground arith
convert-fits ts uint64 m = ground arith
convert-fits ts text m = refl
convert-fits ts wide m = widened_fits (ts.from_bytes (string_of m))
  where
    widened_fits : (w : Option (List ℕ)) → fits_primitive wide (widened w).0 ≡ true
    widened_fits none = refl
    widened_fits (some w) = refl

-- What a loop returns behind an element, and behind a field.
step_fits :
    (t : TypeId) (nested : Members) (out : Outcome) (vs : Values) (r : Values × Outcome)
    → all_fit t nested vs ≡ true
    → all_fit t nested r.0 ≡ true
    → all_fit t nested
        (let q : Values × Outcome = elim out [
          | done ↦ r
          | error e ↦ (vs, error e)
          | fault ↦ (vs, fault)
        ] in
          q).0
      ≡ true
step_fits t nested done vs r h k = k
step_fits t nested (error e) vs r h k = h
step_fits t nested fault vs r h k = h

field_fits :
    (members : Members) (out : Outcome) (fs : Fields) (r : Fields × Outcome)
    → fits members fs ≡ true
    → fits members r.0 ≡ true
    → fits members
        (let q : Fields × Outcome = elim out [
          | done ↦ r
          | error e ↦ (fs, error e)
          | fault ↦ (fs, fault)
        ] in
          q).0
      ≡ true
field_fits members done fs r h k = k
field_fits members (error e) fs r h k = h
field_fits members fault fs r h k = h

-- One field of an object, given what holds of its value and of the fields that follow.
entry_fits :
    (ts : Support) (members nested : Members) (key : Str) (m : Msg) (t : TypeId) (shape : Shape)
    (rest : Entries) (fs : Fields) (old : Value)
    → fits members fs ≡ true
    → find_member key members ≡ some (t, shape, nested)
    → fits_shape t shape nested old ≡ true
    → ((o : Value)
        → starts t nested o ≡ true
        → fits_value t nested (set_value ts t nested m o).0 ≡ true)
    → ((b : Bool) (n : ℕ) (o : Value)
        → fits_array t nested o ≡ true
        → fits_array t nested (set_array ts key t b n nested m o).0 ≡ true)
    → ((fs' : Fields)
        → fits members fs' ≡ true
        → fits members (map_entries ts members rest fs').0 ≡ true)
    → fits members
        (let r : Value × Outcome = elim shape [
          | single ↦ set_value ts t nested m old
          | many upper size ↦ set_array ts key t upper size nested m old
        ] in
          let q : Fields × Outcome = elim r.1 [
            | done ↦ map_entries ts members rest (put key r.0 fs)
            | error e ↦ (put key r.0 fs, error e)
            | fault ↦ (put key r.0 fs, fault)
          ] in
          q).0
      ≡ true
entry_fits ts members nested key m t single rest fs old h e o v a more =
    let r = set_value ts t nested m old in
    let fs_fit =
      put-fits key members nested fs t single r.0 h e (v old (fits_starts t nested old o)) in
    field_fits members r.1 (put key r.0 fs) (map_entries ts members rest (put key r.0 fs)) fs_fit
      (more (put key r.0 fs) fs_fit)
entry_fits ts members nested key m t (many b n) rest fs old h e o v a more =
    let r = set_array ts key t b n nested m old in
    let fs_fit = put-fits key members nested fs t (many b n) r.0 h e (a b n old o) in
    field_fits members r.1 (put key r.0 fs) (map_entries ts members rest (put key r.0 fs)) fs_fit
      (more (put key r.0 fs) fs_fit)

-- The same, with what the two look-ups found.
found_fits :
    (ts : Support) (members : Members) (key : Str) (m : Msg) (rest : Entries) (fs : Fields)
    (found : Option (TypeId × Shape × Members)) (got : Option Value)
    → fits members fs ≡ true
    → find_member key members ≡ found
    → get key fs ≡ got
    → ((t : TypeId) (nested : Members) (o : Value)
        → starts t nested o ≡ true
        → fits_value t nested (set_value ts t nested m o).0 ≡ true)
    → ((t : TypeId) (nested : Members) (b : Bool) (n : ℕ) (o : Value)
        → fits_array t nested o ≡ true
        → fits_array t nested (set_array ts key t b n nested m o).0 ≡ true)
    → ((fs' : Fields)
        → fits members fs' ≡ true
        → fits members (map_entries ts members rest fs').0 ≡ true)
    → fits members
        (let q : Fields × Outcome = elim found [
          | none ↦ (fs, error (no_key key))
          | some (t, shape, nested) ↦ elim got [
            | none ↦ (fs, fault)
            | some old ↦
                let r : Value × Outcome = elim shape [
                  | single ↦ set_value ts t nested m old
                  | many upper size ↦ set_array ts key t upper size nested m old
                ] in
                elim r.1 [
                  | done ↦ map_entries ts members rest (put key r.0 fs)
                  | error e ↦ (put key r.0 fs, error e)
                  | fault ↦ (put key r.0 fs, fault)
                ]
          ]
        ] in
          q).0
      ≡ true
found_fits ts members key m rest fs none got h e g v a more = h
found_fits ts members key m rest fs (some (t, shape, nested)) none h e g v a more = h
found_fits ts members key m rest fs (some (t, shape, nested)) (some old) h e g v a more =
    entry_fits ts members nested key m t shape rest fs old h e
      (get-fits key members nested fs t shape old h e g) (v t nested) (a t nested) more

mutual
  unfolding map_entries fits

  set_value-fits :
      (ts : Support) (k : KeepsTypes ts) (t : TypeId) (nested : Members) (m : Msg) (old : Value)
      → starts t nested old ≡ true
      → fits_value t nested (set_value ts t nested m old).0 ≡ true
  set_value-fits ts k (primitive p) nested m old h = convert-fits ts p m
  set_value-fits ts k (other id) nested m old h = refl
  set_value-fits ts k message nested (object es) (struct fs) h =
      map_entries-fits ts k nested es fs h
  set_value-fits ts k message nested (object es) (flag b) h = h
  set_value-fits ts k message nested (object es) (bits b) h = h
  set_value-fits ts k message nested (object es) (chars b) h = h
  set_value-fits ts k message nested (object es) (units b) h = h
  set_value-fits ts k message nested (object es) (sequence b) h = h
  set_value-fits ts k message nested null old h = h
  set_value-fits ts k message nested (int n) old h = h
  set_value-fits ts k message nested (double n) old h = h
  set_value-fits ts k message nested (string n) old h = h
  set_value-fits ts k message nested (binary n) old h = h
  set_value-fits ts k message nested (boolean n) old h = h
  set_value-fits ts k message nested (array n) old h = h

  set_elements-fits :
      (ts : Support) (k : KeepsTypes ts) (t : TypeId) (nested : Members) (size i : ℕ) (ms : Msgs)
      (vs : Values)
      → all_fit t nested vs ≡ true
      → all_fit t nested (set_elements ts t nested size i ms vs).0 ≡ true
  set_elements-fits ts k t nested size i end vs h = h
  set_elements-fits ts k t nested size i (item m ms) vs h =
      let start : Value = struct (ts.init nested) in
      let r : Value × Outcome = set_value ts t nested m start in
      let vs' = ts.assign vs i r.0 in
      let v_fits = set_value-fits ts k t nested m start (init_starts ts k t nested) in
      let vs_fit = k.assign_fits t nested vs i r.0 h v_fits in
      step_fits t nested r.1 vs (set_elements ts t nested size (suc i) ms vs') h
        (set_elements-fits ts k t nested size (suc i) ms vs' vs_fit)

  set_array-fits :
      (ts : Support) (k : KeepsTypes ts) (key : Str) (t : TypeId) (upper : Bool) (size : ℕ)
      (nested : Members) (m : Msg) (old : Value)
      → fits_array t nested old ≡ true
      → fits_array t nested (set_array ts key t upper size nested m old).0 ≡ true
  set_array-fits ts k key t upper size nested (array ms) (sequence vs) h =
      let n = request_size upper size ms in
      elim (Option-cases (ts.resize (many upper size) t nested vs n)) [
        | inl e ↦ rw e h
        | inr (ws, e) ↦ rw e (
            set_elements-fits ts k t nested n 0 ms ws
              (k.resize_fits (many upper size) t nested vs ws n h e))
      ]
  set_array-fits ts k key t upper size nested (array ms) (flag b) h = h
  set_array-fits ts k key t upper size nested (array ms) (bits b) h = h
  set_array-fits ts k key t upper size nested (array ms) (chars b) h = h
  set_array-fits ts k key t upper size nested (array ms) (units b) h = h
  set_array-fits ts k key t upper size nested (array ms) (struct b) h = h
  set_array-fits ts k key t upper size nested null old h = h
  set_array-fits ts k key t upper size nested (int n) old h = h
  set_array-fits ts k key t upper size nested (double n) old h = h
  set_array-fits ts k key t upper size nested (string n) old h = h
  set_array-fits ts k key t upper size nested (binary n) old h = h
  set_array-fits ts k key t upper size nested (boolean n) old h = h
  set_array-fits ts k key t upper size nested (object n) old h = h

  map_entries-fits :
      (ts : Support) (k : KeepsTypes ts) (members : Members) (es : Entries) (fs : Fields)
      → fits members fs ≡ true
      → fits members (map_entries ts members es fs).0 ≡ true
  map_entries-fits ts k members empty fs h = h
  map_entries-fits ts k members (entry key m rest) fs h =
      found_fits ts members key m rest fs (find_member key members) (get key fs) h refl refl
        (λ t nested o. set_value-fits ts k t nested m o)
        (λ t nested b n o. set_array-fits ts k key t b n nested m o)
        (λ fs'. map_entries-fits ts k members rest fs')

-- Whatever message arrives, and whether it maps with an error or without one, the memory of the
-- request stays a message of its type with every integer in the range of its width, if it was one and
-- the type support keeps types.
pub map_request-fits :
    (ts : Support) (members : Members) (m : Msg) (fs : Fields)
    → KeepsTypes ts
    → fits members fs ≡ true
    → fits members (map_request ts members m fs).0 ≡ true
unfolding map_request
map_request-fits ts members null fs k h = h
map_request-fits ts members (object es) fs k h = map_entries-fits ts k members es fs h
map_request-fits ts members (int n) fs k h = h
map_request-fits ts members (double n) fs k h = h
map_request-fits ts members (string n) fs k h = h
map_request-fits ts members (binary n) fs k h = h
map_request-fits ts members (boolean n) fs k h = h
map_request-fits ts members (array n) fs k h = h
