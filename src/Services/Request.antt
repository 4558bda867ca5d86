-- ===== src/Services/Request.antt =====
-- SetRequestFieldValue and MapSocketMessageToRequest of src/generic_services.cpp.
use phntm_bridge.Prelude.{
  ℕ, suc, ◌%◌, ◌^◌, Bool, false, Option, none, some, [], Str, ltb, if◌then◌else◌,
}
use phntm_bridge.Services.{
  Msg, null, int, double, string, boolean, array, object, Msgs, end, item, Entries, empty, entry,
  Primitive, bool, uint8, int8, float32, float64, int16, uint16, int32, uint32, int64, uint64, text,
  wide, TypeId, primitive, message, other, single, many, Members, Value, flag, bits, chars, units,
  struct, sequence, Fields, Values, not_an_object, no_key, no_array, not_nested, unsupported,
  Outcome, done, error, fault, Support, find_member, get, put,
}

-- A value of another flag is 0, false or the empty text.
abbrev bool_of : Msg → Bool
bool_of (boolean b) = b
bool_of m = false

abbrev int_of : Msg → ℕ
int_of (int n) = n
int_of m = 0

abbrev double_of : Msg → ℕ
double_of (double d) = d
double_of m = 0

abbrev pub string_of : Msg → Str
string_of (string s) = s
string_of m = []

abbrev pub widened : Option Str → Value × Outcome
widened none = (units [], fault)
widened (some w) = (units w, done)

-- The scalar cases of SetRequestFieldValue.
unfoldable pub convert : Support → Primitive → Msg → Value × Outcome
convert ts bool m = (flag (bool_of m), done)
convert ts uint8 m = (bits (int_of m % 2 ^ 8), done)
convert ts int8 m = (bits (int_of m % 2 ^ 8), done)
convert ts float32 m = (bits (ts.to_float (double_of m)), done)
convert ts float64 m = (bits (double_of m), done)
convert ts int16 m = (bits (int_of m % 2 ^ 16), done)
convert ts uint16 m = (bits (int_of m % 2 ^ 16), done)
convert ts int32 m = (bits (int_of m % 2 ^ 32), done)
convert ts uint32 m = (bits (int_of m % 2 ^ 32), done)
convert ts int64 m = (bits (int_of m % 2 ^ 64), done)
convert ts uint64 m = (bits (int_of m % 2 ^ 64), done)
convert ts text m = (chars (string_of m), done)
convert ts wide m = widened (ts.from_bytes (string_of m))

abbrev pub msgs_length : Msgs → ℕ
msgs_length end = 0
msgs_length (item m ms) = suc (msgs_length ms)

-- `array_size`
unfoldable pub request_size : Bool → ℕ → Msgs → ℕ
request_size upper size ms =
    let n = msgs_length ms in if upper then (if ltb n size then size else n) else n

-- What the caller of a nested MapSocketMessageToRequest keeps of its result: no error.
abbrev pub dropped : Outcome → Outcome
dropped done = done
dropped (error e) = done
dropped fault = fault

-- The cases of SetRequestFieldValue for one value, with what stands in the field; the loop over an
-- array; and the loop over the fields of an object. `i` is the index of the next element.
unfoldable mutual
  unfolding convert request_size

  pub set_value : Support → TypeId → Members → Msg → Value → Value × Outcome
  set_value ts (primitive p) nested m old = convert ts p m
  set_value ts (other id) nested m old = (old, error (unsupported id))
  set_value ts message nested (object es) (struct fs) =
      let (fs', out) = map_entries ts nested es fs in (struct fs', dropped out)
  set_value ts message nested (object es) old = (old, fault)
  set_value ts message nested m old = (old, error not_nested)

  pub set_elements : Support → TypeId → Members → ℕ → ℕ → Msgs → Values → Values × Outcome
  set_elements ts t nested size i end vs = (vs, if ltb i size then fault else done)
  set_elements ts t nested size i (item m ms) vs =
      let (v, out) = set_value ts t nested m (struct (ts.init nested)) in
      let vs' = ts.assign vs i v in
      elim out [
        | done ↦ set_elements ts t nested size (suc i) ms vs'
        | error e ↦ (vs, error e)
        | fault ↦ (vs, fault)
      ]

  pub set_array : Support → Str → TypeId → Bool → ℕ → Members → Msg → Value → Value × Outcome
  set_array ts key t upper size nested (array ms) (sequence vs) =
      let n = request_size upper size ms in
      elim (ts.resize (many upper size) t nested vs n) [
        | none ↦ (sequence vs, fault)
        | some vs' ↦ let (ws, out) = set_elements ts t nested n 0 ms vs' in (sequence ws, out)
      ]
  set_array ts key t upper size nested (array ms) old = (old, fault)
  set_array ts key t upper size nested m old = (old, error (no_array key))

  pub map_entries : Support → Members → Entries → Fields → Fields × Outcome
  map_entries ts members empty fs = (fs, done)
  map_entries ts members (entry key m rest) fs = elim (find_member key members) [
    | none ↦ (fs, error (no_key key))
    | some (t, shape, nested) ↦ elim (get key fs) [
      | none ↦ (fs, fault)
      | some old ↦
          let r : Value × Outcome = elim shape [
            | single ↦ set_value ts t nested m old
            | many upper size ↦ set_array ts key t upper size nested m old
          ] in
          elim r.1 [
            | done ↦ map_entries ts members rest (put key r.0 fs)
            | error e ↦ (put key r.0 fs, error e)
            | fault ↦ (put key r.0 fs, fault)
          ]
    ]
  ]

-- MapSocketMessageToRequest.
unfoldable pub map_request : Support → Members → Msg → Fields → Fields × Outcome
unfolding map_entries
map_request ts members null fs = (fs, done)
map_request ts members (object es) fs = map_entries ts members es fs
map_request ts members m fs = (fs, error not_an_object)
