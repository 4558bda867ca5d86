-- ===== src/Services/Echo.antt =====
-- A response of src/generic_services.cpp that is sent back as a request, from end to end.
use phntm_bridge.Prelude.{ℕ, ◌≡◌, refl, Bool, true, ◌&&◌, Option, none, some, Str, arith, is_some}
use phntm_bridge.Services.{
  Msg, int, double, string, boolean, array, object, end, item, Entries, empty, Primitive, bool,
  uint8, int8, float32, float64, int16, uint16, int32, uint32, int64, uint64, text, wide, TypeId,
  primitive, message, other, single, many, Members, no_more, member, Value, flag, bits, chars,
  units, struct, sequence, Fields, no_field, field, Values, nothing, element, done, Support,
}
use phntm_bridge.Services.Types.{fits_primitive, fits}
use phntm_bridge.Services.Request.{map_request}
use phntm_bridge.Services.Response.{
  narrowed, extend, Reply, reply, refused, broken, ◌>>=◌, scalar, emplace_entry, one_value,
  elements, array_value, response_fields, map_response,
}
use phntm_bridge.Services.Clean.{is_clean, is_clean_value, is_clean_array, all_clean, clean_parts}
use phntm_bridge.Services.RoundTrip.{Keeps, object_back, fields_go}

-- Every text of UTF-16 can be encoded.
unfoldable mutual
  encodes : Support → Value → Bool
  encodes ts (flag b) = true
  encodes ts (bits n) = true
  encodes ts (chars s) = true
  encodes ts (units w) = is_some (ts.to_bytes w)
  encodes ts (struct fs) = fields_encode ts fs
  encodes ts (sequence vs) = all_encode ts vs

  pub fields_encode : Support → Fields → Bool
  fields_encode ts no_field = true
  fields_encode ts (field n v fs) = encodes ts v && fields_encode ts fs

  all_encode : Support → Values → Bool
  all_encode ts nothing = true
  all_encode ts (element v vs) = encodes ts v && all_encode ts vs

abbrev Answers : {A : Type 0} → Reply A → Type 0
Answers {A} r = (a : A) × (r ≡ reply a)

bind-Answers :
    {A B : Type 0} (r : Reply A) (f : A → Reply B)
    → Answers r
    → ((a : A) → Answers (f a))
    → Answers (r >>= f)
bind-Answers (reply a) f h k = k a
bind-Answers (refused e) f (a, h) k = absurd (cc)
bind-Answers broken f (a, h) k = absurd (cc)

scalar-Answers :
    (ts : Support) (p : Primitive) (v : Value)
    → fits_primitive p v ≡ true
    → encodes ts v ≡ true
    → Answers (scalar ts p v)
unfolding scalar encodes
scalar-Answers ts bool (flag b) h k = (boolean b, refl)
scalar-Answers ts uint8 (bits n) h k = (int n, refl)
scalar-Answers ts int8 (bits n) h k = (int (extend 8 n), refl)
scalar-Answers ts float32 (bits n) h k = (double (ts.to_double n), refl)
scalar-Answers ts float64 (bits n) h k = (double n, refl)
scalar-Answers ts int16 (bits n) h k = (int (extend 16 n), refl)
scalar-Answers ts uint16 (bits n) h k = (int n, refl)
scalar-Answers ts int32 (bits n) h k = (int (extend 32 n), refl)
scalar-Answers ts uint32 (bits n) h k = (int n, refl)
scalar-Answers ts int64 (bits n) h k = (int n, refl)
scalar-Answers ts uint64 (bits n) h k = (int n, refl)
scalar-Answers ts text (chars s) h k = (string s, refl)
scalar-Answers ts wide (units w) h k = narrowed-Answers (ts.to_bytes w) k
  where
    narrowed-Answers : (o : Option Str) → is_some o ≡ true → Answers (narrowed o)
    narrowed-Answers none k = absurd (cc)
    narrowed-Answers (some s) k = (string s, refl)
scalar-Answers ts p v h k = absurd (cc)

mutual
  unfolding one_value is_clean encodes

  value-Answers :
      (ts : Support) (t : TypeId) (nested : Members) (v : Value)
      → is_clean_value t nested v ≡ true
      → encodes ts v ≡ true
      → Answers (one_value ts t nested v)
  value-Answers ts (primitive p) nested v c k = scalar-Answers ts p v c k
  value-Answers ts (other id) nested v c k = absurd (cc)
  value-Answers ts message nested (struct fs) c k =
      bind-Answers (response_fields ts nested fs empty) (λ es. reply (object es))
        (fields_answer ts nested fs empty c k) (λ es. (object es, refl))
  value-Answers ts message nested (flag b) c k = absurd (cc)
  value-Answers ts message nested (bits b) c k = absurd (cc)
  value-Answers ts message nested (chars b) c k = absurd (cc)
  value-Answers ts message nested (units b) c k = absurd (cc)
  value-Answers ts message nested (sequence b) c k = absurd (cc)

  elements_answer :
      (ts : Support) (t : TypeId) (nested : Members) (vs : Values)
      → all_clean t nested vs ≡ true
      → all_encode ts vs ≡ true
      → Answers (elements ts t nested vs)
  elements_answer ts t nested nothing c k = (end, refl)
  elements_answer ts t nested (element v vs) c k =
      bind-Answers (one_value ts t nested v)
        (λ m. elements ts t nested vs >>= λ ms. reply (item m ms))
        (value-Answers ts t nested v (ground (arith, c)) (ground (arith, k)))
        (λ m.
          bind-Answers (elements ts t nested vs) (λ ms. reply (item m ms))
            (elements_answer ts t nested vs (ground (arith, c)) (ground (arith, k)))
            (λ ms. (item m ms, refl)))

  array-Answers :
      (ts : Support) (t : TypeId) (upper : Bool) (size : ℕ) (nested : Members) (v : Value)
      → is_clean_array t upper size nested v ≡ true
      → encodes ts v ≡ true
      → Answers (array_value ts t nested v)
  array-Answers ts t upper size nested (sequence vs) c k =
      bind-Answers (elements ts t nested vs) (λ ms. reply (array ms))
        (elements_answer ts t nested vs (ground (arith, c)) k) (λ ms. (array ms, refl))
  array-Answers ts t upper size nested (flag b) c k = absurd (cc)
  array-Answers ts t upper size nested (bits b) c k = absurd (cc)
  array-Answers ts t upper size nested (chars b) c k = absurd (cc)
  array-Answers ts t upper size nested (units b) c k = absurd (cc)
  array-Answers ts t upper size nested (struct b) c k = absurd (cc)

  fields_answer :
      (ts : Support) (members : Members) (fs : Fields) (out : Entries)
      → is_clean members fs ≡ true
      → fields_encode ts fs ≡ true
      → Answers (response_fields ts members fs out)
  fields_answer ts no_more no_field out c k = (out, refl)
  fields_answer ts no_more (field n v fs) out c k = absurd (cc)
  fields_answer ts (member name t s ns rest) no_field out c k = absurd (cc)
  fields_answer ts (member name t single ns rest) (field n v fs) out c k =
      let (e, d, c', q) = clean_parts name n t single ns rest v fs c in
      bind-Answers (one_value ts t ns v)
        (λ m. response_fields ts rest fs (emplace_entry name m out))
        (value-Answers ts t ns v c' (ground (arith, k)))
        (λ m. fields_answer ts rest fs (emplace_entry name m out) q (ground (arith, k)))
  fields_answer ts (member name t (many b l) ns rest) (field n v fs) out c k =
      let (e, d, c', q) = clean_parts name n t (many b l) ns rest v fs c in
      bind-Answers (array_value ts t ns v)
        (λ m. response_fields ts rest fs (emplace_entry name m out))
        (array-Answers ts t b l ns v c' (ground (arith, k)))
        (λ m. fields_answer ts rest fs (emplace_entry name m out) q (ground (arith, k)))

-- A response of its type, without an unsupported member or an array of a fixed size, with full bounded
-- arrays, distinct names and texts that can be encoded, maps to a socket message; and that message,
-- mapped into the memory of a request of the same type, makes it the response, if the type support,
-- the casts and the codec keep what they promise.
pub map_request-map_response :
    (ts : Support) (members : Members) (fs into : Fields)
    → Keeps ts
    → is_clean members fs ≡ true
    → fields_encode ts fs ≡ true
    → fits members into ≡ true
    → (m : Msg) × (map_response ts members fs ≡ reply m)
      × (map_request ts members m into ≡ (fs, done))
unfolding map_response map_request
map_request-map_response ts members fs into k c en fit =
    let (es, p) = fields_answer ts members fs empty c en in
    let all = fields_go ts k members members fs fs empty es c ((λ j x g. g), (λ j x g. g)) tt p in
    (object es, rw p refl, object_back ts members es fs into c fit all p)
