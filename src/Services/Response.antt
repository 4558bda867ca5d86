-- ===== src/Services/Response.antt =====
-- SetOneResponseValue, SetResponseFieldValue and MapResponseToSocketMessage of
-- src/generic_services.cpp. What an error leaves in the socket message is not read by anyone, so an
-- error stands here for the whole result.
use phntm_bridge.Prelude.{
  ℕ, ◌+◌, ◌-◌, ◌^◌, Option, none, some, Str, ltb, str_eq, str_lt, if◌then◌else◌,
}
use phntm_bridge.Services.{
  Msg, int, double, string, boolean, array, object, Msgs, end, item, Entries, empty, entry,
  Primitive, bool, uint8, int8, float32, float64, int16, uint16, int32, uint32, int64, uint64, text,
  wide, TypeId, primitive, message, other, single, many, Members, no_more, member, Value, flag,
  bits, chars, units, struct, sequence, Fields, no_field, field, Values, nothing, element, Error,
  unsupported, Support,
}

-- `broken`: memory that is not of its type, or a text that the codec refuses by an exception.
pub data Reply (A : Type 0) : Type 0 where
  reply : A → Reply A
  refused : Error → Reply A
  broken : Reply A

infixl 5 ◌>>=◌
abbrev pub ◌>>=◌ : {A B : Type 0} → Reply A → (A → Reply B) → Reply B
reply a >>= f = f a
refused e >>= f = refused e
broken >>= f = broken

-- A signed integer of so many bits as an int64_t.
abbrev pub extend : ℕ → ℕ → ℕ
extend w n = if ltb n (2 ^ (w - 1)) then n else n + (2 ^ 64 - 2 ^ w)

abbrev pub narrowed : Option Str → Reply Msg
narrowed none = broken
narrowed (some s) = reply (string s)

-- The scalar cases of SetOneResponseValue.
unfoldable pub scalar : Support → Primitive → Value → Reply Msg
scalar ts bool (flag b) = reply (boolean b)
scalar ts uint8 (bits n) = reply (int n)
scalar ts int8 (bits n) = reply (int (extend 8 n))
scalar ts float32 (bits n) = reply (double (ts.to_double n))
scalar ts float64 (bits n) = reply (double n)
scalar ts int16 (bits n) = reply (int (extend 16 n))
scalar ts uint16 (bits n) = reply (int n)
scalar ts int32 (bits n) = reply (int (extend 32 n))
scalar ts uint32 (bits n) = reply (int n)
scalar ts int64 (bits n) = reply (int n)
scalar ts uint64 (bits n) = reply (int n)
scalar ts text (chars s) = reply (string s)
scalar ts wide (units w) = narrowed (ts.to_bytes w)
scalar ts p v = broken

unfoldable pub find_entry : Str → Entries → Option Msg
find_entry key empty = none
find_entry key (entry k m rest) = if str_eq k key then some m else find_entry key rest

unfoldable pub insert_entry : Str → Msg → Entries → Entries
insert_entry key m empty = entry key m empty
insert_entry key m (entry k n rest) =
    if str_lt key k then entry key m (entry k n rest) else entry k n (insert_entry key m rest)

-- get_map().emplace, which keeps an entry that is there.
unfoldable pub emplace_entry : Str → Msg → Entries → Entries
unfolding find_entry insert_entry
emplace_entry key m es = elim (find_entry key es) [ some n ↦ es | none ↦ insert_entry key m es ]

-- One value of a member; the elements of an array; and the members of a message, whose fields stand
-- in their order, into the fields of a socket message.
unfoldable mutual
  unfolding scalar emplace_entry

  pub one_value : Support → TypeId → Members → Value → Reply Msg
  one_value ts (primitive p) nested v = scalar ts p v
  one_value ts (other id) nested v = refused (unsupported id)
  one_value ts message nested (struct fs) = do
    es ← response_fields ts nested fs empty
    reply (object es)
  one_value ts message nested v = broken

  pub elements : Support → TypeId → Members → Values → Reply Msgs
  elements ts t nested nothing = reply end
  elements ts t nested (element v vs) = do
    m ← one_value ts t nested v
    ms ← elements ts t nested vs
    reply (item m ms)

  pub array_value : Support → TypeId → Members → Value → Reply Msg
  array_value ts t nested (sequence vs) = do ms ← elements ts t nested vs; reply (array ms)
  array_value ts t nested v = broken

  pub response_fields : Support → Members → Fields → Entries → Reply Entries
  response_fields ts no_more no_field out = reply out
  response_fields ts (member name t shape nested rest) (field n v fs) out =
      let r : Reply Msg = elim shape [
        | single ↦ one_value ts t nested v
        | many upper size ↦ array_value ts t nested v
      ] in
      r >>= λ m. response_fields ts rest fs (emplace_entry name m out)
  response_fields ts members fs out = broken

-- MapResponseToSocketMessage into an empty object.
unfoldable pub map_response : Support → Members → Fields → Reply Msg
unfolding response_fields
map_response ts members fs = do es ← response_fields ts members fs empty; reply (object es)
