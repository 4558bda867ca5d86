-- ===== src/Services.antt =====
-- src/generic_services.cpp: calls of any ROS service with the messages of the socket. A socket message
-- is mapped into the memory of a request by the type support of the service, and the memory of the
-- response back into a socket message.
--
-- Integers are bit patterns, also the int64_t of a socket message; a `double` and a `float` are
-- patterns too. What the generated type support, libc and the codec of UTF-16 do is a `Support`.
pub mod Request
pub mod Types
pub mod Calls
pub mod Protocol
pub mod Sent
pub mod CacheLaws
pub mod Memory
pub mod Typed
pub mod Merge
pub mod Clean
pub mod Parts
pub mod RoundTrip
pub mod Echo
pub mod Faults
pub mod Plain
pub mod Examples
pub mod Scalars
pub mod Response
use phntm_bridge.Prelude.{ℕ, Bool, Option, none, some, List, [], ◌∷◌, Str, str_eq, if◌then◌else◌}

-- sio::message, with its flags. The fields of an object are in the order of a std::map.
mutual
  pub data Msg : Type 0 where
    null : Msg
    int : ℕ → Msg
    double : ℕ → Msg
    string : Str → Msg
    binary : Str → Msg
    boolean : Bool → Msg
    array : Msgs → Msg
    object : Entries → Msg

  pub data Msgs : Type 0 where
    end : Msgs
    item : Msg → Msgs → Msgs

  pub data Entries : Type 0 where
    empty : Entries
    entry : Str → Msg → Entries → Entries

-- The type ids that the code names for scalars; BYTE and UINT8, and CHAR and INT8, share a case.
pub data Primitive : Type 0 where
  bool uint8 int8 float32 float64 int16 uint16 int32 uint32 int64 uint64 text wide : Primitive

pub data TypeId : Type 0 where
  primitive : Primitive → TypeId
  message : TypeId
  other : ℕ → TypeId

-- is_array_, and for an array is_upper_bound_ and array_size_.
pub data Shape : Type 0 where
  single : Shape
  many : Bool → ℕ → Shape

-- MessageMembers: each member with its name, its type, its shape and its nested members.
pub data Members : Type 0 where
  no_more : Members
  member : Str → TypeId → Shape → Members → Members → Members

-- The memory of a message: a field for each member. `offset_` is the name here.
mutual
  pub data Value : Type 0 where
    flag : Bool → Value
    bits : ℕ → Value
    chars : Str → Value
    units : List ℕ → Value
    struct : Fields → Value
    sequence : Values → Value

  pub data Fields : Type 0 where
    no_field : Fields
    field : Str → Value → Fields → Fields

  pub data Values : Type 0 where
    nothing : Values
    element : Value → Values → Values

-- The texts of errors: an input that is no object, a key that is no member, a value for an array that
-- is none, a value for a nested message that is no object, a type id with no case.
pub data Error : Type 0 where
  not_an_object : Error
  no_key : Str → Error
  no_array : Str → Error
  not_nested : Error
  unsupported : ℕ → Error

-- What a function that maps returns: the empty text, or an error. A fault is a read behind the end of
-- an array, or a function of the type support that is not there or that throws.
pub data Outcome : Type 0 where
  done : Outcome
  error : Error → Outcome
  fault : Outcome

-- init_function for a message; resize_function, which may not be there or throw; assign_function;
-- the casts between double and float; converter.from_bytes and to_bytes, which may throw.
pub record Support : Type 0 where
  pub init : Members → Fields
  pub resize : Shape → TypeId → Members → Values → ℕ → Option Values
  pub assign : Values → ℕ → Value → Values
  pub to_float : ℕ → ℕ
  pub to_double : ℕ → ℕ
  pub from_bytes : Str → Option (List ℕ)
  pub to_bytes : List ℕ → Option Str

-- The loop over members_ for a name.
unfoldable pub find_member : Str → Members → Option (TypeId × Shape × Members)
find_member key no_more = none
find_member key (member name t shape nested rest) =
    if str_eq name key then some (t, shape, nested) else find_member key rest

-- The field at an offset.
unfoldable pub get : Str → Fields → Option Value
get key no_field = none
get key (field name v rest) = if str_eq name key then some v else get key rest

unfoldable pub put : Str → Value → Fields → Fields
put key v no_field = no_field
put key v (field name w rest) =
    if str_eq name key then field name v rest else field name w (put key v rest)
