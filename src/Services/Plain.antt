-- ===== src/Services/Plain.antt =====
-- A type support for src/generic_services.cpp that keeps what its functions promise.
use phntm_bridge.Prelude.{
  ℕ, zero, suc, ◌≡◌, refl, ap, sym, subst, true, false, some, [], Str, str_key, str_eq_refl, arith,
}
use phntm_bridge.Services.{
  Primitive, bool, uint8, int8, float32, float64, int16, uint16, int32, uint32, int64, uint64, text,
  wide, TypeId, primitive, message, other, Shape, single, many, Members, no_more, member, Value,
  flag, bits, chars, units, struct, sequence, Fields, no_field, field, Values, nothing, element,
  Support,
}
use phntm_bridge.Services.Types.{fits, fits_value, all_fit, KeepsTypes}
use phntm_bridge.Services.Clean.{values_length, set_at}
use phntm_bridge.Services.RoundTrip.{Keeps}

-- Type support with memory of zeros, arrays of any size and texts that need no codec.
abbrev zero_of : Primitive → Value
zero_of bool = flag false
zero_of uint8 = bits 0
zero_of int8 = bits 0
zero_of float32 = bits 0
zero_of float64 = bits 0
zero_of int16 = bits 0
zero_of uint16 = bits 0
zero_of int32 = bits 0
zero_of uint32 = bits 0
zero_of int64 = bits 0
zero_of uint64 = bits 0
zero_of text = chars []
zero_of wide = units []

abbrev fresh_value : TypeId → Fields → Value
fresh_value (primitive p) fs = zero_of p
fresh_value (other id) fs = flag false
fresh_value message fs = struct fs

abbrev pub fresh : Members → Fields
fresh no_more = no_field
fresh (member name t single nested rest) = field name (fresh_value t (fresh nested)) (fresh rest)
fresh (member name t (many upper size) nested rest) = field name (sequence nothing) (fresh rest)

abbrev resize_to : Value → Values → ℕ → Values
resize_to d vs zero = nothing
resize_to d nothing (suc n) = element d (resize_to d nothing n)
resize_to d (element v vs) (suc n) = element v (resize_to d vs n)

abbrev pub plain : Support
plain = record {
  init = fresh;
  resize = λ shape t nested vs n. some (resize_to (fresh_value t (fresh nested)) vs n);
  assign = set_at;
  to_float = λ n. n;
  to_double = λ n. n;
  from_bytes = λ s. some s;
  to_bytes = λ w. some w;
}

fresh_value-fits :
    (t : TypeId) (nested : Members) (fs : Fields)
    → fits nested fs ≡ true
    → fits_value t nested (fresh_value t fs) ≡ true
unfolding fits
fresh_value-fits (primitive bool) nested fs h = refl
fresh_value-fits (primitive uint8) nested fs h = refl
fresh_value-fits (primitive int8) nested fs h = refl
fresh_value-fits (primitive float32) nested fs h = refl
fresh_value-fits (primitive float64) nested fs h = refl
fresh_value-fits (primitive int16) nested fs h = refl
fresh_value-fits (primitive uint16) nested fs h = refl
fresh_value-fits (primitive int32) nested fs h = refl
fresh_value-fits (primitive uint32) nested fs h = refl
fresh_value-fits (primitive int64) nested fs h = refl
fresh_value-fits (primitive uint64) nested fs h = refl
fresh_value-fits (primitive text) nested fs h = refl
fresh_value-fits (primitive wide) nested fs h = refl
fresh_value-fits (other id) nested fs h = refl
fresh_value-fits message nested fs h = h

pub fresh-fits : (ms : Members) → fits ms (fresh ms) ≡ true
unfolding fits
fresh-fits no_more = refl
fresh-fits (member name t single nested rest) = ground (
  arith,
  str_eq_refl name,
  fresh_value-fits t nested (fresh nested) (fresh-fits nested),
  fresh-fits rest,
)
fresh-fits (member name t (many upper size) nested rest) =
    ground (arith, str_eq_refl name, fresh-fits rest)

resize_to-fit :
    (t : TypeId) (nested : Members) (d : Value) (vs : Values) (n : ℕ)
    → fits_value t nested d ≡ true
    → all_fit t nested vs ≡ true
    → all_fit t nested (resize_to d vs n) ≡ true
unfolding fits
resize_to-fit t nested d vs zero h k = refl
resize_to-fit t nested d nothing (suc n) h k =
    ground (arith, resize_to-fit t nested d nothing n h k)
resize_to-fit t nested d (element v vs) (suc n) h k =
    ground (arith, resize_to-fit t nested d vs n h (ground (arith, k)))

set_at-fit :
    (t : TypeId) (nested : Members) (vs : Values) (i : ℕ) (v : Value)
    → all_fit t nested vs ≡ true
    → fits_value t nested v ≡ true
    → all_fit t nested (set_at vs i v) ≡ true
unfolding fits
set_at-fit t nested nothing i v h k = refl
set_at-fit t nested (element w ws) zero v h k = ground (arith, h, k)
set_at-fit t nested (element w ws) (suc i) v h k =
    ground (arith, h, set_at-fit t nested ws i v (ground (arith, h)) k)

resize_to-length : (d : Value) (vs : Values) (n : ℕ) → values_length (resize_to d vs n) ≡ n
resize_to-length d vs zero = refl
resize_to-length d nothing (suc n) = ap (λ (k : ℕ). suc k) (resize_to-length d nothing n)
resize_to-length d (element v vs) (suc n) = ap (λ (k : ℕ). suc k) (resize_to-length d vs n)

some_inj : (a b : Values) → some a ≡ some b → a ≡ b
some_inj a b h = cc

pub plain_types : KeepsTypes plain
plain_types = record {
  init_fits = fresh-fits;
  resize_fits = resize_fits';
  assign_fits = set_at-fit;
}
  where
    resize_fits' :
        (shape : Shape) (t : TypeId) (nested : Members) (vs ws : Values) (n : ℕ)
        → all_fit t nested vs ≡ true
        → some (resize_to (fresh_value t (fresh nested)) vs n) ≡ some ws
        → all_fit t nested ws ≡ true
    resize_fits' shape t nested vs ws n h e =
        subst (λ (us : Values). all_fit t nested us ≡ true)
          (some_inj (resize_to (fresh_value t (fresh nested)) vs n) ws e)
          (resize_to-fit t nested (fresh_value t (fresh nested)) vs n
            (fresh_value-fits t nested (fresh nested) (fresh-fits nested)) h)

pub plain-Keeps : Keeps plain
plain-Keeps = record {
  types = plain_types;
  scalars = record { float_back = λ n. refl; text_back = λ w s h. ap some (sym (str_inj w s h)) };
  arrays = record {
    resized = λ upper size t nested vs n h. (
      resize_to (fresh_value t (fresh nested)) vs n,
      refl,
      resize_to-length (fresh_value t (fresh nested)) vs n,
    );
    assigned = λ vs i v. refl;
  };
}
  where
    str_inj : (a b : Str) → some a ≡ some b → a ≡ b
    str_inj a b h = cc
