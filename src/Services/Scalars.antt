-- ===== src/Services/Scalars.antt =====
-- The scalars of src/generic_services.cpp on their way out in a response and back in a request.
use phntm_bridge.Prelude.{ℕ, ◌≡◌, refl, ap, sym, ◌∙◌, true, Option, none, some, List, Str, arith}
use phntm_bridge.Services.{
  Msg, null, int, double, string, binary, boolean, array, object, Primitive, bool, uint8, int8,
  float32, float64, int16, uint16, int32, uint32, int64, uint64, text, wide, Value, flag, bits,
  chars, units, done, Support,
}
use phntm_bridge.Services.Request.{convert, widened}
use phntm_bridge.Services.Response.{reply, extend, narrowed, scalar}
use phntm_bridge.Services.Types.{fits_primitive}

-- What a cast and the codec keep: a float as a double, and a text of UTF-16 that could be encoded.
pub record KeepsScalars (ts : Support) : Type 0 where
  pub float_back : (n : ℕ) → ts.to_float (ts.to_double n) ≡ n
  pub text_back : (w : List ℕ) (s : Str) → ts.to_bytes w ≡ some s → ts.from_bytes s ≡ some w

wide_back :
    (ts : Support) (w : List ℕ) (o : Option Str) (m : Msg)
    → KeepsScalars ts
    → ts.to_bytes w ≡ o
    → narrowed o ≡ reply m
    → convert ts wide m ≡ (units w, done)
unfolding convert
wide_back ts w none m k e h = cc
wide_back ts w (some s) null k e h = cc
wide_back ts w (some s) (int n) k e h = cc
wide_back ts w (some s) (double n) k e h = cc
wide_back ts w (some s) (binary n) k e h = cc
wide_back ts w (some s) (boolean n) k e h = cc
wide_back ts w (some s) (array n) k e h = cc
wide_back ts w (some s) (object n) k e h = cc
wide_back ts w (some s) (string t) k e h =
    let same : s ≡ t = ground arith in ap widened (k.text_back w t (e ∙ ap some same))

reply_inj : (a b : Msg) → reply a ≡ reply b → a ≡ b
reply_inj a b h = ground arith

-- The message that a value becomes, and what the request makes of it.
back :
    (ts : Support) (p : Primitive) (m m' : Msg) (v : Value)
    → reply m ≡ reply m'
    → convert ts p m ≡ (v, done)
    → convert ts p m' ≡ (v, done)
back ts p m m' v e h = ap (convert ts p) (sym (reply_inj m m' e)) ∙ h

-- A value that fits its type and goes out in a response comes back as the same value when the
-- message is sent in a request, if a float survives as a double and a text of UTF-16 its encoding.
pub convert-scalar :
    (ts : Support) (p : Primitive) (v : Value) (m : Msg)
    → KeepsScalars ts
    → fits_primitive p v ≡ true
    → scalar ts p v ≡ reply m
    → convert ts p m ≡ (v, done)
unfolding scalar convert
convert-scalar ts bool (flag b) m k f h = back ts bool (boolean b) m (flag b) h refl
convert-scalar ts uint8 (bits n) m k f h = back ts uint8 (int n) m (bits n) h (ground arith)
convert-scalar ts int8 (bits n) m k f h =
    back ts int8 (int (extend 8 n)) m (bits n) h (ground arith)
convert-scalar ts float32 (bits n) m k f h =
    back ts float32 (double (ts.to_double n)) m (bits n) h (ground (arith, k.float_back n))
convert-scalar ts float64 (bits n) m k f h = back ts float64 (double n) m (bits n) h refl
convert-scalar ts int16 (bits n) m k f h =
    back ts int16 (int (extend 16 n)) m (bits n) h (ground arith)
convert-scalar ts uint16 (bits n) m k f h = back ts uint16 (int n) m (bits n) h (ground arith)
convert-scalar ts int32 (bits n) m k f h =
    back ts int32 (int (extend 32 n)) m (bits n) h (ground arith)
convert-scalar ts uint32 (bits n) m k f h = back ts uint32 (int n) m (bits n) h (ground arith)
convert-scalar ts int64 (bits n) m k f h = back ts int64 (int n) m (bits n) h (ground arith)
convert-scalar ts uint64 (bits n) m k f h = back ts uint64 (int n) m (bits n) h (ground arith)
convert-scalar ts text (chars s) m k f h = back ts text (string s) m (chars s) h refl
convert-scalar ts wide (units w) m k f h = wide_back ts w (ts.to_bytes w) m k refl h
convert-scalar ts p v m k f h = cc
