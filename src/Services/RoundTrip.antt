-- ===== src/Services/RoundTrip.antt =====
-- The responses of src/generic_services.cpp, sent back as requests.
use phntm_bridge.Prelude.{
  ℕ, suc, ◌+◌, ◌≡◌, ◌≤◌, refl, ap, ap₂, sym, ◌∙◌, subst, Bool, true, Str, str_eq, str_eq_refl,
  arith, is_some,
}
use phntm_bridge.Services.{
  Msg, array, object, Msgs, end, item, Entries, empty, TypeId, primitive, message, other, Shape,
  single, many, Members, no_more, member, Value, flag, bits, chars, units, struct, sequence, Fields,
  no_field, field, Values, nothing, element, Outcome, done, Support, find_member, get,
}
use phntm_bridge.Services.Types.{fits, fits_array, starts, KeepsTypes}
use phntm_bridge.Services.Request.{
  dropped, set_value, set_elements, set_array, map_entries, request_size, msgs_length,
}
use phntm_bridge.Services.Response.{
  reply, emplace_entry, one_value, elements, array_value, response_fields,
}
use phntm_bridge.Services.Scalars.{KeepsScalars, convert-scalar}
use phntm_bridge.Services.Memory.{fields_ext}
use phntm_bridge.Services.Merge.{
  set_shape, starts_shape, Goes, AllGo, emplace-AllGo, get-merge, map_entries-merge, merge,
}
use phntm_bridge.Services.Clean.{
  values_length, is_mapped_size, is_clean, is_clean_value, is_clean_array, all_clean, KeepsArrays,
  clean_parts, clean_distinct, clean-fits,
}
use phntm_bridge.Services.Parts.{
  append_values, set_at-append, append_one, length-append_one, bind_reply, same_reply,
  elements_parts, elements-length, Back, set_elements-item, Within, Within-tail, fields_parts,
  fields_cover,
}

-- What the type support promises.
pub record Keeps (ts : Support) : Type 0 where
  pub types : KeepsTypes ts
  pub scalars : KeepsScalars ts
  pub arrays : KeepsArrays ts

-- An object whose entries all go, and name every member, sets the whole message.
pub object_back :
    (ts : Support) (nested : Members) (es : Entries) (fs into : Fields)
    → is_clean nested fs ≡ true
    → fits nested into ≡ true
    → AllGo ts nested fs es
    → response_fields ts nested fs empty ≡ reply es
    → map_entries ts nested es into ≡ (fs, done)
object_back ts nested es fs into c k all p =
    let fit = clean-fits nested fs c in
    let (q, merged) = map_entries-merge ts nested fs es into fit k all in
    q
    ∙ ap (λ (gs : Fields). (gs, done))
        (fields_ext nested (merge es fs into) fs (clean_distinct nested fs c) merged fit same)
  where
    same : (j : Str) → is_some (find_member j nested) ≡ true → get j (merge es fs into) ≡ get j fs
    same j g =
        get-merge ts nested fs es into j (clean-fits nested fs c) k all
        ∙ rw (fields_cover ts nested fs empty es j c p (rw g refl)) refl

-- The loop over an array whose elements come back, on memory of its length, behind the first elements.
array_step :
    (ts : Support) (k : Keeps ts) (t : TypeId) (nested : Members) (size : ℕ) (m : Msg) (rest : Msgs)
    (v w : Value) (vs ws pre : Values)
    → Back ts t nested v m
    → (set_elements ts t nested size
          (values_length (append_values pre (element v nothing)))
          rest
          (append_values (append_values pre (element v nothing)) ws)
        ≡ (append_values (append_values pre (element v nothing)) vs, done))
    → set_elements ts t nested size
        (values_length pre)
        (item m rest)
        (append_values pre (element w ws))
      ≡ (append_values pre (element v vs), done)
array_step ts k t nested size m rest v w vs ws pre b ih =
    set_elements-item ts t nested size (values_length pre) m rest (append_values pre (element w ws))
      v k.types b
    ∙ (ap (set_elements ts t nested size (suc (values_length pre)) rest) (
          k.arrays.assigned (append_values pre (element w ws)) (values_length pre) v
          ∙ set_at-append pre w v ws)
        ∙ (ap₂ (λ (i : ℕ) (us : Values). set_elements ts t nested size i rest us)
              (sym (length-append_one pre v)) (sym (append_one pre v ws))
            ∙ (ih ∙ ap (λ (us : Values). (us, done)) (append_one pre v vs))))

-- The same at the end of the array.
array_end :
    (ts : Support) (t : TypeId) (nested : Members) (size : ℕ) (pre : Values)
    → size ≤ values_length pre
    → set_elements ts t nested size (values_length pre) end (append_values pre nothing)
      ≡ (append_values pre nothing, done)
unfolding set_elements
array_end ts t nested size pre h = ground arith

-- An array into the memory of an array, if the loop over it sets the elements.
array_set :
    (ts : Support) (k : Keeps ts) (key : Str) (t : TypeId) (upper : Bool) (size : ℕ)
    (nested : Members) (ms : Msgs) (vs : Values) (old : Value)
    → fits_array t nested old ≡ true
    → is_mapped_size upper size (values_length vs) ≡ true
    → msgs_length ms ≡ values_length vs
    → ((ws : Values)
        → values_length ws ≡ values_length vs
        → set_elements ts t nested (values_length vs) 0 ms ws ≡ (vs, done))
    → set_array ts key t upper size nested (array ms) old ≡ (sequence vs, done)
unfolding set_array request_size fits
array_set ts k key t upper size nested ms vs (sequence old) f c e loop =
    let n : request_size upper size ms ≡ values_length vs = ground (arith, c, e) in
    let (ws, r, l) = k.arrays.resized upper size t nested old (values_length vs) c in
    rw n (rw r (rw n (ap (λ (q : Values × Outcome). (sequence q.0, q.1)) (loop ws l))))
array_set ts k key t upper size nested ms vs (flag b) f c e loop = cc
array_set ts k key t upper size nested ms vs (bits b) f c e loop = cc
array_set ts k key t upper size nested ms vs (chars b) f c e loop = cc
array_set ts k key t upper size nested ms vs (units b) f c e loop = cc
array_set ts k key t upper size nested ms vs (struct b) f c e loop = cc

-- An object into the memory of a message.
struct_set :
    (ts : Support) (nested : Members) (es : Entries) (fs : Fields) (old : Value)
    → starts message nested old ≡ true
    → ((into : Fields) → fits nested into ≡ true → map_entries ts nested es into ≡ (fs, done))
    → set_value ts message nested (object es) old ≡ (struct fs, done)
unfolding set_value fits
struct_set ts nested es fs (struct into) s b =
    ap (λ (q : Fields × Outcome). (struct q.0, dropped q.1)) (b into s)
struct_set ts nested es fs (flag x) s b = cc
struct_set ts nested es fs (bits x) s b = cc
struct_set ts nested es fs (chars x) s b = cc
struct_set ts nested es fs (units x) s b = cc
struct_set ts nested es fs (sequence x) s b = cc

-- The first member of a part is one of the whole.
first-Goes :
    (ts : Support) (whole rest : Members) (memory fs : Fields) (name n : Str) (t : TypeId)
    (s : Shape) (ns : Members) (v : Value) (m : Msg)
    → Within whole memory (member name t s ns rest) (field n v fs)
    → name ≡ n
    → ((old : Value) → starts_shape t s ns old ≡ true → set_shape ts name t s ns m old ≡ (v, done))
    → Goes ts whole memory name m
unfolding find_member get
first-Goes ts whole rest memory fs name n t s ns v m (f, g) e back =
    let b : str_eq n name ≡ true = rw (← e) (str_eq_refl name) in
    (t, s, ns, v, f name (t, s, ns) (rw (str_eq_refl name) refl), g name v (rw b refl), back)

mutual
  unfolding one_value set_value is_clean fits

  value_back :
      (ts : Support) (k : Keeps ts) (t : TypeId) (nested : Members) (v : Value) (m : Msg)
      → is_clean_value t nested v ≡ true
      → one_value ts t nested v ≡ reply m
      → (old : Value) → starts t nested old ≡ true
      → set_value ts t nested m old ≡ (v, done)
  value_back ts k (primitive p) nested v m c h old s = convert-scalar ts p v m k.scalars c h
  value_back ts k (other id) nested v m c h old s = cc
  value_back ts k message nested (struct fs) m c h old s =
      let (es, p, e) =
        bind_reply (response_fields ts nested fs empty) (λ (es : Entries). reply (object es)) h in
      let all = fields_go ts k nested nested fs fs empty es c ((λ j x g. g), (λ j x g. g)) tt p in
      subst (λ (x : Msg). set_value ts message nested x old ≡ (struct fs, done))
        (same_reply (object es) m e)
        (struct_set ts nested es fs old s
          (λ into fit. object_back ts nested es fs into c fit all p))
  value_back ts k message nested (flag b) m c h old s = cc
  value_back ts k message nested (bits b) m c h old s = cc
  value_back ts k message nested (chars b) m c h old s = cc
  value_back ts k message nested (units b) m c h old s = cc
  value_back ts k message nested (sequence b) m c h old s = cc

  elements_back :
      (ts : Support) (k : Keeps ts) (t : TypeId) (nested : Members) (vs : Values) (ms : Msgs)
      (pre ws : Values) (size : ℕ)
      → all_clean t nested vs ≡ true
      → elements ts t nested vs ≡ reply ms
      → values_length ws ≡ values_length vs
      → size ≤ values_length pre + values_length vs
      → set_elements ts t nested size (values_length pre) ms (append_values pre ws)
        ≡ (append_values pre vs, done)
  elements_back ts k t nested nothing ms pre nothing size c h e l =
      subst
        (λ (us : Msgs).
          set_elements ts t nested size (values_length pre) us (append_values pre nothing)
          ≡ (append_values pre nothing, done))
        (same_reply end ms h) (array_end ts t nested size pre (omega arith))
  elements_back ts k t nested nothing ms pre (element w ws) size c h e l = ground arith
  elements_back ts k t nested (element v vs) ms pre nothing size c h e l = ground arith
  elements_back ts k t nested (element v vs) ms pre (element w ws) size c h e l =
      let (m, rest, p, q, same) = elements_parts ts t nested v vs ms h in
      let pre' = append_values pre (element v nothing) in
      let fits_len = length-append_one pre v in
      subst
        (λ (us : Msgs).
          set_elements ts t nested size (values_length pre) us (append_values pre (element w ws))
          ≡ (append_values pre (element v vs), done))
        same
        (array_step ts k t nested size m rest v w vs ws pre
          (value_back ts k t nested v m (ground (arith, c)) p)
          (elements_back ts k t nested vs rest pre' ws size (ground (arith, c)) q (omega (arith, e))
            (omega (arith, l, fits_len))))

  array_back :
      (ts : Support) (k : Keeps ts) (key : Str) (t : TypeId) (upper : Bool) (size : ℕ)
      (nested : Members) (v : Value) (m : Msg)
      → is_clean_array t upper size nested v ≡ true
      → array_value ts t nested v ≡ reply m
      → (old : Value) → fits_array t nested old ≡ true
      → set_array ts key t upper size nested m old ≡ (v, done)
  array_back ts k key t upper size nested (sequence vs) m c h old s =
      let (ms, p, e) = bind_reply (elements ts t nested vs) (λ (ms : Msgs). reply (array ms)) h in
      subst (λ (x : Msg). set_array ts key t upper size nested x old ≡ (sequence vs, done))
        (same_reply (array ms) m e)
        (array_set ts k key t upper size nested ms vs old s (ground (arith, c))
          (elements-length ts t nested vs ms p)
          (λ ws l.
            elements_back ts k t nested vs ms nothing ws (values_length vs) (ground (arith, c)) p l
              (omega arith)))
  array_back ts k key t upper size nested (flag b) m c h old s = cc
  array_back ts k key t upper size nested (bits b) m c h old s = cc
  array_back ts k key t upper size nested (chars b) m c h old s = cc
  array_back ts k key t upper size nested (units b) m c h old s = cc
  array_back ts k key t upper size nested (struct b) m c h old s = cc

  pub fields_go :
      (ts : Support) (k : Keeps ts) (whole members : Members) (memory fs : Fields)
      (out es : Entries)
      → is_clean members fs ≡ true
      → Within whole memory members fs
      → AllGo ts whole memory out
      → response_fields ts members fs out ≡ reply es
      → AllGo ts whole memory es
  fields_go ts k whole no_more memory no_field out es c w all h =
      subst (AllGo ts whole memory) (same_reply out es h) all
  fields_go ts k whole no_more memory (field n v fs) out es c w all h = absurd (ground (arith, c))
  fields_go ts k whole (member name t s ns rest) memory no_field out es c w all h =
      absurd (ground (arith, c))
  fields_go ts k whole (member name t single ns rest) memory (field n v fs) out es c w all h =
      let (e, d, c', q) = clean_parts name n t single ns rest v fs c in
      let (m, p, tail) = fields_parts ts name n t single ns rest v fs out es h in
      fields_go ts k whole rest memory fs (emplace_entry name m out) es q
        (Within-tail whole (member name t single ns rest) rest memory fs name n t single ns v w e d
          (clean-fits rest fs q))
        (emplace-AllGo ts whole memory name m out
          (first-Goes ts whole rest memory fs name n t single ns v m w e
            (λ old s. value_back ts k t ns v m c' p old s))
          all)
        tail
  fields_go ts k whole (member name t (many upper size) ns rest) memory (field n v fs) out es c w
        all h =
      let (e, d, c', q) = clean_parts name n t (many upper size) ns rest v fs c in
      let (m, p, tail) = fields_parts ts name n t (many upper size) ns rest v fs out es h in
      fields_go ts k whole rest memory fs (emplace_entry name m out) es q
        (Within-tail whole (member name t (many upper size) ns rest) rest memory fs name n t
          (many upper size) ns v w e d (clean-fits rest fs q))
        (emplace-AllGo ts whole memory name m out
          (first-Goes ts whole rest memory fs name n t (many upper size) ns v m w e
            (λ old s. array_back ts k name t upper size ns v m c' p old s))
          all)
        tail
