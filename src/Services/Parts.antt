-- ===== src/Services/Parts.antt =====
-- The parts of a response of src/generic_services.cpp, and the loop over an array of a request.
use phntm_bridge.Prelude.{
  ℕ, suc, ◌≡◌, refl, ap, sym, ◌∙◌, subst, true, false, ◌||◌, some, Str, str_eq, str_eq_iff, arith,
  Bool-cases, inl, inr, is_some,
}
use phntm_bridge.Services.{
  Msg, Msgs, end, item, Entries, TypeId, Shape, single, many, Members, no_more, member, Value,
  struct, Fields, no_field, field, Values, nothing, element, done, Support, find_member, get,
}
use phntm_bridge.Services.Types.{fits, starts, KeepsTypes, init_starts}
use phntm_bridge.Services.Request.{set_value, set_elements, msgs_length}
use phntm_bridge.Services.Response.{
  Reply, reply, refused, broken, ◌>>=◌, find_entry, emplace_entry, one_value, elements, array_value,
  response_fields,
}
use phntm_bridge.Services.Memory.{find_member-get}
use phntm_bridge.Services.Merge.{find-emplace_entry}
use phntm_bridge.Services.Clean.{values_length, set_at, clean_parts, is_clean}

abbrev pub append_values : Values → Values → Values
append_values nothing ws = ws
append_values (element v vs) ws = element v (append_values vs ws)

pub set_at-append :
    (pre : Values) (w v : Value) (ws : Values)
    → set_at (append_values pre (element w ws)) (values_length pre) v
      ≡ append_values pre (element v ws)
set_at-append nothing w v ws = refl
set_at-append (element u pre) w v ws = ap (element u) (set_at-append pre w v ws)

pub append_one :
    (pre : Values) (v : Value) (ws : Values)
    → append_values (append_values pre (element v nothing)) ws ≡ append_values pre (element v ws)
append_one nothing v ws = refl
append_one (element u pre) v ws = ap (element u) (append_one pre v ws)

pub length-append_one :
    (pre : Values) (v : Value)
    → values_length (append_values pre (element v nothing)) ≡ suc (values_length pre)
length-append_one nothing v = refl
length-append_one (element u pre) v = ap (λ (n : ℕ). suc n) (length-append_one pre v)

pub bind_reply :
    {A B : Type 0} (r : Reply A) (f : A → Reply B) {b : B}
    → (r >>= f) ≡ reply b
    → (a : A) × (r ≡ reply a) × (f a ≡ reply b)
bind_reply (reply a) f h = (a, refl, h)
bind_reply (refused e) f h = cc
bind_reply broken f h = cc

abbrev reply_or : {A : Type 0} → A → Reply A → A
reply_or d (reply a) = a
reply_or d (refused e) = d
reply_or d broken = d

pub same_reply : {A : Type 0} (a b : A) → reply a ≡ reply b → a ≡ b
same_reply a b h = ap (reply_or a) h

-- The elements that follow and the message of the first.
pub elements_parts :
    (ts : Support) (t : TypeId) (nested : Members) (v : Value) (vs : Values) (ms : Msgs)
    → elements ts t nested (element v vs) ≡ reply ms
    → (m : Msg) × (rest : Msgs) × (one_value ts t nested v ≡ reply m)
      × (elements ts t nested vs ≡ reply rest)
      × (item m rest ≡ ms)
unfolding elements
elements_parts ts t nested v vs ms h =
    let (m, p, h') =
      bind_reply (one_value ts t nested v)
        (λ (m : Msg). elements ts t nested vs >>= λ (ms : Msgs). reply (item m ms)) h in
    let (rest, q, e) = bind_reply (elements ts t nested vs) (λ (ms : Msgs). reply (item m ms)) h' in
    (m, rest, p, q, same_reply (item m rest) ms e)

pub elements-length :
    (ts : Support) (t : TypeId) (nested : Members) (vs : Values) (ms : Msgs)
    → elements ts t nested vs ≡ reply ms
    → msgs_length ms ≡ values_length vs
unfolding elements
elements-length ts t nested nothing ms h = ap msgs_length (sym (same_reply end ms h))
elements-length ts t nested (element v vs) ms h =
    let (m, rest, p, q, e) = elements_parts ts t nested v vs ms h in
    ap msgs_length (sym e) ∙ ap (λ (n : ℕ). suc n) (elements-length ts t nested vs rest q)

-- What a message that a value became does to a field.
abbrev pub Back : Support → TypeId → Members → Value → Msg → Type 0
Back ts t nested v m =
    (old : Value) → starts t nested old ≡ true → set_value ts t nested m old ≡ (v, done)

-- The loop over an array at an element that comes back.
pub set_elements-item :
    (ts : Support) (t : TypeId) (nested : Members) (size i : ℕ) (m : Msg) (rest : Msgs)
    (vs : Values) (v : Value)
    → KeepsTypes ts
    → Back ts t nested v m
    → set_elements ts t nested size i (item m rest) vs
      ≡ set_elements ts t nested size (suc i) rest (ts.assign vs i v)
unfolding set_elements
set_elements-item ts t nested size i m rest vs v k b =
    let e : set_value ts t nested m (struct (ts.init nested)) ≡ (v, done) =
      b (struct (ts.init nested)) (init_starts ts k t nested) in
    ground (arith, e)

-- The members and fields of a part of a message are those of the whole.
abbrev pub Within : Members → Fields → Members → Fields → Type 0
Within whole memory members fs =
    ((j : Str) (x : TypeId × Shape × Members)
      → find_member j members ≡ some x
      → find_member j whole ≡ some x)
    × ((j : Str) (v : Value) → get j fs ≡ some v → get j memory ≡ some v)

pub Within-tail :
    (whole members rest : Members) (memory fs : Fields) (name n : Str) (t : TypeId) (s : Shape)
    (ns : Members) (w : Value)
    → Within whole memory (member name t s ns rest) (field n w fs)
    → name ≡ n
    → is_some (find_member name rest) ≡ false
    → fits rest fs ≡ true
    → Within whole memory rest fs
unfolding find_member get
Within-tail whole members rest memory fs name n t s ns w (f, g) e d fit = (
  λ j x h. elim (Bool-cases (str_eq name j)) [
    | inl b ↦
        let same : is_some (find_member j rest) ≡ false =
          subst (λ (k : Str). is_some (find_member k rest) ≡ false) ((str_eq_iff name j).0 b) d in
        let there : is_some (find_member j rest) ≡ true = ap is_some h in
        absurd (ground (arith, same, there))
    | inr b ↦ f j x (rw b h)
  ],
  λ j v h. elim (Bool-cases (str_eq name j)) [
    | inl b ↦
        let same : is_some (find_member j rest) ≡ false =
          subst (λ (k : Str). is_some (find_member k rest) ≡ false) ((str_eq_iff name j).0 b) d in
        let there : is_some (find_member j rest) ≡ true =
          find_member-get j rest fs fit ∙ ap is_some h in
        absurd (ground (arith, same, there))
    | inr b ↦ let b' : str_eq n j ≡ false = rw (← e) b in g j v (rw b' h)
  ],
)

abbrev response_shape : Support → TypeId → Shape → Members → Value → Reply Msg
response_shape ts t single nested v = one_value ts t nested v
response_shape ts t (many upper size) nested v = array_value ts t nested v

-- The message of the first field, and the fields that follow.
pub fields_parts :
    (ts : Support) (name n : Str) (t : TypeId) (s : Shape) (ns rest : Members) (v : Value)
    (fs : Fields) (out es : Entries)
    → response_fields ts (member name t s ns rest) (field n v fs) out ≡ reply es
    → (m : Msg) × (response_shape ts t s ns v ≡ reply m)
      × (response_fields ts rest fs (emplace_entry name m out) ≡ reply es)
unfolding response_fields
fields_parts ts name n t single ns rest v fs out es h =
    bind_reply (one_value ts t ns v)
      (λ (m : Msg). response_fields ts rest fs (emplace_entry name m out)) h
fields_parts ts name n t (many b k) ns rest v fs out es h =
    bind_reply (array_value ts t ns v)
      (λ (m : Msg). response_fields ts rest fs (emplace_entry name m out)) h

-- Every member has an entry in the object.
pub fields_cover :
    (ts : Support) (members : Members) (fs : Fields) (out es : Entries) (j : Str)
    → is_clean members fs ≡ true
    → response_fields ts members fs out ≡ reply es
    → is_some (find_member j members) || is_some (find_entry j out) ≡ true
    → is_some (find_entry j es) ≡ true
unfolding response_fields find_member
fields_cover ts no_more no_field out es j c h k =
    ap (λ (x : Entries). is_some (find_entry j x)) (sym (same_reply out es h)) ∙ k
fields_cover ts no_more (field n v fs) out es j c h k = cc
fields_cover ts (member name t s ns rest) no_field out es j c h k = cc
fields_cover ts (member name t s ns rest) (field n v fs) out es j c h k =
    let (e, d, c', q) = clean_parts name n t s ns rest v fs c in
    let (m, p, tail) = fields_parts ts name n t s ns rest v fs out es h in
    fields_cover ts rest fs (emplace_entry name m out) es j q tail
      (ground (arith, k, find-emplace_entry name j m out))
