-- ===== src/Services/Faults.antt =====
-- Requests that SetRequestFieldValue and MapSocketMessageToRequest of src/generic_services.cpp do not
-- map as they mean to.
use phntm_bridge.Prelude.{ℕ, suc, ◌+◌, ◌≡◌, ◌≢◌, ◌<◌, refl, true, Option, none, some, Str, arith}
use phntm_bridge.Services.{
  array, object, Msgs, end, item, Entries, TypeId, message, many, Members, Value, flag, bits, chars,
  units, struct, sequence, Fields, Values, Error, Outcome, done, error, fault, Support,
}
use phntm_bridge.Services.Request.{
  set_value, set_elements, set_array, map_request, request_size, msgs_length,
}

-- The loop over an array never gets to the end of a size that is above the number of elements.
set_elements_short :
    (ts : Support) (t : TypeId) (nested : Members) (size i : ℕ) (ms : Msgs) (vs : Values)
    → i + msgs_length ms < size
    → (set_elements ts t nested size i ms vs).1 ≢ done
unfolding set_elements
set_elements_short ts t nested size i end vs h = ground arith
set_elements_short ts t nested size i (item m ms) vs h =
    let r = set_value ts t nested m (struct (ts.init nested)) in
    step r.1 (set_elements ts t nested size (suc i) ms (ts.assign vs i r.0))
      (set_elements_short ts t nested size (suc i) ms (ts.assign vs i r.0) (omega arith))
  where
    step :
        (out : Outcome) (q : Values × Outcome)
        → q.1 ≢ done
        → (let p : Values × Outcome = elim out [
          | done ↦ q
          | error e ↦ (vs, error e)
          | fault ↦ (vs, fault)
        ] in
            p).1
          ≢ done
    step done q h = h
    step (error e) q h = λ k. cc
    step fault q h = λ k. cc

-- An array with fewer elements than the bound of its member is never mapped: the loop runs up to the
-- bound, and the read behind the last element is a fault, if no element is an error before.
set_array_short :
    (ts : Support) (key : Str) (t : TypeId) (size : ℕ) (nested : Members) (ms : Msgs) (old : Value)
    → msgs_length ms < size
    → (set_array ts key t true size nested (array ms) old).1 ≢ done
unfolding set_array request_size
set_array_short ts key t size nested ms (sequence vs) h =
    let n : request_size true size ms ≡ size = ground arith in
    resized (ts.resize (many true size) t nested vs (request_size true size ms)) n
  where
    resized :
        (o : Option Values)
        → request_size true size ms ≡ size
        → (let q : Value × Outcome = elim o [
          | none ↦ (sequence vs, fault)
          | some ws ↦
              let r = set_elements ts t nested (request_size true size ms) 0 ms ws in
              (sequence r.0, r.1)
        ] in
            q).1
          ≢ done
    resized none n = λ k. cc
    resized (some ws) n =
        set_elements_short ts t nested (request_size true size ms) 0 ms ws (rw n (omega (arith, h)))
set_array_short ts key t size nested ms (flag b) h = λ k. cc
set_array_short ts key t size nested ms (bits b) h = λ k. cc
set_array_short ts key t size nested ms (chars b) h = λ k. cc
set_array_short ts key t size nested ms (units b) h = λ k. cc
set_array_short ts key t size nested ms (struct b) h = λ k. cc

-- A nested object is never an error, whatever its keys and values are, although the same object is one
-- as a whole request.
set_value_silent :
    (ts : Support) (nested : Members) (es : Entries) (fs : Fields) (e : Error)
    → (map_request ts nested (object es) fs).1 ≡ error e
    → (set_value ts message nested (object es) (struct fs)).1 ≡ done
unfolding set_value map_request
set_value_silent ts nested es fs e h = rw h refl
