-- ===== src/Services/Sent.antt =====
-- The requests that callGenericService of src/generic_services.cpp sends.
use phntm_bridge.Prelude.{
  ℕ, ◌≡◌, refl, Bool, true, false, ◌&&◌, Option, none, some, List, [], ◌∷◌, Str, find, find-emplace,
  str_key, str_eq_iff, arith,
}
use phntm_bridge.Text.{split}
use phntm_bridge.Services.{Msg, null, Members, Fields, Support}
use phntm_bridge.Services.Request.{map_request}
use phntm_bridge.Services.Types.{KeepsTypes, fits}
use phntm_bridge.Services.Typed.{map_request-fits}
use phntm_bridge.Services.Calls.{
  Ros, ServiceError, Action, sends, acks_error, acks, crashes, Caches, Loaded, loaded, failed,
  load_library, load_client, load_types, answer, exchange, perform, call_in, call_generic_service,
}

-- The requests among the actions are messages of the type that is given; without one, there are none.
abbrev pub sent_fit : Option (Members × Members) → List Action → Bool
sent_fit types [] = true
sent_fit none (sends client fs ∷ l) = false
sent_fit (some ms) (sends client fs ∷ l) = fits ms.0 fs && sent_fit (some ms) l
sent_fit types (acks_error e ∷ l) = sent_fit types l
sent_fit types (acks m ∷ l) = sent_fit types l
sent_fit types (crashes ∷ l) = sent_fit types l

answer-fits :
    (ts : Support) (types : Option (Members × Members)) (response : Members) (fs : Fields)
    → sent_fit types (answer ts response fs) ≡ true
unfolding answer
answer-fits ts none response fs = ground arith
answer-fits ts (some ms) response fs = ground arith

exchange-fits :
    (ros : Ros) (ts : Support) (client : ℕ) (request response : Members) (fs : Fields)
    → fits request fs ≡ true
    → sent_fit (some (request, response)) (exchange ros ts client response fs) ≡ true
unfolding exchange
exchange-fits ros ts client request response fs h =
    ground (arith, λ (gs : Fields). answer-fits ts (some (request, response)) response gs)

perform-fits :
    (ros : Ros) (ts : Support) (client : ℕ) (ms : Members × Members) (msg : Option Msg)
    → KeepsTypes ts
    → sent_fit (some ms) (perform ros ts client ms msg) ≡ true
unfolding perform
perform-fits ros ts client (request, response) none k =
    let r = map_request ts request null (ts.init request) in
    ground (
      arith,
      exchange-fits ros ts client request response r.0
          (map_request-fits ts request null (ts.init request) k (k.init_fits request)),
    )
perform-fits ros ts client (request, response) (some m) k =
    let r = map_request ts request m (ts.init request) in
    ground (
      arith,
      exchange-fits ros ts client request response r.0
          (map_request-fits ts request m (ts.init request) k (k.init_fits request)),
    )

load_types_found :
    (ros : Ros) (pkg srv name : Str) (c : Caches) (ms : Members × Members)
    → (load_types ros pkg srv name c).1 ≡ loaded ms
    → find name (load_types ros pkg srv name c).0.types ≡ some ms
unfolding load_types load_library
load_types_found ros pkg srv name c ms h = grind (arith, find-emplace, str_eq_iff)

error_fits :
    (types : Option (Members × Members)) (e : ServiceError)
    → sent_fit types (acks_error e ∷ []) ≡ true
error_fits none e = refl
error_fits (some ms) e = refl

-- A call with its two look-ups done.
types_fit :
    (ros : Ros) (ts : Support) (name : Str) (client : ℕ) (msg : Option Msg)
    (r : Caches × Loaded (Members × Members))
    → KeepsTypes ts
    → ((ms : Members × Members) → r.1 ≡ loaded ms → find name r.0.types ≡ some ms)
    → (let q : Caches × List Action = elim r.1 [
      | failed e ↦ (r.0, acks_error e ∷ [])
      | loaded ms ↦ (r.0, perform ros ts client ms msg)
    ] in
        sent_fit (find name q.0.types) q.1)
      ≡ true
types_fit ros ts name client msg (c, failed e) k found = error_fits (find name c.types) e
types_fit ros ts name client msg (c, loaded ms) k found =
    rw (found ms refl) (perform-fits ros ts client ms msg k)

crash_fits : (types : Option (Members × Members)) → sent_fit types (crashes ∷ []) ≡ true
crash_fits none = refl
crash_fits (some ms) = refl

call_in-fits :
    (ros : Ros) (ts : Support) (pkg srv name : Str) (msg : Option Msg) (c : Caches)
    → KeepsTypes ts
    → sent_fit
        (find name (call_in ros ts pkg srv name msg c).0.types)
        (call_in ros ts pkg srv name msg c).1
      ≡ true
unfolding call_in
call_in-fits ros ts pkg srv name msg c k = client_fits (load_client ros pkg srv name c)
  where
    client_fits :
        (r : Caches × Loaded ℕ)
        → (let q : Caches × List Action = elim r.1 [
          | failed e ↦ (r.0, acks_error e ∷ [])
          | loaded cl ↦
              let t = load_types ros pkg srv name r.0 in
              elim t.1 [
                | failed e ↦ (t.0, acks_error e ∷ [])
                | loaded ms ↦ (t.0, perform ros ts cl ms msg)
              ]
        ] in
            sent_fit (find name q.0.types) q.1)
          ≡ true
    client_fits (c', failed e) = error_fits (find name c'.types) e
    client_fits (c', loaded cl) =
        types_fit ros ts name cl msg (load_types ros pkg srv name c') k
          (load_types_found ros pkg srv name c')

-- Every request that a call sends is a message of the request type that the caches have for its
-- service then, with every integer in its range, if the type support keeps types.
pub call_generic_service-fits :
    (ros : Ros) (ts : Support) (name service_type : Str) (msg : Option Msg) (c : Caches)
    → KeepsTypes ts
    → sent_fit
        (find name (call_generic_service ros ts name service_type msg c).0.types)
        (call_generic_service ros ts name service_type msg c).1
      ≡ true
unfolding call_generic_service
call_generic_service-fits ros ts name service_type msg c k = parts_fit (split 47 service_type)
  where
    parts_fit :
        (parts : List Str)
        → (let r : Caches × List Action = elim parts [
          | pkg ∷ kind ∷ srv ∷ more ↦ call_in ros ts pkg srv name msg c
          | _ ↦ (c, crashes ∷ [])
        ] in
            sent_fit (find name r.0.types) r.1)
          ≡ true
    parts_fit [] = crash_fits (find name c.types)
    parts_fit (a ∷ []) = crash_fits (find name c.types)
    parts_fit (a ∷ b ∷ []) = crash_fits (find name c.types)
    parts_fit (pkg ∷ kind ∷ srv ∷ more) = call_in-fits ros ts pkg srv name msg c k
