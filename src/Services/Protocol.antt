-- ===== src/Services/Protocol.antt =====
-- What a call of callGenericService in src/generic_services.cpp does to the outside, and its caches.
use phntm_bridge.Prelude.{
  ℕ, ◌≡◌, refl, Bool, true, false, not, ◌&&◌, Option, none, some, List, [], ◌∷◌, Str, str_key,
  arith,
}
use phntm_bridge.Text.{split}
use phntm_bridge.Services.{Msg, null, Members, Fields, Support}
use phntm_bridge.Services.Request.{map_request}
use phntm_bridge.Services.Calls.{
  Ros, Action, sends, acks_error, acks, crashes, Caches, answer, exchange, perform, call_in,
  call_generic_service,
}

-- The last action of a call is its acknowledgement, or the end of the process.
abbrev is_last : Action → Bool
is_last (sends client fs) = false
is_last (acks_error e) = true
is_last (acks m) = true
is_last crashes = true

-- At most one request is sent, first, and then comes the last action.
abbrev pub ends_once : List Action → Bool
ends_once [] = false
ends_once (a ∷ []) = is_last a
ends_once (a ∷ b ∷ []) = not (is_last a) && is_last b
ends_once (a ∷ b ∷ l ∷ ls) = false

answer-ends :
    (ts : Support) (response : Members) (fs : Fields) → ends_once (answer ts response fs) ≡ true
unfolding answer
answer-ends ts response fs = ground arith

-- One action, and no request.
answer_single :
    (ts : Support) (response : Members) (fs : Fields) (a : Action)
    → is_last a ≡ false
    → ends_once (a ∷ answer ts response fs) ≡ true
unfolding answer
answer_single ts response fs a h = ground arith

exchange-ends :
    (ros : Ros) (ts : Support) (client : ℕ) (response : Members) (fs : Fields)
    → ends_once (exchange ros ts client response fs) ≡ true
unfolding exchange
exchange-ends ros ts client response fs =
    ground (arith, λ (gs : Fields). answer_single ts response gs (sends client fs) refl)

perform-ends :
    (ros : Ros) (ts : Support) (client : ℕ) (ms : Members × Members) (msg : Option Msg)
    → ends_once (perform ros ts client ms msg) ≡ true
unfolding perform
perform-ends ros ts client (request, response) none =
    let r = map_request ts request null (ts.init request) in
    ground (arith, exchange-ends ros ts client response r.0)
perform-ends ros ts client (request, response) (some m) =
    let r = map_request ts request m (ts.init request) in
    ground (arith, exchange-ends ros ts client response r.0)

call_in-ends :
    (ros : Ros) (ts : Support) (pkg srv name : Str) (msg : Option Msg) (c : Caches)
    → ends_once (call_in ros ts pkg srv name msg c).1 ≡ true
unfolding call_in
call_in-ends ros ts pkg srv name msg c = grind (arith, perform-ends ros ts)

-- A call of any service, whatever the loader, rcl and the service answer, sends one request at most,
-- and then acknowledges its message once, with the response or with an error, as its last action; or
-- it ends the process.
pub call_generic_service-ends :
    (ros : Ros) (ts : Support) (name service_type : Str) (msg : Option Msg) (c : Caches)
    → ends_once (call_generic_service ros ts name service_type msg c).1 ≡ true
unfolding call_generic_service
call_generic_service-ends ros ts name service_type msg c = parts_end (split 47 service_type)
  where
    parts_end :
        (parts : List Str)
        → ends_once
            (let r : Caches × List Action = elim parts [
              | pkg ∷ kind ∷ srv ∷ more ↦ call_in ros ts pkg srv name msg c
              | _ ↦ (c, crashes ∷ [])
            ] in
              r).1
          ≡ true
    parts_end [] = refl
    parts_end (a ∷ []) = refl
    parts_end (a ∷ b ∷ []) = refl
    parts_end (pkg ∷ kind ∷ srv ∷ more) = call_in-ends ros ts pkg srv name msg c
