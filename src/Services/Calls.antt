-- ===== src/Services/Calls.antt =====
-- callGenericService, returnServiceError and clearServicesCache of src/generic_services.cpp. What the
-- loader, rcl and the service answer is a `Ros`.
use phntm_bridge.Prelude.{
  ℕ, Bool, not, Option, none, some, List, [], ◌∷◌, ◌++◌, Str, codes, Map, find, emplace, str_key,
  if◌then◌else◌,
}
use phntm_bridge.Text.{split}
use phntm_bridge.Services.{Msg, null, Members, Fields, Error, done, error, fault, Support}
use phntm_bridge.Services.Request.{map_request}
use phntm_bridge.Services.Response.{reply, refused, broken, map_response}

-- What rcl_wait returns.
pub data Wait : Type 0 where
  ready timeout failed_wait : Wait

-- dlopen by a file name; dlsym of the type support of a service, and what the function returns; the
-- same of a request or a response; rcl, whose calls return RCL_RET_OK or not.
pub record Ros : Type 0 where
  pub open_library : Str → Option ℕ
  pub service_support : ℕ → Str → Option (Option ℕ)
  pub message_support : ℕ → Str → Option Members
  pub client_init : ℕ → Str → Option ℕ
  pub send_request : Bool
  pub wait_set_init : Bool
  pub wait_set_add_client : Bool
  pub wait : Wait
  pub take_response : Fields → Option Fields

-- The messages of returnServiceError.
pub data ServiceError : Type 0 where
  library_load symbol_load no_type_support client_init_failed introspection_load : ServiceError
  request_symbol response_symbol : ServiceError
  mapping_request : Error → ServiceError
  send_failed wait_set_failed add_client_failed timed_out wait_failed take_failed : ServiceError
  mapping_response : Error → ServiceError

-- What a call does to the outside: a request by a client, the acknowledgement of the socket message,
-- with an error or with the response, or the end of the process.
pub data Action : Type 0 where
  sends : ℕ → Fields → Action
  acks_error : ServiceError → Action
  acks : Msg → Action
  crashes : Action

pub record Caches : Type 0 where
  libraries : Map Str ℕ
  pub clients : Map Str ℕ
  pub types : Map Str (Members × Members)

abbrev pub no_caches : Caches
no_caches = record { libraries = []; clients = []; types = [] }

pub data Loaded (A : Type 0) : Type 0 where
  loaded : A → Loaded A
  failed : ServiceError → Loaded A

-- A library from the cache, or by dlopen into it. The key and the file's name are given.
unfoldable pub load_library : Ros → Str → Str → ServiceError → Caches → Caches × Loaded ℕ
load_library ros key file e c = elim (find key c.libraries) [
  | some lib ↦ (c, loaded lib)
  | none ↦ elim (ros.open_library file) [
    | none ↦ (c, failed e)
    | some lib ↦ (record c { libraries = emplace key lib c.libraries }, loaded lib)
  ]
]

-- The type support of the service in its library, and a client of it.
unfoldable init_client : Ros → Str → Str → ℕ → Loaded ℕ
init_client ros symbol name lib = elim (ros.service_support lib symbol) [
  | none ↦ failed symbol_load
  | some none ↦ failed no_type_support
  | some (some support) ↦ elim (ros.client_init support name) [
    | none ↦ failed client_init_failed
    | some client ↦ loaded client
  ]
]

abbrev after_client : Str → Caches → Loaded ℕ → Caches × Loaded ℕ
after_client name c (failed e) = (c, failed e)
after_client name c (loaded client) =
    (record c { clients = emplace name client c.clients }, loaded client)

abbrev with_library :
    {A : Type 0} → (ℕ → Caches → Caches × Loaded A) → Caches × Loaded ℕ → Caches × Loaded A
with_library next (c, failed e) = (c, failed e)
with_library next (c, loaded lib) = next lib c

unfoldable pub load_client : Ros → Str → Str → Str → Caches → Caches × Loaded ℕ
unfolding load_library init_client
load_client ros pkg srv name c = elim (find name c.clients) [
  | some client ↦ (c, loaded client)
  | none ↦
      let file = codes "lib" ++ (pkg ++ codes "__rosidl_typesupport_cpp.so") in
      let symbol =
        codes "rosidl_typesupport_cpp__get_service_type_support_handle__"
        ++ (pkg ++ (codes "__srv__" ++ srv)) in
      with_library (λ lib c'. after_client name c' (init_client ros symbol name lib))
        (load_library ros pkg file library_load c)
]

-- The introspection of the request and of the response.
unfoldable find_members : Ros → Str → ℕ → Loaded (Members × Members)
find_members ros symbol lib = elim (ros.message_support lib (symbol ++ codes "_Request")) [
  | none ↦ failed request_symbol
  | some request ↦ elim (ros.message_support lib (symbol ++ codes "_Response")) [
    | none ↦ failed response_symbol
    | some response ↦ loaded (request, response)
  ]
]

abbrev after_types : Str → Caches → Loaded (Members × Members) → Caches × Loaded (Members × Members)
after_types name c (failed e) = (c, failed e)
after_types name c (loaded t) = (record c { types = emplace name t c.types }, loaded t)

unfoldable pub load_types : Ros → Str → Str → Str → Caches → Caches × Loaded (Members × Members)
unfolding load_library find_members
load_types ros pkg srv name c = elim (find name c.types) [
  | some t ↦ (c, loaded t)
  | none ↦
      let file = codes "lib" ++ (pkg ++ codes "__rosidl_typesupport_introspection_cpp.so") in
      let symbol =
        codes "rosidl_typesupport_introspection_cpp__get_message_type_support_handle__"
        ++ (pkg ++ (codes "__srv__" ++ srv)) in
      with_library (λ lib c'. after_types name c' (find_members ros symbol lib))
        (load_library ros (pkg ++ codes "_introspection") file introspection_load c)
]

-- The response on its way to the socket.
unfoldable pub answer : Support → Members → Fields → List Action
answer ts response fs = elim (map_response ts response fs) [
  | reply m ↦ acks m ∷ []
  | refused e ↦ acks_error (mapping_response e) ∷ []
  | broken ↦ crashes ∷ []
]

-- From rcl_send_request on, with the mutex of the client held.
unfoldable pub exchange : Ros → Support → ℕ → Members → Fields → List Action
unfolding answer
exchange ros ts client response request =
    if not ros.send_request
    then acks_error send_failed ∷ []
    else sends client request
      ∷ (if not ros.wait_set_init
          then acks_error wait_set_failed ∷ []
          else (if not ros.wait_set_add_client
              then acks_error add_client_failed ∷ []
              else elim ros.wait [
                | timeout ↦ acks_error timed_out ∷ []
                | failed_wait ↦ acks_error wait_failed ∷ []
                | ready ↦ elim (ros.take_response (ts.init response)) [
                  | none ↦ acks_error take_failed ∷ []
                  | some fs ↦ answer ts response fs
                ]
              ]))

-- The request, mapped into fresh memory.
unfoldable pub perform : Ros → Support → ℕ → Members × Members → Option Msg → List Action
unfolding exchange
perform ros ts client (request, response) msg =
    let data_msg : Msg = elim msg [ none ↦ null | some m ↦ m ] in
    let (fs, out) = map_request ts request data_msg (ts.init request) in
    elim out [
      | done ↦ exchange ros ts client response fs
      | error e ↦ acks_error (mapping_request e) ∷ []
      | fault ↦ crashes ∷ []
    ]

-- callGenericService for a package and the name of a service in it.
unfoldable pub call_in :
    Ros → Support → Str → Str → Str → Option Msg → Caches → Caches × List Action
unfolding load_client load_types perform
call_in ros ts pkg srv name msg c =
    let (c', client) = load_client ros pkg srv name c in
    elim client [
      | failed e ↦ (c', acks_error e ∷ [])
      | loaded cl ↦
          let (c₂, types) = load_types ros pkg srv name c' in
          elim types [
            | failed e ↦ (c₂, acks_error e ∷ [])
            | loaded ms ↦ (c₂, perform ros ts cl ms msg)
          ]
    ]

-- parts[0] and parts[2]; with fewer parts, the read is behind the end of the vector.
unfoldable pub call_generic_service :
    Ros → Support → Str → Str → Option Msg → Caches → Caches × List Action
unfolding call_in
call_generic_service ros ts name service_type msg c = elim (split 47 service_type) [
  | pkg ∷ kind ∷ srv ∷ more ↦ call_in ros ts pkg srv name msg c
  | _ ↦ (c, crashes ∷ [])
]

-- clearServicesCache
unfoldable clear_services_cache : Caches → Caches
clear_services_cache c = no_caches

-- Calls, each with what the outside answers to it, and clearings.
pub data Event : Type 0 where
  call : Ros → Str → Str → Option Msg → Event
  clear : Event

unfoldable pub handle : Support → Event → Caches → Caches × List Action
unfolding call_generic_service clear_services_cache
handle ts (call ros name service_type msg) c = call_generic_service ros ts name service_type msg c
handle ts clear c = (clear_services_cache c, [])

unfoldable pub handle_all : Support → List Event → Caches → Caches
unfolding handle
handle_all ts [] c = c
handle_all ts (e ∷ es) c = handle_all ts es (handle ts e c).0
