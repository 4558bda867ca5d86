-- ===== src/Socket/Calls.antt =====
-- The handlers of src/sio.cpp that lead out of the socket: the calls of services, the requests of files,
-- the control of the introspection, and the ICE servers. What a handler reads of its message is an
-- argument; a text of a message that is no string is empty.
use phntm_bridge.Prelude.{
  Bool, not, Option, none, some, List, [], ◌∷◌, ◌++◌, Str, codes, is_empty, Map, if◌then◌else◌,
}
use phntm_bridge.Introspection.{DiscoveredNode}
use phntm_bridge.Introspection.Lookup.{get_service}
use phntm_bridge.Introspection.Control.{Control, start, stop}
use phntm_bridge.Services.{Msg, Support}
use phntm_bridge.Services.Calls.{Ros, Caches, Action, call_generic_service}
use phntm_bridge.Socket.{Event, Peers, Effect, ack_error, get_connected_peer}

-- onServiceCall: an exception, the acknowledgements of the handler, or the call of a service of a type
-- on a thread of its own.
pub data ServiceCall : Type 0 where
  throws : ServiceCall
  replies : List Effect → ServiceCall
  calls : Str → Str → ServiceCall

abbrev undiscovered : Str → Str
undiscovered name = codes "Service '" ++ (name ++ codes "' not discovered")

-- `service` is the field of the message, of which `at` throws where it is missing.
unfoldable pub on_service_call : Event → Option Str → Map Str DiscoveredNode → Peers → ServiceCall
unfolding get_connected_peer get_service
on_service_call e service nodes peers =
    let (peer, acks) = get_connected_peer e peers in
    elim peer [
      | none ↦ replies acks
      | some id ↦ elim service [
        | none ↦ throws
        | some name ↦
            if is_empty name
            then replies (ack_error (codes "Service id not provided") ∷ [])
            else (if is_empty (get_service name nodes)
                then replies (ack_error (undiscovered name) ∷ [])
                else calls name (get_service name nodes))
      ]
    ]

-- What becomes of a message, with the thread of its call: the handler's acknowledgements, or the
-- caches and the actions of the call.
pub data Served : Type 0 where
  thrown : Served
  replied : List Effect → Served
  called : Caches → List Action → Served

unfoldable pub serve :
    Ros
    → Support
    → Event
    → Option Str
    → Option Msg
    → Map Str DiscoveredNode
    → Peers
    → Caches
    → Served
unfolding on_service_call call_generic_service
serve ros ts e service msg nodes peers c = elim (on_service_call e service nodes peers) [
  | throws ↦ thrown
  | replies acks ↦ replied acks
  | calls name service_type ↦
      let (c', actions) = call_generic_service ros ts name service_type msg c in called c' actions
]

-- onFileRequest: an error, or the path that a thread asks the extractors for.
pub data FileRequest : Type 0 where
  no_path : Effect → FileRequest
  finds : Str → FileRequest

-- The message's text where it is a string.
unfoldable on_file_request : Option Str → FileRequest
on_file_request none = no_path (ack_error (codes "File path not provided"))
on_file_request (some path) =
    if is_empty path then no_path (ack_error (codes "File path not provided")) else finds path

-- onIntrospection: the state, what it reports, and the acknowledgements: an error, or the state that
-- it is left in, which is sent whether it is asked for or not, and past the test of the connection.
-- `none`: the null pointer in the place of a missing `state` is followed.
unfoldable on_introspection :
    Event
    → Option Bool
    → Peers
    → Control
    → Option (Control × (List Bool × (List Effect × Option Bool)))
unfolding get_connected_peer start stop
on_introspection e state peers c =
    let (peer, acks) = get_connected_peer e peers in
    elim peer [
      | none ↦ some (c, ([], (acks, none)))
      | some id ↦ elim state [
        | none ↦ none
        | some on ↦
            let (c', states) = if on then start c else stop c in
            some (c', (states, ([], some c'.running)))
      ]
    ]

pub record IceConfig : Type 0 where
  use_cloud_ice_config : Bool
  ice_servers_custom : List Str
  ice_servers : List Str
  ice_secret : Str

-- onIceServers: the servers and the secret of the message, of which `at` throws where one is missing.
unfoldable on_ice_servers : Option (List Str) → Option Str → IceConfig → Option IceConfig
on_ice_servers servers secret c = if not c.use_cloud_ice_config then some c else elim servers [
  | none ↦ none
  | some ss ↦ elim secret [
    | none ↦ none
    | some s ↦ some (record c { ice_servers = c.ice_servers_custom ++ ss; ice_secret = s })
  ]
]
