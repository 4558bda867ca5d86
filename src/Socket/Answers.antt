-- ===== src/Socket/Answers.antt =====
-- How a call of a service is answered, from the message of src/sio.cpp to the end of the call in
-- src/generic_services.cpp.
use phntm_bridge.Prelude.{
  ◌≡◌, Bool, true, false, not, ◌&&◌, Option, some, Str, is_empty, Map, str_key, if◌then◌else◌,
  arith,
}
use phntm_bridge.Introspection.{DiscoveredNode}
use phntm_bridge.Introspection.Lookup.{get_service}
use phntm_bridge.Services.{Msg, Support}
use phntm_bridge.Services.Calls.{Ros, Caches, call_generic_service}
use phntm_bridge.Services.Protocol.{ends_once, call_generic_service-ends}
use phntm_bridge.Socket.{Event, Peers, get_connected_peer}
use phntm_bridge.Socket.Replies.{acks, errors, asked, is_known}
use phntm_bridge.Socket.Calls.{Served, thrown, replied, called, on_service_call, serve}

-- The service is known, and so is the peer that calls it.
abbrev callable : Event → Str → Map Str DiscoveredNode → Peers → Bool
callable e name nodes peers =
    is_known e peers && (not (is_empty name) && not (is_empty (get_service name nodes)))

-- The answer: acknowledgements of the handler, each an error, or the actions of a call of the service
-- by the type that was discovered.
abbrev pub Answered :
    Ros
    → Support
    → Event
    → Str
    → Option Msg
    → Map Str DiscoveredNode
    → Peers
    → Caches
    → Served
    → Type 0
Answered ros ts e name msg nodes peers c thrown = ⊥
Answered ros ts e name msg nodes peers c (replied es) =
    let due = if is_known e peers then 1 else asked e in
    (callable e name nodes peers ≡ false) × (acks es ≡ due) × (errors es ≡ due)
Answered ros ts e name msg nodes peers c (called c' actions) =
    (callable e name nodes peers ≡ true)
    × ((c', actions) ≡ call_generic_service ros ts name (get_service name nodes) msg c)
    × (ends_once actions ≡ true)

-- A message that names a service has one of two outcomes. Where its peer is connected and the service
-- was discovered, the service is called by the type that was discovered: with one request at most, and
-- then the acknowledgement as the last action, or the end of the process in its place. Otherwise
-- nothing is called, and each acknowledgement is an error: one for a connected peer, and for another
-- one where an acknowledgement is asked for, and none where it is not.
pub serve-Answered :
    (ros : Ros) (ts : Support) (e : Event) (name : Str) (msg : Option Msg)
    (nodes : Map Str DiscoveredNode) (peers : Peers) (c : Caches)
    → Answered ros ts e name msg nodes peers c (serve ros ts e (some name) msg nodes peers c)
unfolding serve on_service_call get_connected_peer
serve-Answered ros ts e name msg nodes peers c =
    ground (arith, call_generic_service-ends ros ts name (get_service name nodes) msg c)
