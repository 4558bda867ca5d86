-- ===== src/Socket/Examples.antt =====
-- The handlers of src/sio.cpp on concrete messages.
use phntm_bridge.Prelude.{
  ◌+◌, ◌≡◌, refl, true, false, none, some, List, [], ◌∷◌, Str, codes, find, emplace, insert_new,
  update, mem, str_eq, str_key,
}
use phntm_bridge.Peer.{add_req_read_subscription}
use phntm_bridge.Peer.Requests.{Once}
use phntm_bridge.Socket.{Peers, Event, Item, Session, get_id}
use phntm_bridge.Socket.Handlers.{
  connected, subscribe_read, on_peer_wrtc_info, on_peer_disconnected, on_sdp_answer,
}
use phntm_bridge.Socket.Replies.{acks, acks_of, report_acks}
use phntm_bridge.Peer.Negotiation
use phntm_bridge.Peer.Negotiation.{Shared}
use phntm_bridge.Socket.Sessions.{handle_all, sessions-Once}
use phntm_bridge.Socket.Connection
use phntm_bridge.Socket.Announce
use phntm_bridge.Socket.Announce.{Bridge, socket, introspection, new_bridge, last, handle_all-told}
use phntm_bridge.Socket.Answers.{Answered, serve-Answered}
use phntm_bridge.Socket.Calls.{serve}
use phntm_bridge.Introspection.{DiscoveredNode, new_node}
use phntm_bridge.Introspection.Control
use phntm_bridge.Services.Calls.{Ros, ready, no_caches}
use phntm_bridge.Services.Plain.{plain}

abbrev item : Str → Item
item s = record { string = s; vector = none }

-- Two topics are asked for, one of them twice.
abbrev topics : List Item
topics = item (codes "/a") ∷ item (codes "/b") ∷ item (codes "/a") ∷ []

abbrev from_peer : Event
from_peer = record {
  need_ack = true;
  id_app = some (codes "app");
  id_instance = some (codes "p1");
  state = none;
  sources = some (some topics);
  read = some (some (item (codes "/b") ∷ []));
  write = none;
}

abbrev session : Session
session = record {
  req_read_subs = codes "/b" ∷ codes "/a" ∷ [];
  req_write_subs = [];
  peer_needs_restart = false;
}

sessions-Once_example : Once (codes "/b" ∷ codes "/a" ∷ [])
unfolding handle_all mem find str_eq emplace insert_new update add_req_read_subscription
sessions-Once_example =
    sessions-Once (connected from_peer ∷ subscribe_read from_peer ∷ []) ((codes "p1", session) ∷ [])
      (codes "p1") session refl refl

-- A peer that waits for an answer.
abbrev offered : Shared
offered = record {
  locked = true;
  is_connected = true;
  awaiting_peer_reply = true;
  has_pc = true;
  have_local_offer = true;
  updates = 1;
}

report_acks_example :
    let peers : Peers = (codes "p1", session) ∷ [] in
    (acks (on_peer_wrtc_info from_peer peers).1 ≡ 1)
    × (acks (on_peer_disconnected from_peer peers).1 ≡ 1)
    × (acks_of (on_sdp_answer true from_peer peers) ≡ none)
unfolding get_id find str_eq Negotiation.on_sdp_answer
report_acks_example = report_acks false offered from_peer ((codes "p1", session) ∷ [])

-- The introspection is started without a connection and stopped with one.
abbrev events : List Announce.Event
events =
    introspection Control.start_it
    ∷ socket Connection.socket_open
    ∷ introspection Control.stop_it
    ∷ []

handle_all-told_example : last (Announce.handle_all events (new_bridge true)).told ≡ some false
unfolding Announce.handle_all Announce.handle Connection.handle Connection.on_socket_open
    Connection.emit Control.handle Control.start Control.stop
handle_all-told_example = handle_all-told true events refl

-- A connection that is closed, and closed again once the socket is shut down.
attempts_end_example :
    let down =
      Connection.shutdown
        (Connection.handle_all (Connection.closed ∷ []) Connection.new_connection) in
    let c = Connection.handle_all (Connection.woke_up ∷ Connection.closed ∷ []) down in
    c.attempts + c.sleeping ≡ down.attempts + down.sleeping
attempts_end_example =
    Connection.attempts_end (Connection.closed ∷ []) (Connection.woke_up ∷ Connection.closed ∷ [])
      Connection.new_connection

abbrev motor : DiscoveredNode
motor = record (new_node (codes "/")) {
  services = (codes "/gains", codes "motor/srv/SetGains") ∷ [];
}

-- No library is found.
abbrev bare_ros : Ros
bare_ros = record {
  open_library = λ file. none;
  service_support = λ lib symbol. none;
  message_support = λ lib symbol. none;
  client_init = λ support name. none;
  send_request = true;
  wait_set_init = true;
  wait_set_add_client = true;
  wait = ready;
  take_response = λ fs. none;
}

serve-Answered_example :
    Answered bare_ros plain from_peer
      (codes "/gains")
      none
      ((codes "motor", motor) ∷ [])
      ((codes "p1", session) ∷ [])
      no_caches
      (serve bare_ros plain from_peer
        (some (codes "/gains"))
        none
        ((codes "motor", motor) ∷ [])
        ((codes "p1", session) ∷ [])
        no_caches)
serve-Answered_example =
    serve-Answered bare_ros plain from_peer (codes "/gains") none ((codes "motor", motor) ∷ [])
      ((codes "p1", session) ∷ []) no_caches
