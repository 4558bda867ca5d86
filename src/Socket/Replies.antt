-- ===== src/Socket/Replies.antt =====
-- How often a message is acknowledged.
use phntm_bridge.Prelude.{
  ℕ, ◌+◌, ◌≡◌, Bool, Option, none, some, not, ◌&&◌, ◌||◌, List, [], ◌∷◌, is_empty, is_some,
  if◌then◌else◌, contains, str_key, arith,
}
use phntm_bridge.Peer.Negotiation
use phntm_bridge.Peer.Negotiation.{Shared}
use phntm_bridge.Socket.{
  Event, Session, Peers, Effect, ack_success, ack_error, process, process_new, process_sync,
  sdp_answer, get_id, get_connected_peer, items, add_reads, remove_reads, remove_writes,
}
use phntm_bridge.Socket.Handlers.{
  handle_request, on_subscribe_read, on_unsubscribe_read, on_unsubscribe_write, on_peer_wrtc_info,
  on_peer_disconnected, on_sdp_answer, on_peer_connected,
}

abbrev pub acks : List Effect → ℕ
acks [] = 0
acks (ack_success n ∷ es) = 1 + acks es
acks (ack_error m ∷ es) = 1 + acks es
acks (process i ∷ es) = acks es
acks (process_new i s ∷ es) = acks es
acks (process_sync i ∷ es) = acks es
acks (sdp_answer i ∷ es) = acks es

-- How many errors are acknowledged.
abbrev pub errors : List Effect → ℕ
errors [] = 0
errors (ack_success n ∷ es) = errors es
errors (ack_error m ∷ es) = 1 + errors es
errors (process i ∷ es) = errors es
errors (process_new i s ∷ es) = errors es
errors (process_sync i ∷ es) = errors es
errors (sdp_answer i ∷ es) = errors es

abbrev pub asked : Event → ℕ
asked e = if e.need_ack then 1 else 0

-- The message names a peer that is connected.
abbrev pub is_known : Event → Peers → Bool
is_known e peers = not (is_empty (get_id e)) && contains (get_id e) peers

handle_request-acks :
    (change : Session → Session) (e : Event) (peers : Peers)
    → acks (handle_request change e peers).1 ≡ asked e
unfolding handle_request get_connected_peer
handle_request-acks change e peers = ground arith

-- Each of the requests to subscribe and to unsubscribe is acknowledged exactly once where an
-- acknowledgement is asked for, and never otherwise, whether the peer is connected or not.
request_acks :
    (e : Event) (peers : Peers)
    → (acks (on_subscribe_read e peers).1 ≡ asked e)
      × (acks (on_unsubscribe_read e peers).1 ≡ asked e)
      × (acks (on_unsubscribe_write e peers).1 ≡ asked e)
unfolding on_subscribe_read on_unsubscribe_read on_unsubscribe_write
request_acks e peers = (
  handle_request-acks (add_reads (items e.sources)) e peers,
  handle_request-acks (remove_reads (items e.sources)) e peers,
  handle_request-acks (remove_writes (items e.sources)) e peers,
)

-- How often a message is acknowledged by a handler that may throw.
abbrev pub acks_of : Option (Peers × List Effect) → Option ℕ
acks_of none = none
acks_of (some (peers, es)) = some (acks es)

-- A report of the WebRTC state and a disconnection are acknowledged once for a peer that is connected,
-- and twice for one that is not, where an acknowledgement is asked for: the error is followed by a
-- second acknowledgement for the same message. So is an SDP answer, with one exception: an answer of a
-- peer that is connected is not acknowledged, and the handler throws, where the peer has no
-- connection, or has a local offer and the answer has no description that is taken.
pub report_acks :
    (takes_sdp : Bool) (shared : Shared) (e : Event) (peers : Peers)
    → let n = asked e + (if is_known e peers then 0 else asked e) in
      let throws = not (is_some (Negotiation.on_sdp_answer takes_sdp shared)) in
      (acks (on_peer_wrtc_info e peers).1 ≡ n)
      × (acks (on_peer_disconnected e peers).1 ≡ n)
      × (acks_of (on_sdp_answer throws e peers) ≡ (
          if is_known e peers && (not shared.has_pc || (shared.have_local_offer && not takes_sdp))
          then none
          else some n))
unfolding on_peer_wrtc_info on_peer_disconnected on_sdp_answer get_connected_peer
    Negotiation.on_sdp_answer
report_acks takes_sdp shared e peers = (ground arith, ground arith, ground arith)

-- A peer's connection is accepted without a fault exactly if the message has both of its ids, or the
-- id that it gives is empty.
connect_faults :
    (e : Event) (peers : Peers)
    → is_some (on_peer_connected e peers)
      ≡ is_empty (get_id e) || (is_some e.id_app && is_some e.id_instance)
unfolding on_peer_connected
connect_faults e peers = ground arith
