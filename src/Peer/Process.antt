-- ===== src/Peer/Process.antt =====
-- WRTCPeer::processSubscriptionsSync, and the answer to its offer. One call runs under the peer's
-- mutex; it is the function of the state that it starts from. What other threads do to the peer while
-- it waits is not part of it.
use phntm_bridge.Prelude.{
  ◌+◌, Bool, true, false, not, ◌&&◌, ◌||◌, none, some, List, [], ◌∷◌, ◌++◌, Str, is_empty, is_some,
  mem, if◌then◌else◌, Map, str_key,
}
use phntm_bridge.Media.{is_image_or_video_type}
use phntm_bridge.Introspection.Lookup.{get_topic}
use phntm_bridge.Peer.{Peer, Channel, Track, writes_to}
use phntm_bridge.Peer.Channels.{
  Env, Entry, subscribe_read_data_topic, subscribe_write_data_topic, subscribe_media_topic,
  unsubscribe_read_data_topic, unsubscribe_write_data_topic, unsubscribe_media_topic,
}

-- The reply: the entries of its three lists, in order, and whether it has an offer.
pub record Reply : Type 0 where
  read_video_streams : List Entry
  read_data_channels : List Entry
  write_data_channels : List Entry
  offer : Bool

-- createPeerConnection: an object at a new address.
unfoldable create_peer_connection : Peer → Peer
create_peer_connection p = record p { pc = some p.next_addr; next_addr = p.next_addr + 1 }

unfoldable remove_peer_connection : Peer → Peer
remove_peer_connection p = record p { pc = none }

unfoldable pub is_reconnect : Env → Peer → Bool
is_reconnect e p =
    p.is_connected
    && (e.socket_connected && (p.peer_needs_restart || (not (is_some p.pc) || e.pc_failed)))

-- The block under `if (is_reconnect)`.
unfoldable pub restart : Bool → Peer → Peer
unfolding create_peer_connection remove_peer_connection
restart again p =
    let p' = record p { negotiation_needed = again } in
    if again
    then create_peer_connection (record (remove_peer_connection p') {
      peer_needs_restart = false;
      outbound_data_channels = [];
      inbound_data_channels = [];
    })
    else p'

-- One requested topic: not discovered, a data topic, or a media topic.
unfoldable pub open_read : Env → Str → Peer × Reply → Peer × Reply
unfolding get_topic subscribe_read_data_topic subscribe_media_topic
open_read e topic (p, r) =
    let msg_type = get_topic topic p.discovered_topics in
    if is_empty msg_type
    then (p, r)
    else (if not (is_image_or_video_type msg_type)
        then (let (p', entry) = subscribe_read_data_topic e topic msg_type p in
            (p', record r { read_data_channels = r.read_data_channels ++ entry }))
        else (let (p', entry) = subscribe_media_topic e topic msg_type p in
            (p', record r { read_video_streams = r.read_video_streams ++ entry })))

unfoldable pub open_reads : Env → List Str → Peer × Reply → Peer × Reply
unfolding open_read
open_reads e [] s = s
open_reads e (t ∷ ts) s = open_reads e ts (open_read e t s)

unfoldable pub open_write : Env → Str → Str → Peer × Reply → Peer × Reply
unfolding subscribe_write_data_topic
open_write e topic msg_type (p, r) =
    let (p', entry) = subscribe_write_data_topic e topic msg_type p in
    (p', record r { write_data_channels = r.write_data_channels ++ entry })

unfoldable pub open_writes : Env → List (Str × Str) → Peer × Reply → Peer × Reply
unfolding open_write
open_writes e [] s = s
open_writes e ((t, ty) ∷ subs) s = open_writes e subs (open_write e t ty s)

-- The keys of the channels that no request names, in the order of the map.
unfoldable pub unused_channels : (Str → Bool) → Map Str Channel → List Str
unused_channels used [] = []
unused_channels used ((t, ch) ∷ m) =
    let rest = unused_channels used m in if used t then rest else t ∷ rest

unfoldable pub unused_tracks : (Str → Bool) → Map Str Track → List Str
unused_tracks used [] = []
unused_tracks used ((t, i) ∷ m) =
    let rest = unused_tracks used m in if i.in_use && not (used t) then t ∷ rest else rest

unfoldable pub close_reads : Env → List Str → Peer × Reply → Peer × Reply
unfolding unsubscribe_read_data_topic
close_reads e [] s = s
close_reads e (t ∷ ts) (p, r) =
    let (p', entry) = unsubscribe_read_data_topic e t p in
    close_reads e ts (p', record r { read_data_channels = r.read_data_channels ++ entry })

unfoldable pub close_media : Bool → List Str → Peer × Reply → Peer × Reply
unfolding unsubscribe_media_topic
close_media close [] s = s
close_media close (t ∷ ts) (p, r) =
    let (p', entry) = unsubscribe_media_topic t close p in
    close_media close ts (p', record r { read_video_streams = r.read_video_streams ++ entry })

unfoldable pub close_writes : Env → List Str → Peer × Reply → Peer × Reply
unfolding unsubscribe_write_data_topic
close_writes e [] s = s
close_writes e (t ∷ ts) (p, r) =
    let (p', entry) = unsubscribe_write_data_topic e t p in
    close_writes e ts (p', record r { write_data_channels = r.write_data_channels ++ entry })

-- The three closing loops, one after the other.
unfoldable pub close_unused : Env → Bool → Peer × Reply → Peer × Reply
unfolding unused_channels unused_tracks close_reads close_media close_writes
close_unused e again s =
    let read = λ (t : Str). mem t s.0.req_read_subs in
    let s₁ = close_reads e (unused_channels read s.0.outbound_data_channels) s in
    let s₂ =
      close_media (again || not s.0.is_connected) (unused_tracks read s₁.0.outbound_media_tracks)
        s₁ in
    close_writes e
      (unused_channels (λ t. writes_to t s₂.0.req_write_subs) s₂.0.inbound_data_channels) s₂

-- The end: an offer where one is needed, and the connection is closed for a peer that has left.
unfoldable pub conclude : Peer × Reply → Peer × Reply
unfolding remove_peer_connection
conclude (p, r) =
    if p.is_connected
    then (if p.negotiation_needed
        then (
          record p { awaiting_peer_reply = true; faulted = p.faulted || not (is_some p.pc) },
          record r { offer = true },
        )
        else (record p { awaiting_peer_reply = false }, r))
    else (remove_peer_connection (record p { awaiting_peer_reply = false }), r)

abbrev pub no_reply : Reply
no_reply = record {
  read_video_streams = [];
  read_data_channels = [];
  write_data_channels = [];
  offer = false;
}

unfoldable pub process_subscriptions : Env → Peer → Peer × Reply
unfolding is_reconnect restart open_reads open_writes close_unused conclude
process_subscriptions e p =
    let again = is_reconnect e p in
    let p' = restart again p in
    let s = open_writes e p'.req_write_subs (open_reads e p'.req_read_subs (p', no_reply)) in
    conclude (close_unused e again s)

-- onDisconnected, up to the peer's place among the connected ones.
unfoldable on_disconnected : Env → Peer → Peer
unfolding process_subscriptions
on_disconnected e p =
    (process_subscriptions e
      (record p { req_read_subs = []; req_write_subs = []; is_connected = false })).0
