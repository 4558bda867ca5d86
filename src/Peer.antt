-- ===== src/Peer.antt =====
-- WRTCPeer of src/wrtc_peer.cpp: the state of a peer, and the topics that it asks for.
pub mod Channels
pub mod Process
pub mod Frame
pub mod Requests
pub mod Outbound
pub mod Inbound
pub mod Coverage
pub mod Tracks
pub mod Restart
pub mod Ice
pub mod Negotiation
pub mod Turns
pub mod Idle
pub mod Answers
pub mod Secrets
pub mod Examples
use phntm_bridge.Prelude.{
  ℕ, Bool, true, false, not, ◌&&◌, ◌||◌, Option, none, some, List, [], ◌∷◌, ◌++◌, Str, str_eq, mem,
  if◌then◌else◌, Map, str_key,
}
use phntm_bridge.Reader.{Reader}
use phntm_bridge.Writer.{Writers}
use phntm_bridge.Media.{MediaReader}

-- A data channel: its address and its id.
pub record Channel : Type 0 where
  pub dc : ℕ
  pub channel_id : ℕ

-- MediaTrackInfo: the track's address and the peer connection that it was added to.
pub record Track : Type 0 where
  pub track : ℕ
  pub track_pc : ℕ
  pub in_use : Bool
  pub init_complete : Bool

-- `pc` is the address of the peer connection, `next_addr` one that no object has.
-- `faulted` marks that a null pointer to the peer connection was followed.
-- `discovered_topics` are those of the introspection; the readers and writers are shared by all peers.
pub record Peer : Type 0 where
  pub id_peer : Str
  pub is_connected : Bool
  pub pc : Option ℕ
  pub next_channel_id : ℕ
  pub negotiation_needed : Bool
  pub peer_needs_restart : Bool
  pub awaiting_peer_reply : Bool
  pub req_read_subs : List Str
  pub req_write_subs : List (Str × Str)
  pub outbound_data_channels : Map Str Channel
  pub inbound_data_channels : Map Str Channel
  pub outbound_media_tracks : Map Str Track
  pub faulted : Bool
  pub next_addr : ℕ
  pub discovered_topics : Map Str Str
  pub readers : Map Str Reader
  pub writers : Writers
  pub media_readers : Map Str MediaReader

-- The four requests, on the two lists.
unfoldable pub add_req_read_subscription : Str → List Str → List Str × Bool
add_req_read_subscription topic subs =
    if mem topic subs then (subs, false) else (subs ++ topic ∷ [], true)

unfoldable pub erase_first : Str → List Str → List Str
erase_first topic [] = []
erase_first topic (t ∷ ts) = if str_eq t topic then ts else t ∷ erase_first topic ts

unfoldable pub remove_req_read_subscription : Str → List Str → List Str × Bool
unfolding erase_first
remove_req_read_subscription topic subs =
    if not (mem topic subs) then (subs, false) else (erase_first topic subs, true)

-- The loop of addReqWriteSubscription: `none` where the pair is met, else the list without the
-- entries of the topic that were met.
unfoldable pub drop_other_types : Str → Str → List (Str × Str) → List (Str × Str) × Bool
drop_other_types topic msg_type [] = ([], true)
drop_other_types topic msg_type ((t, ty) ∷ subs) =
    let (rest, go) = drop_other_types topic msg_type subs in
    if str_eq t topic
    then (if str_eq ty msg_type then ((t, ty) ∷ subs, false) else (rest, go))
    else ((t, ty) ∷ rest, go)

unfoldable pub add_req_write_subscription : Str → Str → List (Str × Str) → List (Str × Str) × Bool
unfolding drop_other_types
add_req_write_subscription topic msg_type subs =
    let (rest, go) = drop_other_types topic msg_type subs in
    if go then (rest ++ (topic, msg_type) ∷ [], true) else (rest, false)

unfoldable pub remove_req_write_subscription : Str → List (Str × Str) → List (Str × Str) × Bool
remove_req_write_subscription topic [] = ([], false)
remove_req_write_subscription topic ((t, ty) ∷ subs) =
    let (rest, done) = remove_req_write_subscription topic subs in
    if str_eq t topic then (subs, true) else ((t, ty) ∷ rest, done)

-- Does a list of write requests name the topic?
unfoldable pub writes_to : Str → List (Str × Str) → Bool
writes_to topic [] = false
writes_to topic ((t, ty) ∷ subs) = str_eq t topic || writes_to topic subs
