-- ===== src/Peer/Channels.antt =====
-- The data channels and media tracks of a peer: subscribe and unsubscribe of src/wrtc_peer.cpp, and
-- open and close of a track of src/topic_reader_h264.cpp.
use phntm_bridge.Prelude.{
  ℕ, ◌+◌, ◌%◌, Bool, true, false, not, ◌&&◌, Option, none, some, List, [], ◌∷◌, Str, codes, str_eq,
  if◌then◌else◌, Map, find, contains, emplace, erase, update, str_key,
}
use phntm_bridge.Reader
use phntm_bridge.Reader.{Reader}
use phntm_bridge.Writer
use phntm_bridge.Media
use phntm_bridge.Media.{MediaReader, is_image_or_video_type}
use phntm_bridge.Peer.{Peer, Channel, Track}

-- What a run of the subscriptions meets outside: loadTopicQoSConfig(topic).reliability, the entry
-- `create_node` of the topic's configuration, whether subscriptions and publishers can be created,
-- rclcpp::ok(), BridgeSocket::isConnected(), and whether the peer connection has failed or its ICE
-- agent is closed.
pub record Env : Type 0 where
  pub reliable : Str → Bool
  pub create_node : Str → Bool
  pub creates : Bool
  pub ros_ok : Bool
  pub socket_connected : Bool
  pub pc_failed : Bool

-- An entry of the reply to the peer. One without an id says that the channel is gone.
pub data Entry : Type 0 where
  data_channel : Str → ℕ → Str → Bool → Entry
  write_channel : Str → ℕ → Str → Entry
  video_stream : Str → ℕ → Entry
  removed : Str → Entry

abbrev heartbeat_channel_id : Str
heartbeat_channel_id = codes "_heartbeat"

-- ++this->next_channel_id, on a uint16_t
abbrev pub next_id : ℕ → ℕ
next_id n = (n + 1) % 65536

-- openDataChannelForTopic
unfoldable open_data_channel : Str → Bool → Peer → Peer
open_data_channel topic write p = elim p.pc [
  | none ↦ record p { faulted = true }
  | some pc ↦
      let ch : Channel = record { dc = p.next_addr; channel_id = next_id p.next_channel_id } in
      let p' : Peer = record p {
        next_channel_id = next_id p.next_channel_id;
        next_addr = p.next_addr + 1;
      } in
      if write
      then record p' { inbound_data_channels = emplace topic ch p.inbound_data_channels }
      else record p' { outbound_data_channels = emplace topic ch p.outbound_data_channels }
]

-- topic_reader->addOutput(dc, this->pc), on the reader that getForTopic finds or makes.
abbrev join_reader : Env → Str → Str → ℕ → Option ℕ → Map Str Reader → Map Str Reader
join_reader e topic msg_type dc none rs = rs
join_reader e topic msg_type dc (some pc) rs =
    update topic (λ r. (Reader.add_output e.creates dc pc r).0)
      (Reader.get_for_topic topic msg_type (e.reliable topic) rs).0

unfoldable pub subscribe_read_data_topic : Env → Str → Str → Peer → Peer × List Entry
unfolding open_data_channel
subscribe_read_data_topic e topic msg_type p =
    let p' =
      if contains topic p.outbound_data_channels
      then p
      else record (open_data_channel topic false p) { negotiation_needed = true } in
    elim (find topic p'.outbound_data_channels) [
      | none ↦ (p', [])
      | some ch ↦ (
        record p' { readers = join_reader e topic msg_type ch.dc p'.pc p'.readers },
        data_channel topic ch.channel_id msg_type (e.reliable topic) ∷ [],
      )
    ]

unfoldable pub subscribe_write_data_topic : Env → Str → Str → Peer → Peer × List Entry
unfolding open_data_channel
subscribe_write_data_topic e topic msg_type p =
    let p' =
      if contains topic p.inbound_data_channels
      then p
      else record (open_data_channel topic true p) { negotiation_needed = true } in
    elim (find topic p'.inbound_data_channels) [
      | none ↦ (p', [])
      | some ch ↦ (
        if str_eq topic heartbeat_channel_id then p' else record p' {
          writers =
              (Writer.add_input e.creates topic ch.dc
                (Writer.get_for_topic topic msg_type p'.writers)).0;
        },
        write_channel topic ch.channel_id msg_type ∷ [],
      )
    ]

-- The end of a channel in its reader: removeOutput, and destroy if it was the last.
abbrev leave_reader : Env → Str → ℕ → Map Str Reader → Map Str Reader
leave_reader e topic dc rs = elim (find topic rs) [
  | none ↦ rs
  | some r ↦
      let (r', last) = Reader.remove_output e.ros_ok dc r in
      if last then Reader.destroy topic (update topic (λ _. r') rs) else update topic (λ _. r') rs
]

unfoldable pub unsubscribe_read_data_topic : Env → Str → Peer → Peer × List Entry
unsubscribe_read_data_topic e topic p = elim (find topic p.outbound_data_channels) [
  | none ↦ (p, [])
  | some ch ↦ (
    record p {
      readers =
          if str_eq topic heartbeat_channel_id
          then p.readers
          else leave_reader e topic ch.dc p.readers;
      outbound_data_channels = erase topic p.outbound_data_channels;
    },
    removed topic ∷ [],
  )
]

unfoldable pub unsubscribe_write_data_topic : Env → Str → Peer → Peer × List Entry
unsubscribe_write_data_topic e topic p = elim (find topic p.inbound_data_channels) [
  | none ↦ (p, [])
  | some ch ↦ (
    record p {
      writers =
          if str_eq topic heartbeat_channel_id
          then p.writers
          else (Writer.remove_input e.ros_ok topic ch.dc p.writers).0;
      inbound_data_channels = erase topic p.inbound_data_channels;
    },
    removed topic ∷ [],
  )
]

-- openMediaTrackForTopic
unfoldable open_media_track : Str → Peer → Peer
open_media_track topic p = elim p.pc [
  | none ↦ record p { faulted = true }
  | some pc ↦
      let info : Track = record {
        track = p.next_addr;
        track_pc = pc;
        in_use = true;
        init_complete = false;
      } in
      record p {
        next_addr = p.next_addr + 1;
        outbound_media_tracks = emplace topic info p.outbound_media_tracks;
      }
]

abbrev join_media : Env → Str → Str → ℕ → Map Str MediaReader → Map Str MediaReader
join_media e topic msg_type track rs =
    let rs' = Media.get_for_topic topic msg_type (e.create_node topic) rs in
    update topic (λ r. (Media.add_output e.creates rs' track r).0) rs'

-- The caller has seen that the type is one of an image or a video.
unfoldable pub subscribe_media_topic : Env → Str → Str → Peer → Peer × List Entry
unfolding open_media_track
subscribe_media_topic e topic msg_type p =
    let p' =
      if contains topic p.outbound_media_tracks
      then record p {
        outbound_media_tracks =
            update topic (λ t. record t { in_use = true }) p.outbound_media_tracks;
      }
      else record (open_media_track topic p) { negotiation_needed = true } in
    elim (find topic p'.outbound_media_tracks) [
      | none ↦ (p', [])
      | some t ↦ (
        record p' {
          media_readers =
              if is_image_or_video_type msg_type
              then join_media e topic msg_type t.track p'.media_readers
              else p'.media_readers;
        },
        video_stream topic t.track ∷ [],
      )
    ]

abbrev leave_media : Str → ℕ → Map Str MediaReader → Map Str MediaReader
leave_media topic track rs = elim (find topic rs) [
  | none ↦ rs
  | some r ↦
      let (r', last) = Media.remove_output track r in
      if last then Media.destroy topic (update topic (λ _. r') rs) else update topic (λ _. r') rs
]

unfoldable pub unsubscribe_media_topic : Str → Bool → Peer → Peer × List Entry
unsubscribe_media_topic topic close_channel p = elim (find topic p.outbound_media_tracks) [
  | none ↦ (p, [])
  | some t ↦ if not t.in_use && not close_channel then (p, []) else (
    record p {
      media_readers = leave_media topic t.track p.media_readers;
      outbound_media_tracks =
          if close_channel
          then erase topic p.outbound_media_tracks
          else update topic (λ i. record i { in_use = false }) p.outbound_media_tracks;
    },
    removed topic ∷ [],
  )
]
