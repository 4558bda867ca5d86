-- ===== src/Peer/Examples.antt =====
-- A peer of src/wrtc_peer.cpp, with concrete requests.
use phntm_bridge.Prelude.{
  ◌<◌, Bool, ◌≡◌, refl, true, false, some, List, [], ◌∷◌, Str, codes, mem, find, str_eq, str_key,
  count, get_elem?, ◌+◌, ◌||◌, nat_key, arith,
}
use phntm_bridge.Writer.{Writers}
use phntm_bridge.Media.{image_msg_type, is_image_or_video_type}
use phntm_bridge.Introspection.Lookup.{get_topic}
use phntm_bridge.Peer.{Peer, writes_to}
use phntm_bridge.Peer.Channels.{Env}
use phntm_bridge.Peer.Process.{process_subscriptions, is_reconnect}
use phntm_bridge.Peer.Outbound.{has_read}
use phntm_bridge.Peer.Inbound.{has_write}
use phntm_bridge.Peer.Coverage.{process_channels}
use phntm_bridge.Peer.Tracks.{home}
use phntm_bridge.Peer.Restart.{restart_keeps_track}
use phntm_bridge.Text.{strip_prefix}
use phntm_bridge.Peer.Ice.{turn_servers}
use phntm_bridge.Peer.Negotiation.{
  Phase, over, Finds, run_step, Event, process, step, answer, handle, handle_all, new_peer,
}
use phntm_bridge.Peer.Turns.{is_offering, is_behind, is_past, one_if, runs_take_turns}
use phntm_bridge.Peer.Idle.{idle_run_ends}
use phntm_bridge.Peer.Answers.{answer_lets_next_in}
use phntm_bridge.Peer.Secrets.{Added, turn_servers-hidden}

abbrev world : Env
world = record {
  reliable = λ t. true;
  create_node = λ t. true;
  creates = true;
  ros_ok = true;
  socket_connected = true;
  pc_failed = false;
}

abbrev no_writers : Writers
no_writers = record { writers = []; dc_to_writer_map = []; published = [] }

-- A new peer that asks for a data topic, for one that is not there, and to write one.
abbrev viewer : Peer
viewer = record {
  id_peer = codes "p1";
  is_connected = true;
  pc = some 7;
  next_channel_id = 0;
  negotiation_needed = false;
  peer_needs_restart = false;
  awaiting_peer_reply = false;
  req_read_subs = codes "/odom" ∷ codes "/lost" ∷ [];
  req_write_subs = (codes "/cmd", codes "Twist") ∷ [];
  outbound_data_channels = [];
  inbound_data_channels = [];
  outbound_media_tracks = [];
  faulted = false;
  next_addr = 20;
  discovered_topics = (codes "/cam", image_msg_type) ∷ (codes "/odom", codes "Odometry") ∷ [];
  readers = [];
  writers = no_writers;
  media_readers = [];
}

process_channels_example :
    (has_read (codes "/odom") (process_subscriptions world viewer).0 ≡ true)
    × (has_write (codes "/odom") (process_subscriptions world viewer).0 ≡ false)
unfolding is_reconnect mem get_topic find str_eq writes_to is_image_or_video_type
process_channels_example = process_channels world viewer (codes "/odom") refl

-- The peer wants its connection anew while it watches a camera.
abbrev watcher : Peer
watcher = record viewer {
  req_read_subs = codes "/cam" ∷ [];
  peer_needs_restart = true;
  outbound_media_tracks =
      (codes "/cam", record { track = 9; track_pc = 7; in_use = true; init_complete = true }) ∷ [];
}

restart_keeps_track_example :
    ((process_subscriptions world watcher).0.pc ≡ some 20)
    × (home (codes "/cam") (process_subscriptions world watcher).0.outbound_media_tracks
        ≡ some (9, 7))
unfolding is_reconnect mem find str_eq
restart_keeps_track_example = restart_keeps_track world watcher (codes "/cam") refl refl refl

-- The second server is refused.
abbrev first_only : Str → Bool
first_only url = mem 97 url

turn_servers-hidden_example :
    (r : List (Str × Str) × Bool) × (turn_servers first_only
        (codes "p1")
        (codes "user")
        (codes "pw")
        (codes "turn:a.io" ∷ codes "stun:b" ∷ codes "turn:c.io" ∷ [])
      ≡ some r)
    × Added (codes "p1") (codes "pw") (codes "turn://user:pw@a.io" ∷ [], true) r
unfolding mem strip_prefix
turn_servers-hidden_example =
    turn_servers-hidden first_only (codes "p1") (codes "user") (codes "pw")
      (codes "turn:a.io" ∷ codes "stun:b" ∷ codes "turn:c.io" ∷ []) (λ q. ground (arith, q)) refl

abbrev finds : Finds
finds = record { is_reconnect = false; negotiation_needed = true; offer_ready = true }

-- Two runs, the first of which has offered a session.
abbrev two_runs : List Event
two_runs = process ∷ process ∷ step 0 finds ∷ step 0 finds ∷ step 0 finds ∷ step 1 finds ∷ []

runs_take_turns_example :
    let p = handle_all two_runs (new_peer true) in
    (count is_offering p.runs + count is_behind p.runs ≡ one_if p.shared.locked)
    × (count is_offering p.runs ≡ 1 → p.shared.awaiting_peer_reply ≡ false)
    × (p.shared.awaiting_peer_reply ≡ true
        → p.shared.is_connected ≡ true
        → 0 < count is_past p.runs
        → count is_behind p.runs ≡ 1)
runs_take_turns_example = runs_take_turns true two_runs

abbrev nothing_new : Finds
nothing_new = record { is_reconnect = false; negotiation_needed = false; offer_ready = false }

idle_run_ends_example :
    let p = handle process (new_peer true) in
    let p' =
      handle (step 0 nothing_new) (handle (step 0 nothing_new) (handle (step 0 nothing_new) p)) in
    (get_elem? p'.runs 0 ≡ some over) × (p'.shared.locked ≡ false)
unfolding handle
idle_run_ends_example =
    idle_run_ends (handle process (new_peer true)) 0 nothing_new nothing_new nothing_new refl refl
      refl refl

answer_lets_next_in_example :
    let p₁ = handle (step 0 finds) (handle (answer true) (handle_all two_runs (new_peer true))) in
    let p₂ = handle (step 1 finds) p₁ in
    (get_elem? p₁.runs 0 ≡ some over)
    × (p₂.shared.locked ≡ true)
    × ((q : Phase) × (get_elem? p₂.runs 1 ≡ some q) × (is_offering q || is_behind q ≡ true))
unfolding handle_all handle run_step
answer_lets_next_in_example =
    answer_lets_next_in true two_runs (answer true) 0 1 finds finds refl refl refl refl
