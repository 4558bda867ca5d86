-- ===== src/Media/Frames.antt =====
-- The frames of TopicReaderH264 in src/topic_reader_h264.cpp: onEncodedFrame, which puts a frame into
-- the queues of the outputs, and outputFramesWorker, which takes them out on a thread of each output.
use phntm_bridge.Prelude.{
  ℕ, ◌+◌, ◌-◌, ◌%◌, ◌^◌, Bool, true, false, not, ◌&&◌, ◌||◌, List, [], ◌∷◌, ◌++◌, Str, nat_eq, leb,
  if◌then◌else◌,
}
use phntm_bridge.Clock.{convert_to_rtp_timestamp}

-- The parts of a FFMPEGPacket that are read here. `pts` and the stamp are bit patterns.
pub record Packet : Type 0 where
  pub flags : ℕ
  pub pts : ℕ
  pub sec : ℕ
  pub nanosec : ℕ
  pub bytes : Str

-- OutputMsg
pub record Frame : Type 0 where
  pub packet : Packet
  pub ts : ℕ
  pub is_keyframe : Bool

-- Output, with its track: `open_track` is what track->isOpen() answers. `sent` are the frames that the
-- track has taken, each with its timestamp.
pub record Output : Type 0 where
  pub track : ℕ
  pub init_complete : Bool
  pub num_sent : ℕ
  pub active : Bool
  pub ts_first : ℕ
  pub ts_offset : ℕ
  pub last_raw_ts : ℕ
  pub start_ts_set : Bool
  pub start_timestamp : ℕ
  pub in_queue : List Frame
  pub logged_closed : Bool
  pub logged_init_incomplete : Bool
  pub logged_error : Bool
  pub logged_exception : Bool
  pub sent : List (Frame × ℕ)

-- The output of a new track.
unfoldable pub make_output : ℕ → Bool → Output
make_output track init_complete = record {
  track = track;
  init_complete = init_complete;
  num_sent = 0;
  active = true;
  ts_first = 0;
  ts_offset = 0;
  last_raw_ts = 0;
  start_ts_set = false;
  start_timestamp = 0;
  in_queue = [];
  logged_closed = false;
  logged_init_incomplete = false;
  logged_error = false;
  logged_exception = false;
  sent = [];
}

unfoldable pub has_output : ℕ → List Output → Bool
has_output track [] = false
has_output track (o ∷ os) = nat_eq o.track track || has_output track os

-- addOutput, once the reader runs.
unfoldable pub join : ℕ → Bool → List Output → List Output
unfolding make_output has_output
join track init_complete os =
    if has_output track os then os else os ++ make_output track init_complete ∷ []

-- removeOutput: the thread of the output ends without sending more.
unfoldable pub leave : ℕ → List Output → List Output
leave track [] = []
leave track (o ∷ os) = if nat_eq o.track track then os else o ∷ leave track os

-- `uint ts`
unfoldable frame_ts : Bool → Packet → ℕ
frame_ts use_pts p = (if use_pts then p.pts else convert_to_rtp_timestamp p.sec p.nanosec) % 2 ^ 32

unfoldable pub make_frame : Bool → Packet → Frame
unfolding frame_ts
make_frame use_pts p = record {
  packet = p;
  ts = frame_ts use_pts p;
  is_keyframe = nat_eq p.flags 1;
}

-- One output of the loop: does the frame go into its queue?
unfoldable pub offer_frame : (ℕ → Bool) → Frame → Output → Output × Bool
offer_frame is_open f o =
    if nat_eq o.num_sent 0 && not f.is_keyframe
    then (o, false)
    else (if not o.init_complete
        then (record o { logged_init_incomplete = true }, false)
        else (if not (is_open o.track)
            then (record o { logged_closed = true }, false)
            else (record o { in_queue = o.in_queue ++ f ∷ [] }, true)))

unfoldable pub offer_all : (ℕ → Bool) → Frame → List Output → List Output × Bool
unfolding offer_frame
offer_all is_open f [] = ([], false)
offer_all is_open f (o ∷ os) =
    let (o', sent) = offer_frame is_open f o in
    let (os', any_sent) = offer_all is_open f os in (o' ∷ os', sent || any_sent)

-- onEncodedFrame; the flag is whether the LED flashes. A reader that does not run does nothing.
unfoldable pub on_encoded_frame :
    Bool → Bool → (ℕ → Bool) → Packet → List Output → List Output × Bool
unfolding make_frame offer_all
on_encoded_frame running use_pts is_open p os =
    if not running then (os, false) else offer_all is_open (make_frame use_pts p) os

-- onPCSignalingStateChange for the tracks of a peer whose connection is stable.
unfoldable pub complete_tracks : (ℕ → Bool) → List Output → List Output
complete_tracks of_peer [] = []
complete_tracks of_peer (o ∷ os) =
    (if of_peer o.track then record o { init_complete = true } else o) ∷ complete_tracks of_peer os

-- What a round of the worker meets: getCurrentRtpTimestamp(), connectedRTPTimeBase(), and whether
-- sendFrame throws.
pub record Round : Type 0 where
  pub running : Bool
  pub now_rtp : ℕ
  pub time_base : ℕ
  pub throws : Bool

abbrev pub sub64 : ℕ → ℕ → ℕ
sub64 a b = (a + (2 ^ 64 - b % 2 ^ 64)) % 2 ^ 64

-- The clock of an output at a frame: a timestamp that is not above the last one starts it again.
unfoldable pub tick : Round → Frame → Output → Output × ℕ
tick w f o =
    let first = if leb f.ts o.last_raw_ts then 0 else o.ts_first in
    if nat_eq first 0
    then (
      record o {
        ts_first = f.ts;
        ts_offset = w.now_rtp;
        last_raw_ts = f.ts;
        start_ts_set = true;
        start_timestamp = if o.start_ts_set then o.start_timestamp else w.time_base % 2 ^ 32;
      },
      sub64 w.now_rtp w.time_base,
    )
    else (
      record o { ts_first = first; last_raw_ts = f.ts },
      sub64 ((sub64 f.ts first + o.ts_offset) % 2 ^ 64) w.time_base,
    )

-- sendFrame, with the timestamp as a uint32_t.
unfoldable pub send_frame : Round → Frame → Output × ℕ → Output
send_frame w f (o, pts) = if w.throws then record o { logged_exception = true } else record o {
  num_sent = (o.num_sent + 1) % 65536;
  logged_closed = false;
  logged_init_incomplete = false;
  logged_error = false;
  logged_exception = false;
  sent = o.sent ++ (f, pts % 2 ^ 32) ∷ [];
}

-- One round of the worker's loop. On an empty queue it waits; for an output or a reader that has
-- stopped it drops the frame.
unfoldable pub worker_round : Round → Output → Output
unfolding tick send_frame
worker_round w o = elim o.in_queue [
  | [] ↦ o
  | f ∷ rest ↦
      let o' = record o { in_queue = rest } in
      if not o.active || not w.running then o' else send_frame w f (tick w f o')
]

-- A round of the thread of one output.
unfoldable pub work : Round → ℕ → List Output → List Output
unfolding worker_round
work w track [] = []
work w track (o ∷ os) = (if nat_eq o.track track then worker_round w o else o) ∷ work w track os

-- What happens to the outputs of a reader, in any order: the threads of the subscriber, the peers and
-- the outputs take the queue and the list one after the other.
pub data Event : Type 0 where
  joins : ℕ → Bool → Event
  leaves : ℕ → Event
  stable : (ℕ → Bool) → Event
  frame : Bool → Bool → (ℕ → Bool) → Packet → Event
  works : Round → ℕ → Event

unfoldable pub handle : Event → List Output → List Output
unfolding join leave complete_tracks on_encoded_frame work
handle (joins track init_complete) os = join track init_complete os
handle (leaves track) os = leave track os
handle (stable of_peer) os = complete_tracks of_peer os
handle (frame running use_pts is_open p) os = (on_encoded_frame running use_pts is_open p os).0
handle (works w track) os = work w track os

unfoldable pub handle_all : List Event → List Output → List Output
unfolding handle
handle_all [] os = os
handle_all (e ∷ es) os = handle_all es (handle e os)
