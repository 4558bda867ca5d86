-- ===== src/Media/Examples.antt =====
-- Media readers of src/topic_reader_h264.cpp, with concrete tracks.
use phntm_bridge.Prelude.{
  ℕ, ◌≡◌, refl, Bool, true, false, All, codes, List, [], ◌∷◌, ◌++◌, Str, map,
}
use phntm_bridge.Media.Encoder.{Image, encode_all}
use phntm_bridge.Media.Encoded.{Fits, no_encoder, encode_all-Fits}
use phntm_bridge.Media.Nal.{split_nal_units, zeros}
use phntm_bridge.Media.AnnexB.{annex_b, split_nal_units-annex_b}
use phntm_bridge.Media.Frames.{
  Packet, Frame, Output, Round, Event, joins, stable, frame, works, make_output, has_output, leaves,
  handle_all, sub64,
}
use phntm_bridge.Media.Stream.{all_open, handle_all-opens}
use phntm_bridge.Media.Tracks.{replay, handle_all-replay}
use phntm_bridge.Media.Timestamps.{rounds, stamped, rounds_stamps}

-- An SPS behind a long start code and a slice behind a short one.
abbrev nal_stream : List (Bool × Str)
nal_stream = (true, 103 ∷ 66 ∷ 0 ∷ 31 ∷ []) ∷ (false, 65 ∷ 0 ∷ 0 ∷ 2 ∷ []) ∷ []

split_nal_units-annex_b_example : split_nal_units (annex_b nal_stream) ≡ map (λ p. p.1) nal_stream
unfolding zeros
split_nal_units-annex_b_example = split_nal_units-annex_b nal_stream refl

abbrev packet_at : ℕ → ℕ → Packet
packet_at flags pts = record { flags = flags; pts = pts; sec = 0; nanosec = 0; bytes = 1 ∷ [] }

abbrev round : Round
round = record { running = true; now_rtp = 500; time_base = 100; throws = false }

abbrev stream_events : List Event
stream_events =
    joins 7 false
    ∷ stable (λ t. true)
    ∷ frame true true (λ t. true) (packet_at 0 90)
    ∷ frame true true (λ t. true) (packet_at 1 3000)
    ∷ works round 7
    ∷ frame true true (λ t. true) (packet_at 0 6000)
    ∷ works round 7
    ∷ []

handle_all-opens_example : all_open (handle_all stream_events []) ≡ true
handle_all-opens_example = handle_all-opens stream_events

abbrev frame_at : ℕ → Frame
frame_at ts = record { packet = packet_at 1 ts; ts = ts; is_keyframe = true }

abbrev queued : Output
queued = record (make_output 7 true) { in_queue = frame_at 3000 ∷ frame_at 6000 ∷ [] }

rounds_stamps_example :
    (rounds 100 (500 ∷ 510 ∷ []) queued).sent
    ≡ queued.sent ++ stamped (sub64 500 100) 3000 (frame_at 3000 ∷ frame_at 6000 ∷ [])
unfolding make_output
rounds_stamps_example =
    rounds_stamps 100 500 (510 ∷ []) (frame_at 3000) (frame_at 6000 ∷ []) queued refl refl refl refl
      refl

abbrev track_events : List Event
track_events = joins 8 true ∷ leaves 8 ∷ stream_events

handle_all-replay_example :
    has_output 7 (handle_all track_events []) ≡ replay track_events (λ j. false) 7
handle_all-replay_example = handle_all-replay track_events 7

abbrev picture : Image
picture = record { width = 4; height = 2; encoding = codes "RGB8"; size = 24 }

-- A picture, and a gray one of another size.
abbrev pictures : List (Bool × (Bool × Image))
pictures =
    (true, (true, picture))
    ∷ (true, (true, record { width = 2; height = 2; encoding = codes "mono8"; size = 4 }))
    ∷ []

encode_all-Fits_example : All Fits (encode_all pictures (no_encoder false))
encode_all-Fits_example = encode_all-Fits false pictures
