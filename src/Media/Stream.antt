-- ===== src/Media/Stream.antt =====
-- What a track gets of the frames that TopicReaderH264 of src/topic_reader_h264.cpp receives.
use phntm_bridge.Prelude.{
  ℕ, ◌+◌, ◌%◌, ◌^◌, ◌≡◌, refl, Bool, true, false, not, ◌&&◌, List, [], ◌∷◌, ◌++◌, nat_eq, arith,
}
use phntm_bridge.Media.Frames.{
  Frame, Output, Round, Event, joins, leaves, stable, frame, works, make_output, join, leave,
  make_frame, offer_frame, offer_all, on_encoded_frame, complete_tracks, tick, send_frame,
  worker_round, work, handle, handle_all,
}

abbrev all_keyframes : List Frame → Bool
all_keyframes [] = true
all_keyframes (f ∷ fs) = f.is_keyframe && all_keyframes fs

-- The first frame that was sent is a keyframe.
abbrev opens_with_keyframe : List (Frame × ℕ) → Bool
opens_with_keyframe [] = true
opens_with_keyframe ((f, t) ∷ rest) = f.is_keyframe

abbrev pub all_open : List Output → Bool
all_open [] = true
all_open (o ∷ os) = opens_with_keyframe o.sent && all_open os

-- Until an output has sent something, its counter is 0 and keyframes alone are in its queue.
abbrev well : List (Frame × ℕ) → ℕ → List Frame → Bool
well [] n q = nat_eq n 0 && all_keyframes q
well ((f, t) ∷ rest) n q = f.is_keyframe

abbrev good : Output → Bool
good o = well o.sent o.num_sent o.in_queue

abbrev all_good : List Output → Bool
all_good [] = true
all_good (o ∷ os) = good o && all_good os

all_keyframes-append :
    (q : List Frame) (f : Frame)
    → all_keyframes q ≡ true
    → f.is_keyframe ≡ true
    → all_keyframes (q ++ f ∷ []) ≡ true
all_keyframes-append [] f h k = ground arith
all_keyframes-append (g ∷ q) f h k = ground (arith, all_keyframes-append q f)

-- A frame that may go into the queue of an output keeps it good.
well-offer :
    (s : List (Frame × ℕ)) (n : ℕ) (q : List Frame) (f : Frame)
    → well s n q ≡ true
    → nat_eq n 0 && not f.is_keyframe ≡ false
    → well s n (q ++ f ∷ []) ≡ true
well-offer [] n q f h k = ground (arith, all_keyframes-append q f)
well-offer ((g, t) ∷ s) n q f h k = h

-- The frame at the front may be sent.
well-send :
    (s : List (Frame × ℕ)) (n m t : ℕ) (f : Frame) (q : List Frame)
    → well s n (f ∷ q) ≡ true
    → well (s ++ (f, t) ∷ []) m q ≡ true
well-send [] n m t f q h = ground arith
well-send ((g, u) ∷ s) n m t f q h = h

well-drop :
    (s : List (Frame × ℕ)) (n : ℕ) (f : Frame) (q : List Frame)
    → well s n (f ∷ q) ≡ true
    → well s n q ≡ true
well-drop [] n f q h = ground arith
well-drop ((g, u) ∷ s) n f q h = h

offer_frame-good :
    (is_open : ℕ → Bool) (f : Frame) (o : Output)
    → good o ≡ true
    → good (offer_frame is_open f o).0 ≡ true
unfolding offer_frame
offer_frame-good is_open f o h = ground (arith, well-offer o.sent o.num_sent o.in_queue f)

offer_all-good :
    (is_open : ℕ → Bool) (f : Frame) (os : List Output)
    → all_good os ≡ true
    → all_good (offer_all is_open f os).0 ≡ true
unfolding offer_all
offer_all-good is_open f [] h = refl
offer_all-good is_open f (o ∷ os) h =
    ground (arith, offer_frame-good is_open f o, offer_all-good is_open f os)

join-good :
    (track : ℕ) (init_complete : Bool) (os : List Output)
    → all_good os ≡ true
    → all_good (os ++ make_output track init_complete ∷ []) ≡ true
unfolding make_output
join-good track init_complete [] h = refl
join-good track init_complete (o ∷ os) h = ground (arith, join-good track init_complete os)

leave-good : (track : ℕ) (os : List Output) → all_good os ≡ true → all_good (leave track os) ≡ true
unfolding leave
leave-good track [] h = refl
leave-good track (o ∷ os) h = ground (arith, leave-good track os)

complete_tracks-good :
    (of_peer : ℕ → Bool) (os : List Output)
    → all_good os ≡ true
    → all_good (complete_tracks of_peer os) ≡ true
unfolding complete_tracks
complete_tracks-good of_peer [] h = refl
complete_tracks-good of_peer (o ∷ os) h = ground (arith, complete_tracks-good of_peer os)

send_good :
    (w : Round) (f : Frame) (rest : List Frame) (o : Output) (p : Output × ℕ)
    → well o.sent o.num_sent (f ∷ rest) ≡ true
    → p.0.sent ≡ o.sent
    → p.0.num_sent ≡ o.num_sent
    → p.0.in_queue ≡ rest
    → good (send_frame w f p) ≡ true
unfolding send_frame
send_good w f rest o (o', t) h a b c = rw a (
    rw b (
      rw c (
        ground (
          arith,
          well-drop o.sent o.num_sent f rest,
          well-send o.sent o.num_sent ((o.num_sent + 1) % 65536) (t % 2 ^ 32) f rest,
        ))))

tick_keeps :
    (w : Round) (f : Frame) (o : Output)
    → ((tick w f o).0.sent ≡ o.sent)
      × ((tick w f o).0.num_sent ≡ o.num_sent)
      × ((tick w f o).0.in_queue ≡ o.in_queue)
unfolding tick
tick_keeps w f o = ground arith

-- A round on a queue that is given.
round_good :
    (w : Round) (q : List Frame) (o : Output)
    → o.in_queue ≡ q
    → well o.sent o.num_sent q ≡ true
    → good (worker_round w o) ≡ true
unfolding worker_round
round_good w [] o e h = rw e h
round_good w (f ∷ rest) o e h =
    let o' : Output = record o { in_queue = rest } in
    let k = tick_keeps w f o' in
    rw e (
      ground (
        arith,
        well-drop o.sent o.num_sent f rest,
        send_good w f rest o (tick w f o') h k.0 k.1 k.2,
      ))

work-good :
    (w : Round) (track : ℕ) (os : List Output)
    → all_good os ≡ true
    → all_good (work w track os) ≡ true
unfolding work
work-good w track [] h = refl
work-good w track (o ∷ os) h = ground (arith, work-good w track os, round_good w o.in_queue o refl)

handle-good : (e : Event) (os : List Output) → all_good os ≡ true → all_good (handle e os) ≡ true
unfolding handle join on_encoded_frame
handle-good (joins track c) os h = ground (arith, join-good track c os)
handle-good (leaves track) os h = leave-good track os h
handle-good (stable of_peer) os h = complete_tracks-good of_peer os h
handle-good (frame running use_pts is_open p) os h =
    ground (arith, offer_all-good is_open (make_frame use_pts p) os)
handle-good (works w track) os h = work-good w track os h

handle_all-good :
    (es : List Event) (os : List Output) → all_good os ≡ true → all_good (handle_all es os) ≡ true
unfolding handle_all
handle_all-good [] os h = h
handle_all-good (e ∷ es) os h = handle_all-good es (handle e os) (handle-good e os h)

well-opens :
    (s : List (Frame × ℕ)) (n : ℕ) (q : List Frame)
    → well s n q ≡ true
    → opens_with_keyframe s ≡ true
well-opens [] n q h = refl
well-opens ((f, t) ∷ s) n q h = h

all_good-open : (os : List Output) → all_good os ≡ true → all_open os ≡ true
all_good-open [] h = refl
all_good-open (o ∷ os) h = ground (arith, all_good-open os, well-opens o.sent o.num_sent o.in_queue)

-- After any events, from a reader with no outputs on, the first frame that each output's track has
-- been sent is a keyframe.
pub handle_all-opens : (es : List Event) → all_open (handle_all es []) ≡ true
handle_all-opens es = all_good-open (handle_all es []) (handle_all-good es [] refl)
