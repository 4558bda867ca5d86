-- ===== src/Media/Tracks.antt =====
-- The outputs of TopicReaderH264 in src/topic_reader_h264.cpp as a set of tracks.
use phntm_bridge.Prelude.{
  ℕ, ◌≡◌, refl, ap, sym, ◌∙◌, Bool, true, false, not, ◌&&◌, ◌||◌, List, [], ◌∷◌, ◌++◌, nat_eq,
  nat_eq_iff, if◌then◌else◌, arith, Bool-cases, inl, inr,
}
use phntm_bridge.Media.Frames.{
  Frame, Output, Round, Event, joins, leaves, stable, frame, works, make_output, make_frame,
  has_output, join, leave, offer_frame, offer_all, on_encoded_frame, complete_tracks, tick,
  send_frame, worker_round, work, handle, handle_all,
}

abbrev tracks : List Output → List ℕ
tracks [] = []
tracks (o ∷ os) = o.track ∷ tracks os

abbrev among : ℕ → List ℕ → Bool
among j [] = false
among j (t ∷ ts) = nat_eq t j || among j ts

abbrev single : List ℕ → Bool
single [] = true
single (t ∷ ts) = not (among t ts) && single ts

abbrev dropped : ℕ → List ℕ → List ℕ
dropped j [] = []
dropped j (t ∷ ts) = if nat_eq t j then ts else t ∷ dropped j ts

has_output-among : (j : ℕ) (os : List Output) → has_output j os ≡ among j (tracks os)
unfolding has_output
has_output-among j [] = refl
has_output-among j (o ∷ os) = ground (arith, has_output-among j os)

-- What happens to frames leaves the tracks alone.
tracks-offer_all :
    (is_open : ℕ → Bool) (f : Frame) (os : List Output)
    → tracks (offer_all is_open f os).0 ≡ tracks os
unfolding offer_all offer_frame
tracks-offer_all is_open f [] = refl
tracks-offer_all is_open f (o ∷ os) = ground (arith, tracks-offer_all is_open f os)

tracks-complete_tracks :
    (of_peer : ℕ → Bool) (os : List Output) → tracks (complete_tracks of_peer os) ≡ tracks os
unfolding complete_tracks
tracks-complete_tracks of_peer [] = refl
tracks-complete_tracks of_peer (o ∷ os) = ground (arith, tracks-complete_tracks of_peer os)

worker_round-track :
    (w : Round) (q : List Frame) (o : Output) → o.in_queue ≡ q → (worker_round w o).track ≡ o.track
unfolding worker_round tick send_frame
worker_round-track w [] o e = ground arith
worker_round-track w (f ∷ rest) o e = ground arith

tracks-work : (w : Round) (track : ℕ) (os : List Output) → tracks (work w track os) ≡ tracks os
unfolding work
tracks-work w track [] = refl
tracks-work w track (o ∷ os) =
    ground (arith, tracks-work w track os, worker_round-track w o.in_queue o refl)

tracks-append :
    (track : ℕ) (c : Bool) (os : List Output)
    → tracks (os ++ make_output track c ∷ []) ≡ tracks os ++ track ∷ []
unfolding make_output
tracks-append track c [] = refl
tracks-append track c (o ∷ os) = ap (◌∷◌ o.track) (tracks-append track c os)

tracks-leave : (track : ℕ) (os : List Output) → tracks (leave track os) ≡ dropped track (tracks os)
unfolding leave
tracks-leave track [] = refl
tracks-leave track (o ∷ os) = ground (arith, tracks-leave track os)

among-append : (j t : ℕ) (ts : List ℕ) → among j (ts ++ t ∷ []) ≡ nat_eq t j || among j ts
among-append j t [] = ground arith
among-append j t (u ∷ ts) = ground (arith, among-append j t ts)

single-append :
    (t : ℕ) (ts : List ℕ) → single ts ≡ true → among t ts ≡ false → single (ts ++ t ∷ []) ≡ true
single-append t [] h k = refl
single-append t (u ∷ ts) h k = ground (arith, single-append t ts, among-append u t ts)

among-dropped :
    (j t : ℕ) (ts : List ℕ)
    → single ts ≡ true
    → among j (dropped t ts) ≡ not (nat_eq t j) && among j ts
among-dropped j t [] h = ground arith
among-dropped j t (u ∷ ts) h =
    ground (arith, among-dropped j t ts, nat_eq_iff u t, nat_eq_iff u j, nat_eq_iff t j)

single-dropped : (t : ℕ) (ts : List ℕ) → single ts ≡ true → single (dropped t ts) ≡ true
single-dropped t [] h = refl
single-dropped t (u ∷ ts) h = ground (arith, single-dropped t ts, among-dropped u t ts)

-- The set of tracks that the calls leave: frames and rounds do nothing to it.
abbrev pub replay : List Event → (ℕ → Bool) → ℕ → Bool
replay [] s = s
replay (joins track c ∷ es) s = replay es (λ j. nat_eq track j || s j)
replay (leaves track ∷ es) s = replay es (λ j. not (nat_eq track j) && s j)
replay (stable of_peer ∷ es) s = replay es s
replay (frame running use_pts is_open p ∷ es) s = replay es s
replay (works w track ∷ es) s = replay es s

abbrev Refines : List Output → (ℕ → Bool) → Type 0
Refines os s = (single (tracks os) ≡ true) × ((j : ℕ) → among j (tracks os) ≡ s j)

same_tracks :
    (os os' : List Output) (s : ℕ → Bool) → tracks os' ≡ tracks os → Refines os s → Refines os' s
same_tracks os os' s e (h, k) = (rw e h, λ j. rw e (k j))

run-Refines :
    (es : List Event) (os : List Output) (s : ℕ → Bool) (j : ℕ)
    → Refines os s
    → has_output j (handle_all es os) ≡ replay es s j
unfolding handle_all handle on_encoded_frame join
run-Refines [] os s j (h, k) = has_output-among j os ∙ k j
run-Refines (joins track c ∷ es) os s j (h, k) = elim (Bool-cases (has_output track os)) [
  | inl b ↦
      let there : among track (tracks os) ≡ true = sym (has_output-among track os) ∙ b in
      rw b (
        run-Refines es os (λ i. nat_eq track i || s i) j
          (h, λ i. ground (arith, k i, there, nat_eq_iff track i)))
  | inr b ↦
      let gone : among track (tracks os) ≡ false = sym (has_output-among track os) ∙ b in
      rw b (
        run-Refines es (os ++ make_output track c ∷ []) (λ i. nat_eq track i || s i) j
          (rw (tracks-append track c os) (
            single-append track (tracks os) h gone,
            λ i. among-append i track (tracks os) ∙ ap (λ (x : Bool). nat_eq track i || x) (k i),
          )))
]
run-Refines (leaves track ∷ es) os s j (h, k) =
    run-Refines es (leave track os) (λ i. not (nat_eq track i) && s i) j
      (rw (tracks-leave track os) (
        single-dropped track (tracks os) h,
        λ i.
            among-dropped i track (tracks os) h
            ∙ ap (λ (x : Bool). not (nat_eq track i) && x) (k i),
      ))
run-Refines (stable of_peer ∷ es) os s j r =
    run-Refines es (complete_tracks of_peer os) s j
      (same_tracks os (complete_tracks of_peer os) s (tracks-complete_tracks of_peer os) r)
run-Refines (frame true use_pts is_open p ∷ es) os s j r =
    run-Refines es (offer_all is_open (make_frame use_pts p) os).0 s j (
      same_tracks os (offer_all is_open (make_frame use_pts p) os).0 s
        (tracks-offer_all is_open (make_frame use_pts p) os) r)
run-Refines (frame false use_pts is_open p ∷ es) os s j r = run-Refines es os s j r
run-Refines (works w track ∷ es) os s j r =
    run-Refines es (work w track os) s j
      (same_tracks os (work w track os) s (tracks-work w track os) r)

-- The outputs of a media reader implement a set of tracks: after any events, in any order, a track has
-- an output exactly if it is in the set that the additions and the removals alone leave.
pub handle_all-replay :
    (es : List Event) (track : ℕ)
    → has_output track (handle_all es []) ≡ replay es (λ j. false) track
handle_all-replay es track = run-Refines es [] (λ j. false) track (refl, λ j. refl)
