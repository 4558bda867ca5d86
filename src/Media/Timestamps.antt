-- ===== src/Media/Timestamps.antt =====
-- The RTP timestamps that the workers of TopicReaderH264 in src/topic_reader_h264.cpp give to frames.
use phntm_bridge.Prelude.{
  ℕ, ◌+◌, ◌-◌, ◌%◌, ◌^◌, ◌≡◌, ap, ◌∙◌, Bool, true, false, ◌&&◌, ◌||◌, List, [], ◌∷◌, ◌++◌, nat_eq,
  leb, ltb, length, append-nil, append_assoc, sym, arith, ◌<◌, ◌≤◌,
}
use phntm_bridge.Media.Frames.{Frame, Output, Round, tick, send_frame, worker_round, sub64}

-- The frames as they go out, where the RTP time of the first is `start`.
abbrev pub stamped : ℕ → ℕ → List Frame → List (Frame × ℕ)
stamped start first [] = []
stamped start first (f ∷ fs) = (f, (start + (f.ts - first)) % 2 ^ 32) ∷ stamped start first fs

-- The stamps are 32-bit numbers above `last` that go up.
abbrev rising : ℕ → List Frame → Bool
rising last [] = true
rising last (f ∷ fs) = ltb last f.ts && ltb f.ts (2 ^ 32) && rising f.ts fs

-- Rounds of a running worker, each at its RTP time, for a connection with the one time base.
unfoldable pub rounds : ℕ → List ℕ → Output → Output
unfolding worker_round
rounds base [] o = o
rounds base (now ∷ nows) o =
    rounds base nows
      (worker_round (record { running = true; now_rtp = now; time_base = base; throws = false }) o)

-- How an output stands behind its first frame.
abbrev Runs : ℕ → ℕ → ℕ → ℕ → List Frame → Output → Type 0
Runs base start first last fs o =
    (o.in_queue ≡ fs)
    × (o.active ≡ true)
    × (o.ts_first ≡ first)
    × (o.last_raw_ts ≡ last)
    × (0 < first)
    × (first ≤ last)
    × (sub64 o.ts_offset base % 2 ^ 32 ≡ start % 2 ^ 32)

abbrev run_at : ℕ → ℕ → Round
run_at base now = record { running = true; now_rtp = now; time_base = base; throws = false }

-- One round at a frame that is above the last one.
round_sends :
    (base now start first last : ℕ) (f : Frame) (fs : List Frame) (o : Output)
    → Runs base start first last (f ∷ fs) o
    → last < f.ts
    → f.ts < 2 ^ 32
    → (worker_round (run_at base now) o).sent
      ≡ o.sent ++ (f, (start + (f.ts - first)) % 2 ^ 32) ∷ []
unfolding worker_round tick send_frame
round_sends base now start first last f fs o (q, a, ef, el, p1, p2, st) p3 p4 = ground arith

round-Runs :
    (base now start first last : ℕ) (f : Frame) (fs : List Frame) (o : Output)
    → Runs base start first last (f ∷ fs) o
    → last < f.ts
    → Runs base start first f.ts fs (worker_round (run_at base now) o)
unfolding worker_round tick send_frame
round-Runs base now start first last f fs o (q, a, ef, el, p1, p2, st) p3 = ground arith

rounds_from :
    (base start first last : ℕ) (nows : List ℕ) (fs : List Frame) (o : Output)
    → length nows ≡ length fs
    → Runs base start first last fs o
    → rising last fs ≡ true
    → (rounds base nows o).sent ≡ o.sent ++ stamped start first fs
unfolding rounds
rounds_from base start first last [] [] o e r h = sym (append-nil o.sent)
rounds_from base start first last [] (f ∷ fs) o e r h = ground arith
rounds_from base start first last (now ∷ nows) [] o e r h = ground arith
rounds_from base start first last (now ∷ nows) (f ∷ fs) o e r h =
    let o' : Output = worker_round (run_at base now) o in
    rounds_from base start first f.ts nows fs o' (ground arith)
      (round-Runs base now start first last f fs o r (ground arith)) (ground arith)
    ∙ (ap (λ s. s ++ stamped start first fs)
          (round_sends base now start first last f fs o r (ground arith) (ground arith))
        ∙ append_assoc o.sent (_ ∷ []) (stamped start first fs))

first_sends :
    (base now : ℕ) (f : Frame) (fs : List Frame) (o : Output)
    → o.in_queue ≡ f ∷ fs
    → o.active ≡ true
    → nat_eq o.ts_first 0 || leb f.ts o.last_raw_ts ≡ true
    → (worker_round (run_at base now) o).sent ≡ o.sent ++ (f, sub64 now base % 2 ^ 32) ∷ []
unfolding worker_round tick send_frame
first_sends base now f fs o q a z = ground arith

first-Runs :
    (base now : ℕ) (f : Frame) (fs : List Frame) (o : Output)
    → o.in_queue ≡ f ∷ fs
    → o.active ≡ true
    → nat_eq o.ts_first 0 || leb f.ts o.last_raw_ts ≡ true
    → 0 < f.ts
    → Runs base (sub64 now base) f.ts f.ts fs (worker_round (run_at base now) o)
unfolding worker_round tick send_frame
first-Runs base now f fs o q a z p = ground arith

-- A worker that runs gives the first frame the RTP time of that moment, relative to the base of the
-- connection, and each further one that time plus the distance of its stamp from the first one's, in
-- 32 bits: for frames whose stamps go up, below 2^32 and above 0, and where the first of them starts
-- the clock, because it is the output's first frame or not above the frame before.
pub rounds_stamps :
    (base now : ℕ) (nows : List ℕ) (f : Frame) (fs : List Frame) (o : Output)
    → o.in_queue ≡ f ∷ fs
    → o.active ≡ true
    → nat_eq o.ts_first 0 || leb f.ts o.last_raw_ts ≡ true
    → rising 0 (f ∷ fs) ≡ true
    → length nows ≡ length fs
    → (rounds base (now ∷ nows) o).sent ≡ o.sent ++ stamped (sub64 now base) f.ts (f ∷ fs)
unfolding rounds
rounds_stamps base now nows f fs o q a z h e =
    rounds_from base (sub64 now base) f.ts f.ts nows fs (worker_round (run_at base now) o) e
      (first-Runs base now f fs o q a z (ground arith)) (ground arith)
    ∙ (ap (λ s. s ++ stamped (sub64 now base) f.ts fs) (first_sends base now f fs o q a z)
        ∙ (append_assoc o.sent (_ ∷ []) (stamped (sub64 now base) f.ts fs)
            ∙ ap (λ (t : ℕ). o.sent ++ (f, t) ∷ stamped (sub64 now base) f.ts fs) (omega arith)))
