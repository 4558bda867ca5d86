-- ===== src/Media/Numbers.antt =====
-- The node numbers of the media readers, and their outputs.
use phntm_bridge.Prelude.{
  ℕ, ◌+◌, ◌≡◌, ◌≤◌, refl, Bool, true, false, not, ◌&&◌, ◌||◌, List, [], ◌∷◌, Str, ◌++◌, nat_eq,
  nat_eq_iff, leb, ltb, is_empty, if◌then◌else◌, Map, arith,
}
use phntm_bridge.Media
use phntm_bridge.Media.{MediaReader, highest_reader_no, has_track, remove_track}

-- Every reader's number is below `n`.
abbrev below : ℕ → Map Str MediaReader → Bool
below n [] = true
below n ((t, r) ∷ rs) = ltb r.media_reader_node_no n && below n rs

below_mono : (n m : ℕ) (rs : Map Str MediaReader) → n ≤ m → below n rs ≡ true → below m rs ≡ true
below_mono n m [] h b = refl
below_mono n m ((t, r) ∷ rs) h b = ground (arith, below_mono n m rs h)

highest-grows : (n : ℕ) (rs : Map Str MediaReader) → n ≤ highest_reader_no n rs
unfolding highest_reader_no
highest-grows n [] = omega arith
highest-grows n ((t, r) ∷ rs) = ground (
  arith,
  highest-grows (if leb n r.media_reader_node_no then r.media_reader_node_no + 1 else n) rs,
)

highest-below : (n : ℕ) (rs : Map Str MediaReader) → below (highest_reader_no n rs) rs ≡ true
unfolding highest_reader_no
highest-below n [] = refl
highest-below n ((t, r) ∷ rs) = ground (
  arith,
  highest-grows (if leb n r.media_reader_node_no then r.media_reader_node_no + 1 else n) rs,
  highest-below (if leb n r.media_reader_node_no then r.media_reader_node_no + 1 else n) rs,
)

-- A reader that is started with a node of its own gets a number that is at least 1 and above that of
-- every reader which is registered, whether its subscription is created or fails.
start_number :
    (creates : Bool) (rs : Map Str MediaReader) (r : MediaReader)
    → r.subscriber_running ≡ false
    → r.create_node ≡ true
    → let r' = Media.start creates rs r in
      (below r'.media_reader_node_no rs ≡ true)
      × (1 ≤ r'.media_reader_node_no)
      × (r'.subscriber_running ≡ true)
unfolding Media.start
start_number creates rs r h k = (
  ground (arith, h, k, highest-below 1 rs),
  ground (arith, h, k, highest-grows 1 rs),
  ground (arith, h, k),
)

-- No track stands twice among the outputs.
abbrev Single : List ℕ → Type 0
Single [] = Unit
Single (o ∷ os) = (has_track o os ≡ false) × Single os

has_track-append :
    (t : ℕ) (xs ys : List ℕ) → has_track t (xs ++ ys) ≡ has_track t xs || has_track t ys
unfolding has_track
has_track-append t [] ys = refl
has_track-append t (x ∷ xs) ys = ground (arith, has_track-append t xs ys)

Single-push : (t : ℕ) (os : List ℕ) → Single os → has_track t os ≡ false → Single (os ++ t ∷ [])
unfolding has_track
Single-push t [] s h = (refl, tt)
Single-push t (o ∷ os) s h = (
  ground (arith, has_track-append o os (t ∷ []), nat_eq_iff o t, nat_eq_iff t o),
  Single-push t os s.1 (ground arith),
)

start-outputs :
    (creates : Bool) (rs : Map Str MediaReader) (r : MediaReader)
    → (Media.start creates rs r).outputs ≡ r.outputs
unfolding Media.start
start-outputs creates rs r = ground arith

has_track-remove :
    (t j : ℕ) (os : List ℕ)
    → Single os
    → has_track j (remove_track t os) ≡ has_track j os && not (nat_eq t j)
unfolding has_track remove_track
has_track-remove t j [] s = refl
has_track-remove t j (o ∷ os) s =
    ground (arith, has_track-remove t j os s.1, nat_eq_iff o t, nat_eq_iff o j, nat_eq_iff t j)

Single-remove : (t : ℕ) (os : List ℕ) → Single os → Single (remove_track t os)
unfolding remove_track
Single-remove t [] s = tt
Single-remove t (o ∷ os) s = ground (arith, Single-remove t os s.1, has_track-remove t o os s.1)

-- To add a track makes it an output, once, and starts the reader; to remove it takes it out, and says
-- whether the reader has none left. The other outputs stay.
outputs_lem :
    (creates : Bool) (rs : Map Str MediaReader) (r : MediaReader) (t j : ℕ)
    → Single r.outputs
    → let (added, new) = Media.add_output creates rs t r in
      let (removed, last) = Media.remove_output t r in
      Single added.outputs
      × (new ≡ not (has_track t r.outputs))
      × (has_track j added.outputs ≡ has_track j r.outputs || nat_eq t j)
      × Single removed.outputs
      × (has_track j removed.outputs ≡ has_track j r.outputs && not (nat_eq t j))
      × (last ≡ is_empty removed.outputs)
unfolding Media.add_output Media.remove_output has_track
outputs_lem creates rs r t j s = (
  ground (arith, start-outputs creates rs r, Single-push t r.outputs s),
  ground (arith, start-outputs creates rs r),
  ground (arith, start-outputs creates rs r, has_track-append j r.outputs (t ∷ []), nat_eq_iff t j),
  ground (arith, s, Single-remove t r.outputs s),
  ground (arith, has_track-remove t j r.outputs s),
  ground arith,
)
