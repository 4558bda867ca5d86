-- ===== src/Writer/Routing.antt =====
-- Which messages of which channels are published where.
use phntm_bridge.Prelude.{
  ℕ, ◌≡◌, refl, ap, ◌∙◌, ◌⊎◌, inl, inr, Bool, true, false, ◌||◌, Option, none, some, List, [], ◌∷◌,
  ◌++◌, Str, arith, nat_eq, if◌then◌else◌, Map, find, emplace, update, contains, str_key, nat_key,
  find-update, find-emplace, str_eq_iff, str_eq_refl, Option-cases, Bool-cases,
}
use phntm_bridge.Writer.{
  Input, Writer, Writers, Message, binary, text, has_input, remove_first, count_input, on_data,
  get_for_dc,
}

-- The entry of a channel names a writer that has the channel among its inputs.
abbrev pub route_ok : Option Str → ℕ → Writers → Bool
route_ok none dc w = true
route_ok (some topic) dc w = elim (find topic w.writers) [
  | none ↦ false
  | some t ↦ has_input dc t.inputs
]

abbrev pub Routed : Writers → Type 0
Routed w = (dc : ℕ) → route_ok (get_for_dc dc w) dc w ≡ true

pub has_input-append :
    (dc : ℕ) (xs ys : List Input) → has_input dc (xs ++ ys) ≡ has_input dc xs || has_input dc ys
unfolding has_input
has_input-append dc [] ys = refl
has_input-append dc (i ∷ xs) ys = ground (arith, has_input-append dc xs ys)

pub has_input-remove_first :
    (dc j : ℕ) (is : List Input)
    → nat_eq dc j ≡ false
    → has_input j (remove_first dc is) ≡ has_input j is
unfolding has_input remove_first
has_input-remove_first dc j [] h = refl
has_input-remove_first dc j (i ∷ is) h = ground (arith, has_input-remove_first dc j is h)

has_input-count_input :
    (dc j : ℕ) (is : List Input) → has_input j (count_input dc is) ≡ has_input j is
unfolding has_input count_input
has_input-count_input dc j [] = refl
has_input-count_input dc j (i ∷ is) = ground (arith, has_input-count_input dc j is)

-- Routes only ask which inputs a topic's writer has.
pub route_ok-update :
    (o : Option Str) (j : ℕ) (topic : Str) (t t' : Writer) (w w' : Writers)
    → find topic w.writers ≡ some t
    → w'.writers ≡ update topic (λ _. t') w.writers
    → (has_input j t.inputs ≡ true → has_input j t'.inputs ≡ true)
    → route_ok o j w ≡ true
    → route_ok o j w' ≡ true
route_ok-update none j topic t t' w w' f u k h = refl
route_ok-update (some s) j topic t t' w w' f u k h =
    ground (arith, ap (find s) u, find-update topic s (λ _. t') w.writers, str_eq_iff topic s)

abbrev counted : ℕ → Writer → Writer
counted dc t = record t { inputs = count_input dc t.inputs }

pub on_data_found :
    (dc : ℕ) (b : Str) (w : Writers) (topic : Str) (t : Writer)
    → get_for_dc dc w ≡ some topic
    → find topic w.writers ≡ some t
    → on_data dc (binary b) w ≡ (
      record w {
        writers = update topic (λ _. counted dc t) w.writers;
        published = if t.pub_exists then w.published ++ (topic, b) ∷ [] else w.published;
      },
      true,
      t.pub_exists,
    )
unfolding on_data
on_data_found dc b w topic t e f = rw (e, on_data, f)

pub on_data_unknown :
    (dc : ℕ) (b : Str) (w : Writers)
    → get_for_dc dc w ≡ none
    → on_data dc (binary b) w ≡ (w, false, false)
unfolding on_data
on_data_unknown dc b w e = rw (e, on_data)

on_data_lost :
    (dc : ℕ) (b : Str) (w : Writers) (topic : Str)
    → get_for_dc dc w ≡ some topic
    → find topic w.writers ≡ none
    → on_data dc (binary b) w ≡ (w, false, false)
unfolding on_data
on_data_lost dc b w topic e f = rw (e, on_data, f)

pub on_data-Routed : (dc : ℕ) (m : Message) (w : Writers) → Routed w → Routed (on_data dc m w).0
on_data-Routed dc (text b) w h j = unfold on_data in h j
on_data-Routed dc (binary b) w h j = elim (Option-cases (get_for_dc dc w)) [
  | inl e ↦ rw (on_data_unknown dc b w e) (h j)
  | inr (topic, e) ↦ elim (Option-cases (find topic w.writers)) [
    | inl f ↦ rw (on_data_lost dc b w topic e f) (h j)
    | inr (t, f) ↦ rw (on_data_found dc b w topic t e f) (
        unfold get_for_dc in
        route_ok-update (find j w.dc_to_writer_map) j topic t (counted dc t) w _ f refl
          (λ k. has_input-count_input dc j t.inputs ∙ k) (unfold get_for_dc in h j))
  ]
]

-- Where the entry of a channel after `emplace` comes from.
pub get_for_dc-emplace :
    (dc j : ℕ) (topic : Str) (w w' : Writers)
    → w'.dc_to_writer_map ≡ emplace dc topic w.dc_to_writer_map
    → (get_for_dc j w' ≡ get_for_dc j w) ⊎ ((get_for_dc j w' ≡ some topic) × (nat_eq dc j ≡ true))
get_for_dc-emplace dc j topic w w' u = elim (Bool-cases (contains dc w.dc_to_writer_map)) [
  | inl c ↦ inl (entry ∙ rw c)
  | inr c ↦ elim (Bool-cases (nat_eq dc j)) [
    | inl e ↦ inr (entry ∙ rw (c, e), e)
    | inr e ↦ inl (entry ∙ rw (c, e))
  ]
]
  where
    entry : get_for_dc j w' ≡ (
        if contains dc w.dc_to_writer_map
        then get_for_dc j w
        else (if nat_eq dc j then some topic else get_for_dc j w))
    entry = unfold get_for_dc in ap (find j) u ∙ find-emplace dc j topic w.dc_to_writer_map

pub find_updated :
    (topic : Str) (t t' : Writer) (m : Map Str Writer)
    → find topic m ≡ some t
    → find topic (update topic (λ _. t') m) ≡ some t'
find_updated topic t t' m f = ground (arith, find-update topic topic (λ _. t') m, str_eq_refl topic)

pub route_new :
    (topic : Str) (j : ℕ) (w : Writers) (t : Writer)
    → find topic w.writers ≡ some t
    → has_input j t.inputs ≡ true
    → route_ok (some topic) j w ≡ true
route_new topic j w t f h = ground arith

pub route_of :
    (j : ℕ) (w : Writers) {o o' : Option Str} {topic : Str} {b : Bool}
    → (o' ≡ o) ⊎ ((o' ≡ some topic) × (b ≡ true))
    → route_ok o j w ≡ true
    → (b ≡ true → route_ok (some topic) j w ≡ true)
    → route_ok o' j w ≡ true
route_of j w (inl e) old new = rw e old
route_of j w (inr (e, b)) old new = rw e (new b)
