-- ===== src/Writer/Inputs.antt =====
-- Inputs that come and go: `addInput` and `removeInput` keep the routes, and decide what is published.
use phntm_bridge.Prelude.{
  ℕ, ◌≡◌, refl, ap, ◌∙◌, inl, inr, Bool, true, false, ◌||◌, Option, none, some, List, [], ◌∷◌, ◌++◌,
  Str, arith, is_empty, nat_eq, nat_eq_iff, if◌then◌else◌, find, emplace, erase, update, contains,
  str_key, nat_key, find-emplace, find-erase, str_eq_iff, Option-cases, Bool-cases,
}
use phntm_bridge.Writer.{
  Writer, Writers, Message, binary, has_input, remove_first, add_input, remove_input, on_data,
  get_for_topic, get_for_dc, start, stop,
}
use phntm_bridge.Writer.Routing.{
  route_ok, Routed, has_input-append, has_input-remove_first, route_ok-update, on_data-Routed,
  get_for_dc-emplace, find_updated, route_new, route_of, on_data_found, on_data_unknown,
}

abbrev extended : Bool → ℕ → Writer → Writer
extended creates dc t = start creates (record t {
  inputs = t.inputs ++ record { dc = dc; num_received = 0; logged_receiving = false } ∷ [];
})

add_input_new :
    (creates : Bool) (topic : Str) (dc : ℕ) (w : Writers) (t : Writer)
    → find topic w.writers ≡ some t
    → has_input dc t.inputs ≡ false
    → add_input creates topic dc w ≡ (
      record w {
        writers = update topic (λ _. extended creates dc t) w.writers;
        dc_to_writer_map = emplace dc topic w.dc_to_writer_map;
      },
      true,
    )
unfolding add_input
add_input_new creates topic dc w t f h = rw (f, add_input, h)

has_input-extended :
    (creates : Bool) (dc j : ℕ) (t : Writer)
    → has_input j (extended creates dc t).inputs ≡ has_input j t.inputs || nat_eq dc j
has_input-extended creates dc j t =
    inputs-start ∙ (has_input-append j t.inputs _ ∙ ap (λ b. has_input j t.inputs || b) (one j))
  where
    inputs-start :
        has_input j (extended creates dc t).inputs
        ≡ has_input j
            (t.inputs ++ record { dc = dc; num_received = 0; logged_receiving = false } ∷ [])
    inputs-start = unfold start in ground arith

    one :
        (j : ℕ)
        → has_input j (record { dc = dc; num_received = 0; logged_receiving = false } ∷ [])
          ≡ nat_eq dc j
    one j = unfold has_input in ground arith

add_input-Routed :
    (creates : Bool) (topic : Str) (dc : ℕ) (w : Writers)
    → Routed w
    → Routed (add_input creates topic dc w).0
add_input-Routed creates topic dc w h j = elim (Option-cases (find topic w.writers)) [
  | inl f ↦ unfold add_input in rw (f, add_input) (h j)
  | inr (t, f) ↦ elim (Bool-cases (has_input dc t.inputs)) [
    | inl there ↦ unfold add_input in rw (f, add_input, there) (h j)
    | inr new ↦ rw (add_input_new creates topic dc w t f new) (routes t f)
  ]
]
  where
    routes :
        (t : Writer)
        → find topic w.writers ≡ some t
        → let w' : Writers = record w {
          writers = update topic (λ _. extended creates dc t) w.writers;
          dc_to_writer_map = emplace dc topic w.dc_to_writer_map;
        } in
          route_ok (get_for_dc j w') j w' ≡ true
    routes t f =
        let w' : Writers = record w {
          writers = update topic (λ _. extended creates dc t) w.writers;
          dc_to_writer_map = emplace dc topic w.dc_to_writer_map;
        } in
        route_of j w' (get_for_dc-emplace dc j topic w w' refl)
          (route_ok-update (get_for_dc j w) j topic t (extended creates dc t) w w' f refl
            (λ k. has_input-extended creates dc j t ∙ ap (λ b. b || nat_eq dc j) k) (h j))
          (λ e.
            route_new topic j w' (extended creates dc t) (find_updated topic t _ w.writers f)
              (has_input-extended creates dc j t ∙ ground (arith, e)))

abbrev reduced : Bool → ℕ → Writer → Writer
reduced ros_ok dc t =
    let t' : Writer = record t { inputs = remove_first dc t.inputs } in
    if is_empty t'.inputs then stop ros_ok t' else t'

abbrev after_removal : Bool → Str → ℕ → Writers → Writer → Writers
after_removal ros_ok topic dc w t = record w {
  writers = update topic (λ _. reduced ros_ok dc t) w.writers;
  dc_to_writer_map =
      if contains dc w.dc_to_writer_map then erase dc w.dc_to_writer_map else w.dc_to_writer_map;
}

remove_input_there :
    (ros_ok : Bool) (topic : Str) (dc : ℕ) (w : Writers) (t : Writer)
    → find topic w.writers ≡ some t
    → has_input dc t.inputs ≡ true
    → remove_input ros_ok topic dc w ≡ (after_removal ros_ok topic dc w t, true)
unfolding remove_input
remove_input_there ros_ok topic dc w t f h = rw (f, remove_input, h)

inputs-reduced :
    (ros_ok : Bool) (dc : ℕ) (t : Writer) → (reduced ros_ok dc t).inputs ≡ remove_first dc t.inputs
inputs-reduced ros_ok dc t = unfold stop in ground arith

get_for_dc-removal :
    (ros_ok : Bool) (topic : Str) (dc j : ℕ) (w : Writers) (t : Writer)
    → get_for_dc j (after_removal ros_ok topic dc w t)
      ≡ (if nat_eq dc j then none else get_for_dc j w)
get_for_dc-removal ros_ok topic dc j w t =
    unfold get_for_dc in ground (arith, find-erase dc j w.dc_to_writer_map, nat_eq_iff dc j)

remove_input-Routed :
    (ros_ok : Bool) (topic : Str) (dc : ℕ) (w : Writers)
    → Routed w
    → Routed (remove_input ros_ok topic dc w).0
remove_input-Routed ros_ok topic dc w h j = elim (Option-cases (find topic w.writers)) [
  | inl f ↦ unfold remove_input in rw (f, remove_input) (h j)
  | inr (t, f) ↦ elim (Bool-cases (has_input dc t.inputs)) [
    | inr gone ↦ unfold remove_input in rw (f, remove_input, gone) (h j)
    | inl there ↦ rw (remove_input_there ros_ok topic dc w t f there) (routes t f)
  ]
]
  where
    routes :
        (t : Writer)
        → find topic w.writers ≡ some t
        → let w' = after_removal ros_ok topic dc w t in route_ok (get_for_dc j w') j w' ≡ true
    routes t f = elim (Bool-cases (nat_eq dc j)) [
      | inl e ↦ rw (get_for_dc-removal ros_ok topic dc j w t, e) refl
      | inr e ↦
          rw (get_for_dc-removal ros_ok topic dc j w t, e)
            (route_ok-update (get_for_dc j w) j topic t (reduced ros_ok dc t) w
              (after_removal ros_ok topic dc w t) f refl
              (λ k.
                ap (has_input j) (inputs-reduced ros_ok dc t)
                ∙ (has_input-remove_first dc j t.inputs e ∙ k))
              (h j))
    ]

get_for_topic-Routed :
    (topic msg_type : Str) (w : Writers) → Routed w → Routed (get_for_topic topic msg_type w)
get_for_topic-Routed topic msg_type w h j = elim (Bool-cases (contains topic w.writers)) [
  | inl c ↦ unfold get_for_topic in rw c (h j)
  | inr c ↦ unfold get_for_topic get_for_dc in rw c (kept (get_for_dc j w) c (h j))
]
  where
    kept :
        (o : Option Str)
        → contains topic w.writers ≡ false
        → route_ok o j w ≡ true
        → let new : Writer = record { msg_type = msg_type; inputs = []; pub_exists = false } in
          route_ok o j (record w { writers = emplace topic new w.writers }) ≡ true
    kept none c k = refl
    kept (some s) c k = ground (
      arith,
      find-emplace topic s (record { msg_type = msg_type; inputs = []; pub_exists = false })
          w.writers,
      str_eq_iff topic s,
    )

-- What can happen to the writers.
pub data Event : Type 0 where
  asks : Str → Str → Event
  adds removes : Bool → Str → ℕ → Event
  gets_data : ℕ → Message → Event

unfoldable pub handle_all : List Event → Writers → Writers
unfolding get_for_topic add_input remove_input on_data
handle_all [] w = w
handle_all (asks topic msg_type ∷ es) w = handle_all es (get_for_topic topic msg_type w)
handle_all (adds creates topic dc ∷ es) w = handle_all es (add_input creates topic dc w).0
handle_all (removes ros_ok topic dc ∷ es) w = handle_all es (remove_input ros_ok topic dc w).0
handle_all (gets_data dc m ∷ es) w = handle_all es (on_data dc m w).0

-- Through any events the entry of a channel names a writer that is there and has the channel among its
-- inputs.
pub handle_all-Routed : (es : List Event) (w : Writers) → Routed w → Routed (handle_all es w)
unfolding handle_all
handle_all-Routed [] w h = h
handle_all-Routed (asks topic m ∷ es) w h =
    handle_all-Routed es _ (get_for_topic-Routed topic m w h)
handle_all-Routed (adds c topic dc ∷ es) w h =
    handle_all-Routed es _ (add_input-Routed c topic dc w h)
handle_all-Routed (removes o topic dc ∷ es) w h =
    handle_all-Routed es _ (remove_input-Routed o topic dc w h)
handle_all-Routed (gets_data dc m ∷ es) w h = handle_all-Routed es _ (on_data-Routed dc m w h)

-- When a channel that has no entry becomes an input of a topic's writer, and the publisher is there or
-- comes about, a binary message on it is published on that topic, and flashes the LED.
add_then_publish :
    (topic : Str) (dc : ℕ) (b : Str) (w : Writers) (t : Writer)
    → find topic w.writers ≡ some t
    → has_input dc t.inputs ≡ false
    → get_for_dc dc w ≡ none
    → let (w', added) = add_input true topic dc w in
      (added ≡ true)
      × ((on_data dc (binary b) w').0.published ≡ w.published ++ (topic, b) ∷ [])
      × ((on_data dc (binary b) w').1 ≡ true)
      × ((on_data dc (binary b) w').2 ≡ true)
add_then_publish topic dc b w t f h g = rw (add_input_new true topic dc w t f h) (
    rw
      (on_data_found dc b new topic (extended true dc t) entry
        (find_updated topic t (extended true dc t) w.writers f))
      (refl, unfold start in ground arith, refl, unfold start in ground arith))
  where
    new : Writers
    new = record w {
      writers = update topic (λ _. extended true dc t) w.writers;
      dc_to_writer_map = emplace dc topic w.dc_to_writer_map;
    }

    unmapped : find dc w.dc_to_writer_map ≡ none
    unmapped = unfold get_for_dc in g

    entry : get_for_dc dc new ≡ some topic
    entry = unfold get_for_dc in ground (arith, find-emplace dc dc topic w.dc_to_writer_map)

-- When an input is taken out, a binary message on its channel is not handled any more and changes
-- nothing; the entries of the other channels stay.
remove_then_silent :
    (ros_ok : Bool) (topic : Str) (dc : ℕ) (b : Str) (w : Writers) (t : Writer)
    → find topic w.writers ≡ some t
    → has_input dc t.inputs ≡ true
    → let (w', removed) = remove_input ros_ok topic dc w in
      (removed ≡ true)
      × (on_data dc (binary b) w' ≡ (w', false, false))
      × ((j : ℕ) → get_for_dc j w' ≡ (if nat_eq dc j then none else get_for_dc j w))
remove_then_silent ros_ok topic dc b w t f h = rw (remove_input_there ros_ok topic dc w t f h) (
  refl,
  on_data_unknown dc b (after_removal ros_ok topic dc w t)
      (get_for_dc-removal ros_ok topic dc dc w t ∙ ground arith),
  λ j. get_for_dc-removal ros_ok topic dc j w t,
)
