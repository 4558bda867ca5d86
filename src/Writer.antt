-- ===== src/Writer.antt =====
-- TopicWriterData of src/topic_writer_data.cpp: messages of peers published on ROS topics. A writer
-- is never taken out of the registry, so its topic stands for its address; a data channel is named by
-- its address. `published` is the trace of what went out, by topic.
pub mod Routing
pub mod Inputs
pub mod Examples
use phntm_bridge.Prelude.{
  ℕ, ◌+◌, ◌%◌, Bool, true, false, not, ◌&&◌, ◌||◌, Option, none, some, List, [], ◌∷◌, ◌++◌, Str,
  is_empty, nat_eq, if◌then◌else◌, Map, find, contains, emplace, erase, update, str_key, nat_key,
}

pub record Input : Type 0 where
  pub dc : ℕ
  pub num_received : ℕ
  pub logged_receiving : Bool

pub record Writer : Type 0 where
  pub msg_type : Str
  pub inputs : List Input
  pub pub_exists : Bool

pub record Writers : Type 0 where
  pub writers : Map Str Writer
  pub dc_to_writer_map : Map ℕ Str
  pub published : List (Str × Str)

pub data Message : Type 0 where
  binary text : Str → Message

-- getForTopic, with creation.
unfoldable pub get_for_topic : Str → Str → Writers → Writers
get_for_topic topic msg_type w =
    if contains topic w.writers
    then w
    else (let new : Writer = record { msg_type = msg_type; inputs = []; pub_exists = false } in
        record w { writers = emplace topic new w.writers })

-- getForDC
unfoldable pub get_for_dc : ℕ → Writers → Option Str
get_for_dc dc w = find dc w.dc_to_writer_map

unfoldable pub has_input : ℕ → List Input → Bool
has_input dc [] = false
has_input dc (i ∷ is) = nat_eq i.dc dc || has_input dc is

unfoldable pub remove_first : ℕ → List Input → List Input
remove_first dc [] = []
remove_first dc (i ∷ is) = if nat_eq i.dc dc then is else i ∷ remove_first dc is

-- Does the publisher come about, if it is not there? (`creates`: it does not throw.)
unfoldable pub start : Bool → Writer → Writer
start creates t = if t.pub_exists then t else record t { pub_exists = creates }

unfoldable pub stop : Bool → Writer → Writer
stop ros_ok t =
    if not t.pub_exists then t else (if not ros_ok then t else record t { pub_exists = false })

-- addInput and removeInput of the writer of a topic. Without such a writer there is no call.
unfoldable pub add_input : Bool → Str → ℕ → Writers → Writers × Bool
unfolding has_input start
add_input creates topic dc w = elim (find topic w.writers) [
  | none ↦ (w, false)
  | some t ↦
      if has_input dc t.inputs
      then (w, false)
      else (let i : Input = record { dc = dc; num_received = 0; logged_receiving = false } in
          (
            record w {
              writers =
                  update topic (λ _. start creates (record t { inputs = t.inputs ++ i ∷ [] }))
                    w.writers;
              dc_to_writer_map = emplace dc topic w.dc_to_writer_map;
            },
            true,
          ))
]

unfoldable pub remove_input : Bool → Str → ℕ → Writers → Writers × Bool
unfolding has_input remove_first stop
remove_input ros_ok topic dc w = elim (find topic w.writers) [
  | none ↦ (w, false)
  | some t ↦
      if not (has_input dc t.inputs)
      then (w, false)
      else (let t' : Writer = record t { inputs = remove_first dc t.inputs } in
          (
            record w {
              writers =
                  update topic (λ _. if is_empty t'.inputs then stop ros_ok t' else t') w.writers;
              dc_to_writer_map =
                  if contains dc w.dc_to_writer_map
                  then erase dc w.dc_to_writer_map
                  else w.dc_to_writer_map;
            },
            true,
          ))
]

-- The loop of `onData`: the first input of the channel counts, on 16 bits.
unfoldable pub count_input : ℕ → List Input → List Input
count_input dc [] = []
count_input dc (i ∷ is) =
    if nat_eq i.dc dc
    then record i { num_received = (i.num_received + 1) % 65536; logged_receiving = true } ∷ is
    else i ∷ count_input dc is

-- onData: was the message handled, and does the LED flash? The writer of a channel is there, since
-- none is ever taken out.
unfoldable pub on_data : ℕ → Message → Writers → Writers × Bool × Bool
unfolding get_for_dc count_input
on_data dc (text s) w = (w, false, false)
on_data dc (binary bytes) w = elim (get_for_dc dc w) [
  | none ↦ (w, false, false)
  | some topic ↦ elim (find topic w.writers) [
    | none ↦ (w, false, false)
    | some t ↦ (
      record w {
        writers = update topic (λ _. record t { inputs = count_input dc t.inputs }) w.writers;
        published = if t.pub_exists then w.published ++ (topic, bytes) ∷ [] else w.published;
      },
      true,
      t.pub_exists,
    )
  ]
]
