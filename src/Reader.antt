-- ===== src/Reader.antt =====
-- TopicReaderData of src/topic_reader_data.cpp: one ROS topic sent into the data channels of peers.
-- Channels and peer connections are named by their addresses, outputs by a serial number (the
-- identity of the shared `Output` object). `sent` is the trace of what the channels have accepted.
pub mod Outputs
pub mod Delivery
pub mod Latest
pub mod Examples
use phntm_bridge.Prelude.{
  ℕ, ◌+◌, ◌%◌, Bool, true, false, not, ◌&&◌, ◌||◌, Option, none, some, List, [], ◌∷◌, ◌++◌, Str,
  is_empty, nat_eq, if◌then◌else◌, Map, find, contains, emplace, erase, str_key,
}

pub record Output : Type 0 where
  pub serial : ℕ
  pub dc : ℕ
  pub pc : ℕ
  pub num_sent : ℕ
  pub init_complete : Bool
  pub active : Bool
  pub logged_closed : Bool
  pub logged_init_incomplete : Bool
  logged_sending : Bool
  pub logged_error : Bool
  pub logged_exception : Bool

-- `sub` says whether the subscription exists; `threads` are the outputs for which a thread of
-- `sendLatestData` was started.
pub record Reader : Type 0 where
  pub topic : Str
  pub msg_type : Str
  pub is_reliable : Bool
  pub outputs : List Output
  pub sub : Bool
  pub latest_payload : Str
  pub logged_receiving : Bool
  pub next_serial : ℕ
  pub threads : List ℕ
  pub sent : List (ℕ × Str)

-- What DataChannel::send answers.
pub data Sending : Type 0 where
  accepted refused runtime_error invalid_argument : Sending

pub record Channels : Type 0 where
  pub is_open : ℕ → Bool
  pub send : ℕ → Sending

-- num_sent++ on a uint16_t
abbrev pub inc16 : ℕ → ℕ
inc16 n = (n + 1) % 65536

unfoldable pub make_reader : Str → Str → Bool → Reader
make_reader topic msg_type is_reliable = record {
  topic = topic;
  msg_type = msg_type;
  is_reliable = is_reliable;
  outputs = [];
  sub = false;
  latest_payload = [];
  logged_receiving = false;
  next_serial = 0;
  threads = [];
  sent = [];
}

-- Does the subscription come about, if it is not there? (`creates`: it does not throw.)
unfoldable pub start : Bool → Reader → Reader
start creates r = if r.sub then r else record r { sub = creates }

unfoldable pub stop : Bool → Reader → Reader
stop ros_ok r =
    if not r.sub
    then r
    else (if not ros_ok then r else record r { sub = false; logged_receiving = false })

unfoldable pub has_output : ℕ → List Output → Bool
has_output dc [] = false
has_output dc (o ∷ os) = nat_eq o.dc dc || has_output dc os

abbrev pub new_output : ℕ → ℕ → ℕ → Output
new_output serial dc pc = record {
  serial = serial;
  dc = dc;
  pc = pc;
  num_sent = 0;
  init_complete = false;
  active = true;
  logged_closed = false;
  logged_init_incomplete = false;
  logged_sending = false;
  logged_error = false;
  logged_exception = false;
}

unfoldable pub add_output : Bool → ℕ → ℕ → Reader → Reader × Bool
unfolding start has_output
add_output creates dc pc r = if has_output dc r.outputs then (r, false) else (
  let r' = start creates (record r {
    outputs = r.outputs ++ new_output r.next_serial dc pc ∷ [];
    next_serial = r.next_serial + 1;
  }) in
      if r'.is_reliable then record r' { threads = r.next_serial ∷ r'.threads } else r',
  true,
)

-- Take the first output of the channel out of the list.
unfoldable pub remove_first : ℕ → List Output → List Output
remove_first dc [] = []
remove_first dc (o ∷ os) = if nat_eq o.dc dc then os else o ∷ remove_first dc os

-- The output that is taken out is not active any more; only its thread still holds it, and finds
-- out by not finding it in the list.
unfoldable pub remove_output : Bool → ℕ → Reader → Reader × Bool
unfolding remove_first stop
remove_output ros_ok dc r =
    let r' : Reader = record r { outputs = remove_first dc r.outputs } in
    if is_empty r'.outputs then (stop ros_ok r', true) else (r', false)

-- One output in the loop of `onData`: what becomes of it, and whether the payload went out.
unfoldable pub send_one : Channels → Output → Output × Bool
send_one c o =
    if not (c.is_open o.dc)
    then (record o { logged_closed = true }, false)
    else (if not o.init_complete
        then (record o { logged_init_incomplete = true }, false)
        else elim (c.send o.dc) [
          | accepted ↦ (
            record o {
              logged_sending = true;
              num_sent = inc16 o.num_sent;
              logged_closed = false;
              logged_init_incomplete = false;
              logged_error = false;
              logged_exception = false;
            },
            true,
          )
          | refused ↦ (record o { logged_sending = true; logged_error = true }, false)
          | runtime_error ↦ (record o { logged_sending = true; logged_exception = true }, false)
          | invalid_argument ↦ (record o { logged_sending = true; logged_exception = true }, false)
        ])

-- The loop of `onData`: the outputs after it, and the channels that took the payload, in order.
unfoldable pub send_all : Channels → List Output → List Output × List ℕ
unfolding send_one
send_all c [] = ([], [])
send_all c (o ∷ os) =
    let (o', went) = send_one c o in
    let (os', dcs) = send_all c os in (o' ∷ os', if went then o.dc ∷ dcs else dcs)

abbrev pub deliveries : Str → List ℕ → List (ℕ × Str)
deliveries payload [] = []
deliveries payload (dc ∷ dcs) = (dc, payload) ∷ deliveries payload dcs

-- The result says whether DataLED::once() is called.
unfoldable pub on_data : Channels → Str → Reader → Reader × Bool
unfolding send_all
on_data c payload r =
    let (os, dcs) = send_all c r.outputs in
    (
      record r {
        latest_payload = payload;
        logged_receiving = true;
        outputs = os;
        sent = r.sent ++ deliveries payload dcs;
      },
      not (is_empty dcs),
    )

-- The first output of a peer connection has seen a stable signaling state.
unfoldable pub complete_first : ℕ → List Output → List Output
complete_first pc [] = []
complete_first pc (o ∷ os) =
    if nat_eq o.pc pc then record o { init_complete = true } ∷ os else o ∷ complete_first pc os

-- onPCSignalingStateChange, over all readers.
unfoldable on_pc_signaling_state_change : Bool → ℕ → Map Str Reader → Map Str Reader
unfolding complete_first
on_pc_signaling_state_change stable pc [] = []
on_pc_signaling_state_change stable pc ((t, r) ∷ rs) =
    let rest = on_pc_signaling_state_change stable pc rs in
    (t, if stable then record r { outputs = complete_first pc r.outputs } else r) ∷ rest

-- The registry: getForTopic with and without creation, and destroy.
unfoldable pub get_for_topic : Str → Str → Bool → Map Str Reader → Map Str Reader × Reader
unfolding make_reader
get_for_topic topic msg_type is_reliable rs = elim (find topic rs) [
  | some r ↦ (rs, r)
  | none ↦ let r = make_reader topic msg_type is_reliable in (emplace topic r rs, r)
]

unfoldable pub destroy : Str → Map Str Reader → Map Str Reader
destroy topic rs = if contains topic rs then erase topic rs else rs
