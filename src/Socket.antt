-- ===== src/Socket.antt =====
-- BridgeSocket of src/sio.cpp, and the calls of WRTCPeer (src/wrtc_peer.cpp) that its handlers make:
-- who is connected, what each peer asks for, and what is answered. A message is what a handler reads
-- of it. An acknowledgement and the start of a peer's work are effects, in their order.
pub mod Handlers
pub mod Replies
pub mod Requests
pub mod Sessions
pub mod Connection
pub mod Announce
pub mod Calls
pub mod Answers
pub mod Examples
use phntm_bridge.Prelude.{
  ℕ, Bool, true, false, not, ◌&&◌, ◌||◌, Option, none, some, List, [], ◌∷◌, ◌++◌, Str, codes,
  is_empty, is_some, if◌then◌else◌, Map, find, contains, str_key,
}
use phntm_bridge.Peer.{
  add_req_read_subscription, remove_req_read_subscription, add_req_write_subscription,
  remove_req_write_subscription,
}

-- A message in an array: what its get_string gives, and where it is an array, what those of its
-- entries give.
pub record Item : Type 0 where
  pub string : Str
  pub vector : Option (List Str)

-- A field of a message that is not there is `none`; one that is no array is `some none`.
abbrev Field : Type 0
Field = Option (Option (List Item))

pub record Event : Type 0 where
  pub need_ack : Bool
  pub id_app : Option Str
  pub id_instance : Option Str
  pub state : Option Str
  pub sources : Field
  pub read : Field
  pub write : Field

-- What a peer asks for, and whether its connection is to be made anew.
pub record Session : Type 0 where
  pub req_read_subs : List Str
  pub req_write_subs : List (Str × Str)
  pub peer_needs_restart : Bool

abbrev pub new_session : Session
new_session = record { req_read_subs = []; req_write_subs = []; peer_needs_restart = false }

abbrev pub Peers : Type 0
Peers = Map Str Session

-- `process_new` is the work of a peer object that was made just now, with its own requests.
pub data Effect : Type 0 where
  ack_success : ℕ → Effect
  ack_error : Str → Effect
  process : Str → Effect
  process_new : Str → Session → Effect
  process_sync : Str → Effect
  sdp_answer : Str → Effect

abbrev pub no_valid_id : Str
no_valid_id = codes "No valid peer id provided"

abbrev not_connected : Str
not_connected = codes "Peer not connected"

abbrev pub text_of : Option Str → Str
text_of none = []
text_of (some s) = s

unfoldable pub get_id : Event → Str
get_id e = if is_some e.id_instance then text_of e.id_instance else text_of e.id_app

-- getConnectedPeer: the peer, and the acknowledgement of an error.
unfoldable pub get_connected_peer : Event → Peers → Option Str × List Effect
unfolding get_id
get_connected_peer e peers =
    if is_empty (get_id e)
    then (none, if e.need_ack then ack_error no_valid_id ∷ [] else [])
    else (if not (contains (get_id e) peers)
        then (none, if e.need_ack then ack_error not_connected ∷ [] else [])
        else (some (get_id e), []))

abbrev pub return_success : Event → List Effect
return_success e = if e.need_ack then ack_success 1 ∷ [] else []

-- The loops over the topics of a request.
unfoldable pub add_reads : List Item → Session → Session
add_reads [] s = s
add_reads (i ∷ is) s =
    add_reads is
      (record s { req_read_subs = (add_req_read_subscription i.string s.req_read_subs).0 })

unfoldable pub remove_reads : List Item → Session → Session
remove_reads [] s = s
remove_reads (i ∷ is) s =
    remove_reads is
      (record s { req_read_subs = (remove_req_read_subscription i.string s.req_read_subs).0 })

unfoldable pub remove_writes : List Item → Session → Session
remove_writes [] s = s
remove_writes (i ∷ is) s =
    remove_writes is
      (record s { req_write_subs = (remove_req_write_subscription i.string s.req_write_subs).0 })

abbrev add_write : Str → Str → Session → Session
add_write topic msg_type s = record s {
  req_write_subs = (add_req_write_subscription topic msg_type s.req_write_subs).0;
}

-- One entry of onSubscribeWrite's array, of which the first two are taken: `none` where it has fewer,
-- and an entry behind its end is read.
unfoldable pub add_first_two : Option (List Str) → Session → Option Session
add_first_two none s = some s
add_first_two (some []) s = none
add_first_two (some (t ∷ [])) s = none
add_first_two (some (t ∷ ty ∷ rest)) s = some (add_write t ty s)

unfoldable pub add_writes : List Item → Session → Option Session
unfolding add_first_two
add_writes [] s = some s
add_writes (i ∷ is) s = elim (add_first_two i.vector s) [ none ↦ none | some s' ↦ add_writes is s' ]

-- One entry of onPeerConnected's array, which is to be a pair.
unfoldable pub add_pair : Option (List Str) → Session → Session
add_pair none s = s
add_pair (some []) s = s
add_pair (some (t ∷ [])) s = s
add_pair (some (t ∷ ty ∷ [])) s = add_write t ty s
add_pair (some (t ∷ ty ∷ x ∷ rest)) s = s

unfoldable pub add_pairs : List Item → Session → Session
unfolding add_pair
add_pairs [] s = s
add_pairs (i ∷ is) s = add_pairs is (add_pair i.vector s)

abbrev pub items : Field → List Item
items none = []
items (some none) = []
items (some (some is)) = is
