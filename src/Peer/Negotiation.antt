-- ===== src/Peer/Negotiation.antt =====
-- The negotiation of WRTCPeer in src/wrtc_peer.cpp: the runs of processSubscriptionsSync on their threads,
-- one at a time behind a mutex, each of which may offer a session and then waits for the peer's answer,
-- which comes by onSDPAnswer or onSIOOfferReply. What a run does to the channels is in Peer.Process.
use phntm_bridge.Prelude.{
  ℕ, Bool, true, false, not, ◌&&◌, ◌||◌, ◌+◌, Option, none, some, List, [], ◌∷◌, ◌++◌, get_elem?,
  set_at, if◌then◌else◌,
}

-- Where a run is: before its lock, waiting for the local offer, in front of its update of the peer,
-- waiting for the answer, or over. The flag is `is_reconnect`.
pub data Phase : Type 0 where
  queued : Phase
  offering updating : Bool → Phase
  waiting over : Phase

-- `have_local_offer` is the signaling state; `has_pc` whether there is a connection at all. `updates`
-- counts what was sent to the peer.
pub record Shared : Type 0 where
  pub locked : Bool
  pub is_connected : Bool
  pub awaiting_peer_reply : Bool
  pub has_pc : Bool
  pub have_local_offer : Bool
  pub updates : ℕ

-- What a step finds: that the run reconnects, that it needs a negotiation, and that the local offer is
-- ready.
pub record Finds : Type 0 where
  pub is_reconnect : Bool
  pub negotiation_needed : Bool
  pub offer_ready : Bool

abbrev unlock : Shared → Phase × Shared
unlock s = (over, record s { locked = false })

-- A step of a run: it locks the mutex where that is free, makes the connection anew if it is to, and
-- looks whether to negotiate, which sets a local offer; it waits for that offer, unless the peer goes;
-- it updates the peer, or cleans up; and it waits until the answer was handled, or the peer has gone.
unfoldable pub run_step : Finds → Phase → Shared → Phase × Shared
run_step f queued s = if s.locked then (queued, s) else (
  (if s.is_connected && (f.negotiation_needed || f.is_reconnect)
      then offering f.is_reconnect
      else updating (f.is_reconnect && s.is_connected)),
  record s {
    locked = true;
    awaiting_peer_reply = false;
    has_pc = (f.is_reconnect && s.is_connected) || s.has_pc;
    have_local_offer =
        (s.is_connected && (f.negotiation_needed || f.is_reconnect))
        || (not (f.is_reconnect && s.is_connected) && s.have_local_offer);
  },
)
run_step f (offering r) s =
    if not f.offer_ready && s.is_connected
    then (offering r, s)
    else (updating r, record s { awaiting_peer_reply = true })
run_step f (updating r) s =
    if not s.is_connected && not r
    then unlock (record s { has_pc = false; have_local_offer = false })
    else (if s.is_connected then (waiting, record s { updates = 1 + s.updates }) else unlock s)
run_step f waiting s = if s.awaiting_peer_reply && s.is_connected then (waiting, s) else unlock s
run_step f over s = (over, s)

-- onSDPAnswer; the flag is whether the message has an `sdp` that libdatachannel takes as a description
-- and as the remote one. `none`, and the state stays as it is: there is no connection, and a null
-- pointer is followed; or an exception is thrown, by `at` where there is no `sdp`, or by
-- libdatachannel where it refuses it, before awaiting_peer_reply is reset.
unfoldable pub on_sdp_answer : Bool → Shared → Option Shared
on_sdp_answer takes_sdp s =
    if not s.has_pc
    then none
    else (if not s.have_local_offer
        then some (record s { awaiting_peer_reply = false })
        else (if not takes_sdp
            then none
            else some (record s { awaiting_peer_reply = false; have_local_offer = false })))

-- onSIOOfferReply; the first flag is whether the message has an `err`.
unfoldable pub on_sio_offer_reply : Bool → Bool → Shared → Option Shared
unfolding on_sdp_answer
on_sio_offer_reply has_err takes_sdp s =
    if has_err then some (record s { awaiting_peer_reply = false }) else on_sdp_answer takes_sdp s

-- The first part of onDisconnected; its run is one of the others.
unfoldable pub disconnect : Shared → Shared
disconnect s = record s { is_connected = false }

pub record Peer : Type 0 where
  pub shared : Shared
  pub runs : List Phase

-- A new peer. The constructor does not set awaiting_peer_reply, whose value is an argument.
abbrev pub new_peer : Bool → Peer
new_peer unset = record {
  shared = record {
    locked = false;
    is_connected = true;
    awaiting_peer_reply = unset;
    has_pc = true;
    have_local_offer = false;
    updates = 0;
  };
  runs = [];
}

-- A run is started; a step of one; an answer; a reply; and the peer goes.
pub data Event : Type 0 where
  process : Event
  step : ℕ → Finds → Event
  answer : Bool → Event
  reply : Bool → Bool → Event
  gone : Event

-- An exception leaves the state.
abbrev pub caught : Peer → Option Shared → Peer
caught p none = p
caught p (some s) = record p { shared = s }

unfoldable pub handle : Event → Peer → Peer
unfolding run_step on_sdp_answer on_sio_offer_reply disconnect
handle process p = record p { runs = p.runs ++ queued ∷ [] }
handle (step i f) p = elim (get_elem? p.runs i) [
  | none ↦ p
  | some q ↦ let (q', s) = run_step f q p.shared in record { shared = s; runs = set_at i q' p.runs }
]
handle (answer takes_sdp) p = caught p (on_sdp_answer takes_sdp p.shared)
handle (reply has_err takes_sdp) p = caught p (on_sio_offer_reply has_err takes_sdp p.shared)
handle gone p = record p { shared = disconnect p.shared }

unfoldable pub handle_all : List Event → Peer → Peer
unfolding handle
handle_all [] p = p
handle_all (e ∷ es) p = handle_all es (handle e p)
