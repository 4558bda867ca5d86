-- ===== src/Socket/Sessions.antt =====
-- What the connected peers ask for, after any messages.
use phntm_bridge.Prelude.{
  ◌≡◌, refl, sym, subst, Bool, true, false, Option, none, some, List, [], ◌∷◌, Str, str_eq,
  if◌then◌else◌, find, contains, emplace, erase, update, str_key, find-emplace, find-erase,
  find-update, arith, inl, inr, Option-cases, mapped,
}
use phntm_bridge.Peer.Requests.{Once}
use phntm_bridge.Socket.{
  Event, Session, Peers, Effect, new_session, get_id, get_connected_peer, items, add_reads,
  remove_reads, add_writes, remove_writes, add_pairs,
}
use phntm_bridge.Socket.Handlers.{
  Incoming, handle, handle_request, connected, subscribe_read, unsubscribe_read, subscribe_write,
  unsubscribe_write, wrtc_info, disconnected, answer, all_disconnected, on_subscribe_read,
  on_unsubscribe_read, on_subscribe_write, on_unsubscribe_write, on_peer_wrtc_info,
  on_peer_disconnected, on_sdp_answer, on_peer_connected, on_all_peers_disconnected,
}
use phntm_bridge.Socket.Requests.{
  add_reads_lem, remove_reads_lem, add_pairs-reads, add_writes-reads, remove_writes-reads,
}

abbrev Fine : Option Session → Type 0
Fine none = Unit
Fine (some s) = Once s.req_read_subs

-- No peer asks for a topic twice.
abbrev AllOnce : Peers → Type 0
AllOnce peers = (j : Str) → Fine (find j peers)

abbrev Keeps : (Session → Session) → Type 0
Keeps f = (s : Session) → Once s.req_read_subs → Once (f s).req_read_subs

Fine-if : (c : Bool) (x y : Option Session) → Fine x → Fine y → Fine (if c then x else y)
Fine-if true x y p q = p
Fine-if false x y p q = q

Fine-mapped : (f : Session → Session) (x : Option Session) → Keeps f → Fine x → Fine (mapped f x)
Fine-mapped f none k p = p
Fine-mapped f (some s) k p = k s p

AllOnce-update :
    (k : Str) (f : Session → Session) (peers : Peers)
    → Keeps f
    → AllOnce peers
    → AllOnce (update k f peers)
AllOnce-update k f peers keep all j = subst Fine (sym (find-update k j f peers)) (
    Fine-if (str_eq k j) (mapped f (find j peers)) (find j peers)
      (Fine-mapped f (find j peers) keep (all j)) (all j))

AllOnce-erase : (k : Str) (peers : Peers) → AllOnce peers → AllOnce (erase k peers)
AllOnce-erase k peers all j =
    subst Fine (sym (find-erase k j peers)) (Fine-if (str_eq k j) none (find j peers) tt (all j))

AllOnce-emplace :
    (k : Str) (s : Session) (peers : Peers)
    → Once s.req_read_subs
    → AllOnce peers
    → AllOnce (emplace k s peers)
AllOnce-emplace k s peers o all j = subst Fine (sym (find-emplace k j s peers)) (
    Fine-if (contains k peers) (find j peers) (if str_eq k j then some s else find j peers) (all j)
      (Fine-if (str_eq k j) (some s) (find j peers) o (all j)))

abbrev After : Option (Peers × List Effect) → Type 0
After none = Unit
After (some (peers, effects)) = AllOnce peers

request-AllOnce :
    (f : Session → Session) (e : Event) (peers : Peers)
    → Keeps f
    → AllOnce peers
    → AllOnce (handle_request f e peers).0
unfolding handle_request get_connected_peer
request-AllOnce f e peers keep all = ground (arith, all, AllOnce-update (get_id e) f peers keep all)

all-AllOnce : (peers : Peers) → (on_all_peers_disconnected peers).0 ≡ []
unfolding on_all_peers_disconnected
all-AllOnce [] = refl
all-AllOnce ((k, s) ∷ peers) = all-AllOnce peers

empty-AllOnce : AllOnce []
unfolding find
empty-AllOnce j = tt

write-AllOnce : (e : Event) (peers : Peers) → AllOnce peers → After (on_subscribe_write e peers)
unfolding on_subscribe_write get_connected_peer
write-AllOnce e peers all = elim (Option-cases (find (get_id e) peers)) [
  | inl q ↦ ground (arith, all, q)
  | inr (s, q) ↦ elim (Option-cases (add_writes (items e.sources) s)) [
    | inl r ↦ ground (arith, all, q, r)
    | inr (s', r) ↦ ground (
      arith,
      all,
      q,
      r,
      AllOnce-update (get_id e) (λ _. s') peers
          (λ _ _.
            subst Once (sym (add_writes-reads (items e.sources) s s' r))
              (subst Fine q (all (get_id e))))
          all,
    )
  ]
]

connect-AllOnce : (e : Event) (peers : Peers) → AllOnce peers → After (on_peer_connected e peers)
unfolding on_peer_connected
connect-AllOnce e peers all =
    let reads = add_reads (items e.read) new_session in
    let s = add_pairs (items e.write) reads in
    ground (
      arith,
      all,
      AllOnce-emplace (get_id e) s peers
          (subst Once (sym (add_pairs-reads (items e.write) reads))
            (add_reads_lem (items e.read) new_session tt).0)
          all,
    )

report-AllOnce :
    (throws : Bool) (e : Event) (peers : Peers)
    → AllOnce peers
    → AllOnce (on_peer_wrtc_info e peers).0
      × AllOnce (on_peer_disconnected e peers).0
      × After (on_sdp_answer throws e peers)
unfolding on_peer_wrtc_info on_peer_disconnected on_sdp_answer get_connected_peer
report-AllOnce throws e peers all = (
  ground (
    arith,
    all,
    AllOnce-update (get_id e) (λ s. record s { peer_needs_restart = true }) peers (λ s o. o) all,
  ),
  ground (arith, all, AllOnce-erase (get_id e) peers all),
  ground (arith, all),
)

handle-AllOnce : (m : Incoming) (peers : Peers) → AllOnce peers → After (handle m peers)
unfolding handle on_subscribe_read on_unsubscribe_read on_unsubscribe_write
handle-AllOnce (connected e) peers all = connect-AllOnce e peers all
handle-AllOnce (subscribe_read e) peers all =
    request-AllOnce (add_reads (items e.sources)) e peers
      (λ s o. (add_reads_lem (items e.sources) s o).0) all
handle-AllOnce (unsubscribe_read e) peers all =
    request-AllOnce (remove_reads (items e.sources)) e peers
      (λ s o. (remove_reads_lem (items e.sources) s o).0) all
handle-AllOnce (subscribe_write e) peers all = write-AllOnce e peers all
handle-AllOnce (unsubscribe_write e) peers all =
    request-AllOnce (remove_writes (items e.sources)) e peers
      (λ s o. subst Once (sym (remove_writes-reads (items e.sources) s)) o) all
handle-AllOnce (wrtc_info e) peers all = (report-AllOnce false e peers all).0
handle-AllOnce (disconnected e) peers all = (report-AllOnce false e peers all).1
handle-AllOnce (answer throws e) peers all = (report-AllOnce throws e peers all).2
handle-AllOnce all_disconnected peers all = subst AllOnce (sym (all-AllOnce peers)) empty-AllOnce

unfoldable pub handle_all : List Incoming → Peers → Option Peers
unfolding handle
handle_all [] peers = some peers
handle_all (m ∷ ms) peers = elim (handle m peers) [
  | none ↦ none
  | some (peers', effects) ↦ handle_all ms peers'
]

handle_all-AllOnce :
    (ms : List Incoming) (peers peers' : Peers)
    → AllOnce peers
    → handle_all ms peers ≡ some peers'
    → AllOnce peers'
unfolding handle_all
handle_all-AllOnce [] peers peers' all h = subst AllOnce (ground (arith, h)) all
handle_all-AllOnce (m ∷ ms) peers peers' all h = elim (Option-cases (handle m peers)) [
  | inl q ↦ ground (arith, h, q)
  | inr ((next, effects), q) ↦
      handle_all-AllOnce ms next peers' (subst After q (handle-AllOnce m peers all))
        (ground (arith, h, q))
]

-- From the start and after any messages, no connected peer asks to read a topic twice.
pub sessions-Once :
    (ms : List Incoming) (peers : Peers) (id : Str) (s : Session)
    → handle_all ms [] ≡ some peers
    → find id peers ≡ some s
    → Once s.req_read_subs
sessions-Once ms peers id s h k = subst Fine k (handle_all-AllOnce ms [] peers empty-AllOnce h id)
