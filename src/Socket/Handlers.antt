-- ===== src/Socket/Handlers.antt =====
-- The handlers of src/sio.cpp that a peer's messages reach.
use phntm_bridge.Prelude.{
  Bool, true, not, ◌&&◌, ◌||◌, Option, none, some, List, [], ◌∷◌, ◌++◌, codes, str_eq, is_empty,
  is_some, if◌then◌else◌, find, emplace, erase, update, str_key,
}
use phntm_bridge.Socket.{
  Event, Session, Peers, Effect, new_session, get_id, get_connected_peer, return_success, items,
  add_reads, remove_reads, add_writes, remove_writes, add_pairs, no_valid_id, text_of, process,
  process_new, process_sync, ack_success, ack_error, sdp_answer,
}

-- The four handlers of requests: a change of the session, its work, and the acknowledgement.
unfoldable pub handle_request : (Session → Session) → Event → Peers → Peers × List Effect
unfolding get_connected_peer
handle_request change e peers =
    let (peer, acks) = get_connected_peer e peers in
    elim peer [
      | none ↦ (peers, acks)
      | some id ↦ (update id change peers, process id ∷ return_success e)
    ]

unfoldable pub on_subscribe_read : Event → Peers → Peers × List Effect
unfolding handle_request add_reads
on_subscribe_read e peers = handle_request (add_reads (items e.sources)) e peers

unfoldable pub on_unsubscribe_read : Event → Peers → Peers × List Effect
unfolding handle_request remove_reads
on_unsubscribe_read e peers = handle_request (remove_reads (items e.sources)) e peers

unfoldable pub on_unsubscribe_write : Event → Peers → Peers × List Effect
unfolding handle_request remove_writes
on_unsubscribe_write e peers = handle_request (remove_writes (items e.sources)) e peers

-- `none`: an array of fewer than two entries is read past its end.
unfoldable pub on_subscribe_write : Event → Peers → Option (Peers × List Effect)
unfolding get_connected_peer add_writes
on_subscribe_write e peers =
    let (peer, acks) = get_connected_peer e peers in
    elim peer [
      | none ↦ some (peers, acks)
      | some id ↦ elim (find id peers) [
        | none ↦ some (peers, acks)
        | some s ↦ elim (add_writes (items e.sources) s) [
          | none ↦ none
          | some s' ↦ some (update id (λ _. s') peers, process id ∷ return_success e)
        ]
      ]
    ]

-- onPeerConnected of the socket and of the peer. `none`: a null pointer is followed, in the place of an
-- id that the message does not have. The map keeps a peer of that id that it has.
unfoldable pub on_peer_connected : Event → Peers → Option (Peers × List Effect)
unfolding get_id add_reads add_pairs
on_peer_connected e peers =
    if is_empty (get_id e)
    then some (peers, ack_error no_valid_id ∷ [])
    else (if not (is_some e.id_app && is_some e.id_instance)
        then none
        else (let s = add_pairs (items e.write) (add_reads (items e.read) new_session) in
            some (emplace (get_id e) s peers, process_new (get_id e) s ∷ [])))

-- The handler of the socket, and onWRTCInfo of the peer.
unfoldable pub on_peer_wrtc_info : Event → Peers → Peers × List Effect
unfolding get_connected_peer
on_peer_wrtc_info e peers =
    let (peer, acks) = get_connected_peer e peers in
    let acks' = acks ++ return_success e in
    elim peer [
      | none ↦ (peers, acks')
      | some id ↦
          if str_eq (text_of e.state) (codes "n/a") || str_eq (text_of e.state) (codes "failed")
          then (
            update id (λ s. record s { peer_needs_restart = true }) peers,
            acks' ++ process id ∷ [],
          )
          else (peers, acks')
    ]

-- The handler of the socket, and onDisconnected of the peer.
unfoldable pub on_peer_disconnected : Event → Peers → Peers × List Effect
unfolding get_connected_peer
on_peer_disconnected e peers =
    let (peer, acks) = get_connected_peer e peers in
    let acks' = acks ++ return_success e in
    elim peer [ none ↦ (peers, acks') | some id ↦ (erase id peers, acks' ++ process_sync id ∷ []) ]

-- `throws` is whether onSDPAnswer of the peer throws, for which Peer.Negotiation.on_sdp_answer is `none`.
-- `none`: that exception leaves the handler, before the acknowledgement.
unfoldable pub on_sdp_answer : Bool → Event → Peers → Option (Peers × List Effect)
unfolding get_connected_peer
on_sdp_answer throws e peers =
    let (peer, acks) = get_connected_peer e peers in
    elim peer [
      | none ↦ some (peers, acks ++ (if e.need_ack then ack_success 0 ∷ [] else []))
      | some id ↦ if throws then none else some (peers, sdp_answer id ∷ return_success e)
    ]

-- onAllPeersDisconnected: every peer in the order of the map, which is empty then.
unfoldable pub on_all_peers_disconnected : Peers → Peers × List Effect
on_all_peers_disconnected [] = ([], [])
on_all_peers_disconnected ((id, s) ∷ peers) =
    let (rest, effects) = on_all_peers_disconnected peers in (rest, process_sync id ∷ effects)

-- A message of a peer, or the end of the connection to the server.
pub data Incoming : Type 0 where
  connected subscribe_read unsubscribe_read subscribe_write unsubscribe_write : Event → Incoming
  wrtc_info disconnected : Event → Incoming
  answer : Bool → Event → Incoming
  all_disconnected : Incoming

unfoldable pub handle : Incoming → Peers → Option (Peers × List Effect)
unfolding on_peer_connected on_subscribe_read on_unsubscribe_read on_subscribe_write
    on_unsubscribe_write on_peer_wrtc_info on_peer_disconnected on_sdp_answer
    on_all_peers_disconnected
handle (connected e) peers = on_peer_connected e peers
handle (subscribe_read e) peers = some (on_subscribe_read e peers)
handle (unsubscribe_read e) peers = some (on_unsubscribe_read e peers)
handle (subscribe_write e) peers = on_subscribe_write e peers
handle (unsubscribe_write e) peers = some (on_unsubscribe_write e peers)
handle (wrtc_info e) peers = some (on_peer_wrtc_info e peers)
handle (disconnected e) peers = some (on_peer_disconnected e peers)
handle (answer throws e) peers = on_sdp_answer throws e peers
handle all_disconnected peers = some (on_all_peers_disconnected peers)
