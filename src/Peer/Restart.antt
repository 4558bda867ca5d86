-- ===== src/Peer/Restart.antt =====
-- What a run keeps of the media tracks of a peer.
use phntm_bridge.Prelude.{
  ℕ, ◌≡◌, refl, ap, ◌∙◌, Bool, true, false, not, ◌||◌, some, Str, str_key, mem, is_some, arith,
}
use phntm_bridge.Peer.{Peer, writes_to}
use phntm_bridge.Peer.Channels.{Env}
use phntm_bridge.Peer.Frame.{
  Frame, Frame-trans, open_reads-Frame, open_writes-Frame, close_reads-Frame, close_media-Frame,
  close_writes-Frame,
}
use phntm_bridge.Peer.Process.{
  Reply, no_reply, open_reads, open_writes, close_reads, close_media, close_unused, unused_channels,
  unused_tracks, conclude, restart, is_reconnect, process_subscriptions,
}
use phntm_bridge.Peer.Tracks.{
  Stays, home, open_reads-home, open_writes-tracks, close_reads-tracks, close_writes-tracks,
  close_media-home, mem-unused_tracks,
}

close_unused-Frame :
    (e : Env) (again : Bool) (s : Peer × Reply) → Frame s.0 (close_unused e again s).0
unfolding close_unused
close_unused-Frame e again s =
    let read = λ (t : Str). mem t s.0.req_read_subs in
    let unread = unused_channels read s.0.outbound_data_channels in
    let s₁ = close_reads e unread s in
    let tracks = unused_tracks read s₁.0.outbound_media_tracks in
    let close = again || not s.0.is_connected in
    let s₂ = close_media close tracks s₁ in
    let inputs =
      unused_channels (λ t. writes_to t s₂.0.req_write_subs) s₂.0.inbound_data_channels in
    Frame-trans (close_reads-Frame e unread s)
      (Frame-trans (close_media-Frame close tracks s₁) (close_writes-Frame e inputs s₂))

close_unused-home :
    (e : Env) (again : Bool) (s : Peer × Reply) (j : Str)
    → mem j s.0.req_read_subs ≡ true
    → Stays j s.0.outbound_media_tracks (close_unused e again s).0.outbound_media_tracks
unfolding close_unused
close_unused-home e again s j h g =
    let read = λ (t : Str). mem t s.0.req_read_subs in
    let unread = unused_channels read s.0.outbound_data_channels in
    let s₁ = close_reads e unread s in
    let tracks = unused_tracks read s₁.0.outbound_media_tracks in
    let close = again || not s.0.is_connected in
    let s₂ = close_media close tracks s₁ in
    let inputs =
      unused_channels (λ t. writes_to t s₂.0.req_write_subs) s₂.0.inbound_data_channels in
    let same = ap (home j) (close_reads-tracks e unread s) in
    ap (home j) (close_writes-tracks e inputs s₂)
    ∙ (close_media-home close tracks j s₁ (mem-unused_tracks read s₁.0.outbound_media_tracks j h)
          (ap is_some same ∙ g)
        ∙ same)

conclude-tracks :
    (s : Peer × Reply)
    → ((conclude s).0.outbound_media_tracks ≡ s.0.outbound_media_tracks)
      × (s.0.is_connected ≡ true → (conclude s).0.pc ≡ s.0.pc)
unfolding conclude
conclude-tracks (p, r) = (ground arith, λ h. ground (arith, h))

-- A run behind its restart keeps the connection, and the track of a topic that is asked for.
run_keeps :
    (e : Env) (again : Bool) (p : Peer) (c : ℕ) (j : Str)
    → p.pc ≡ some c
    → p.is_connected ≡ true
    → mem j p.req_read_subs ≡ true
    → is_some (home j p.outbound_media_tracks) ≡ true
    → let q =
        (conclude (
          close_unused e again
            (open_writes e p.req_write_subs (open_reads e p.req_read_subs (p, no_reply))))).0 in
      (q.pc ≡ some c) × (home j q.outbound_media_tracks ≡ home j p.outbound_media_tracks)
run_keeps e again p c j h k m g = (
  (conclude-tracks closed).1 (frame.same_connected ∙ k) ∙ (frame.same_pc ∙ h),
  ap (home j) (conclude-tracks closed).0
      ∙ (close_unused-home e again opened j (ap (mem j) first.same_read ∙ m) (ap is_some kept ∙ g)
          ∙ kept),
)
  where
    reads : Peer × Reply
    reads = open_reads e p.req_read_subs (p, no_reply)

    opened : Peer × Reply
    opened = open_writes e p.req_write_subs reads

    closed : Peer × Reply
    closed = close_unused e again opened

    first : Frame p opened.0
    first =
        Frame-trans (open_reads-Frame e p.req_read_subs (p, no_reply))
          (open_writes-Frame e p.req_write_subs reads)

    frame : Frame p closed.0
    frame = Frame-trans first (close_unused-Frame e again opened)

    kept : home j opened.0.outbound_media_tracks ≡ home j p.outbound_media_tracks
    kept =
        ap (home j) (open_writes-tracks e p.req_write_subs reads)
        ∙ open_reads-home e p.req_read_subs j (p, no_reply) c h g

-- A run that makes the connection anew puts a new peer connection in place, and leaves the track of a
-- media topic that stays asked for as it was: the same track, of the same connection as before.
pub restart_keeps_track :
    (e : Env) (p : Peer) (j : Str)
    → is_reconnect e p ≡ true
    → mem j p.req_read_subs ≡ true
    → is_some (home j p.outbound_media_tracks) ≡ true
    → let q = (process_subscriptions e p).0 in
      (q.pc ≡ some p.next_addr) × (home j q.outbound_media_tracks ≡ home j p.outbound_media_tracks)
unfolding process_subscriptions
restart_keeps_track e p j h m g = run (is_reconnect e p) h
  where
    run :
        (again : Bool)
        → again ≡ true
        → let q =
            (conclude (
              close_unused e again (
                open_writes e
                  (restart again p).req_write_subs
                  (open_reads e (restart again p).req_read_subs (restart again p, no_reply))))).0 in
          (q.pc ≡ some p.next_addr)
          × (home j q.outbound_media_tracks ≡ home j p.outbound_media_tracks)
    run false q = ground (arith, q)
    run true q =
        unfold restart in run_keeps e true (restart true p) p.next_addr j refl connected m g
      where
        connected : p.is_connected ≡ true
        connected = unfold is_reconnect in ground (arith, h)
