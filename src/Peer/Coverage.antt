-- ===== src/Peer/Coverage.antt =====
-- After a run the channels of a peer are those that it asked for.
use phntm_bridge.Prelude.{
  ℕ, ◌≡◌, refl, ap, ◌∙◌, Bool, true, false, not, ◌&&◌, ◌||◌, some, List, Str, str_key, mem,
  contains, find, is_some, arith, Option-cases, inl, inr,
}
use phntm_bridge.Peer.{Peer, writes_to}
use phntm_bridge.Peer.Channels.{Env}
use phntm_bridge.Peer.Frame.{
  Frame, Frame-trans, open_reads-Frame, open_writes-Frame, close_reads-Frame, close_media-Frame,
}
use phntm_bridge.Peer.Outbound.{
  is_data_topic, has_read, open_reads-has, open_writes-outbound, close_reads-has, mem-unused,
  close_media-outbound, close_writes-outbound,
}
use phntm_bridge.Peer.Inbound.{
  has_write, open_writes-has, close_reads-inbound, close_media-inbound, close_writes-has,
}
use phntm_bridge.Peer.Process.{
  Reply, no_reply, open_reads, open_writes, close_unused, close_reads, close_media, conclude,
  restart, is_reconnect, process_subscriptions, unused_channels, unused_tracks,
}

conclude-channels :
    (s : Peer × Reply)
    → ((conclude s).0.outbound_data_channels ≡ s.0.outbound_data_channels)
      × ((conclude s).0.inbound_data_channels ≡ s.0.inbound_data_channels)
unfolding conclude
conclude-channels (p, r) = (ground arith, ground arith)

-- The closing loops leave the channels that are asked for.
close_unused-has :
    (e : Env) (again : Bool) (s : Peer × Reply) (j : Str)
    → (has_read j (close_unused e again s).0 ≡ has_read j s.0 && mem j s.0.req_read_subs)
      × (has_write j (close_unused e again s).0 ≡ has_write j s.0 && writes_to j s.0.req_write_subs)
unfolding close_unused
close_unused-has e again s j = (
  ap (contains j) (close_writes-outbound e inputs s₂ ∙ close_media-outbound close tracks s₁)
      ∙ (close_reads-has e unread j s
          ∙ ground (arith, mem-unused (λ t. mem t s.0.req_read_subs) s.0.outbound_data_channels j)),
  close_writes-has e inputs j s₂
      ∙ ground (
        arith,
        mem-unused (λ t. writes_to t s₂.0.req_write_subs) s₂.0.inbound_data_channels j,
        close_media-inbound close tracks s₁,
        close_reads-inbound e unread s,
        frame.same_write,
      ),
)
  where
    unread : List Str
    unread = unused_channels (λ t. mem t s.0.req_read_subs) s.0.outbound_data_channels

    s₁ : Peer × Reply
    s₁ = close_reads e unread s

    close : Bool
    close = again || not s.0.is_connected

    tracks : List Str
    tracks = unused_tracks (λ t. mem t s.0.req_read_subs) s₁.0.outbound_media_tracks

    s₂ : Peer × Reply
    s₂ = close_media close tracks s₁

    inputs : List Str
    inputs = unused_channels (λ t. writes_to t s₂.0.req_write_subs) s₂.0.inbound_data_channels

    frame : Frame s.0 s₂.0
    frame = Frame-trans (close_reads-Frame e unread s) (close_media-Frame close tracks s₁)

-- A run behind its restart, for a peer that has a connection.
run_channels :
    (e : Env) (again : Bool) (p : Peer) (c : ℕ) (j : Str)
    → p.pc ≡ some c
    → let q =
        (conclude (
          close_unused e again
            (open_writes e p.req_write_subs (open_reads e p.req_read_subs (p, no_reply))))).0 in
      (has_read j q
        ≡ mem j p.req_read_subs && (is_data_topic p.discovered_topics j || has_read j p))
      × (has_write j q ≡ writes_to j p.req_write_subs)
run_channels e again p c j h = (
  ap (contains j) (conclude-channels closed).0
      ∙ (both.0
          ∙ ground (
            arith,
            open_reads-has e p.req_read_subs j (p, no_reply) c h,
            open_writes-outbound e p.req_write_subs reads,
            frame.same_read,
          )),
  ap (contains j) (conclude-channels closed).1
      ∙ (both.1
          ∙ ground (
            arith,
            open_writes-has e p.req_write_subs j reads c (first.same_pc ∙ h),
            frame.same_write,
          )),
)
  where
    reads : Peer × Reply
    reads = open_reads e p.req_read_subs (p, no_reply)

    first : Frame p reads.0
    first = open_reads-Frame e p.req_read_subs (p, no_reply)

    opened : Peer × Reply
    opened = open_writes e p.req_write_subs reads

    frame : Frame p opened.0
    frame = Frame-trans first (open_writes-Frame e p.req_write_subs reads)

    closed : Peer × Reply
    closed = close_unused e again opened

    both :
        (has_read j closed.0 ≡ has_read j opened.0 && mem j opened.0.req_read_subs)
        × (has_write j closed.0 ≡ has_write j opened.0 && writes_to j opened.0.req_write_subs)
    both = close_unused-has e again opened j

-- A restart leaves the requests and the topics, and no channel.
restart_lem :
    (again : Bool) (p : Peer)
    → ((restart again p).req_read_subs ≡ p.req_read_subs)
      × ((restart again p).req_write_subs ≡ p.req_write_subs)
      × ((restart again p).discovered_topics ≡ p.discovered_topics)
unfolding restart
restart_lem true p = (refl, refl, refl)
restart_lem false p = (refl, refl, refl)

restart-pc :
    (again : Bool) (p : Peer)
    → is_some p.pc || again ≡ true
    → (c : ℕ) × ((restart again p).pc ≡ some c)
unfolding restart
restart-pc true p h = (p.next_addr, refl)
restart-pc false p h = elim (Option-cases p.pc) [ inl q ↦ ground (arith, q) | inr (c, q) ↦ (c, q) ]

restart-has :
    (again : Bool) (p : Peer) (j : Str)
    → (has_read j (restart again p) ≡ has_read j p && not again)
      × (has_write j (restart again p) ≡ has_write j p && not again)
unfolding restart find
restart-has true p j = (ground arith, ground arith)
restart-has false p j = (ground arith, ground arith)

-- After a run of a peer that has a connection or is to get a new one, exactly the requested topics have
-- channels: a read channel stands for each topic that is asked for and is a data topic, or had a
-- channel that the run did not restart; a write channel for each write request.
pub process_channels :
    (e : Env) (p : Peer) (j : Str)
    → is_some p.pc || is_reconnect e p ≡ true
    → let q = (process_subscriptions e p).0 in
      (has_read j q
        ≡ mem j p.req_read_subs
          && (is_data_topic p.discovered_topics j || (has_read j p && not (is_reconnect e p))))
      × (has_write j q ≡ writes_to j p.req_write_subs)
unfolding process_subscriptions
process_channels e p j h =
    let again = is_reconnect e p in
    let kept = restart_lem again p in
    let (c, q) = restart-pc again p h in
    let both = run_channels e again (restart again p) c j q in
    (both.0 ∙ ground (arith, kept, restart-has again p j), both.1 ∙ ground (arith, kept))
