-- ===== src/Peer/Inbound.antt =====
-- Which write channels a peer has after a run.
use phntm_bridge.Prelude.{
  ℕ, ◌≡◌, refl, ap, ◌∙◌, Bool, not, ◌&&◌, ◌||◌, some, List, [], ◌∷◌, Str, str_eq, str_eq_iff,
  str_key, mem, contains, if◌then◌else◌, arith, emplace,
}
use phntm_bridge.Introspection.Lookup.{get_topic}
use phntm_bridge.Peer.{Peer, writes_to}
use phntm_bridge.Peer.Channels.{
  Env, next_id, subscribe_read_data_topic, subscribe_write_data_topic, subscribe_media_topic,
  unsubscribe_read_data_topic, unsubscribe_write_data_topic, unsubscribe_media_topic,
}
use phntm_bridge.Peer.Frame.{open_write-Frame}
use phntm_bridge.Peer.Outbound.{contains-emplace, contains-erase}
use phntm_bridge.Peer.Process.{
  Reply, open_read, open_reads, open_write, open_writes, close_reads, close_media, close_writes,
}

abbrev pub has_write : Str → Peer → Bool
has_write t p = contains t p.inbound_data_channels

subscribe_write-inbound :
    (e : Env) (k ty : Str) (p : Peer) (c : ℕ)
    → p.pc ≡ some c
    → (subscribe_write_data_topic e k ty p).0.inbound_data_channels ≡ (
        if contains k p.inbound_data_channels
        then p.inbound_data_channels
        else emplace k
            (record { dc = p.next_addr; channel_id = next_id p.next_channel_id })
            p.inbound_data_channels)
unfolding subscribe_write_data_topic
subscribe_write-inbound e k ty p c h = ground arith

open_write-has :
    (e : Env) (k ty j : Str) (s : Peer × Reply) (c : ℕ)
    → s.0.pc ≡ some c
    → has_write j (open_write e k ty s).0 ≡ has_write j s.0 || str_eq k j
unfolding open_write
open_write-has e k ty j (p, r) c h =
    ap (contains j) (subscribe_write-inbound e k ty p c h)
    ∙ ground (
      arith,
      contains-emplace k j (record { dc = p.next_addr; channel_id = next_id p.next_channel_id })
          p.inbound_data_channels,
      str_eq_iff k j,
    )

pub open_writes-has :
    (e : Env) (subs : List (Str × Str)) (j : Str) (s : Peer × Reply) (c : ℕ)
    → s.0.pc ≡ some c
    → has_write j (open_writes e subs s).0 ≡ has_write j s.0 || writes_to j subs
unfolding open_writes writes_to
open_writes-has e [] j s c h = ground arith
open_writes-has e ((t, ty) ∷ subs) j s c h =
    let f = open_write-Frame e t ty s in
    open_writes-has e subs j (open_write e t ty s) c (f.same_pc ∙ h)
    ∙ ground (arith, open_write-has e t ty j s c h)

open_read-inbound :
    (e : Env) (k : Str) (s : Peer × Reply)
    → (open_read e k s).0.inbound_data_channels ≡ s.0.inbound_data_channels
unfolding open_read
open_read-inbound e k (p, r) =
    ground (arith, read (get_topic k p.discovered_topics), media (get_topic k p.discovered_topics))
  where
    read :
        (ty : Str)
        → (subscribe_read_data_topic e k ty p).0.inbound_data_channels ≡ p.inbound_data_channels
    read ty = unfold subscribe_read_data_topic in ground arith

    media :
        (ty : Str)
        → (subscribe_media_topic e k ty p).0.inbound_data_channels ≡ p.inbound_data_channels
    media ty = unfold subscribe_media_topic in ground arith

open_reads-inbound :
    (e : Env) (ts : List Str) (s : Peer × Reply)
    → (open_reads e ts s).0.inbound_data_channels ≡ s.0.inbound_data_channels
unfolding open_reads
open_reads-inbound e [] s = refl
open_reads-inbound e (t ∷ ts) s =
    open_reads-inbound e ts (open_read e t s) ∙ open_read-inbound e t s

unsubscribe_read-inbound :
    (e : Env) (t : Str) (p : Peer)
    → (unsubscribe_read_data_topic e t p).0.inbound_data_channels ≡ p.inbound_data_channels
unfolding unsubscribe_read_data_topic
unsubscribe_read-inbound e t p = ground arith

pub close_reads-inbound :
    (e : Env) (ts : List Str) (s : Peer × Reply)
    → (close_reads e ts s).0.inbound_data_channels ≡ s.0.inbound_data_channels
unfolding close_reads
close_reads-inbound e [] s = refl
close_reads-inbound e (t ∷ ts) (p, r) = close_reads-inbound e ts _ ∙ unsubscribe_read-inbound e t p

unsubscribe_media-inbound :
    (t : Str) (close : Bool) (p : Peer)
    → (unsubscribe_media_topic t close p).0.inbound_data_channels ≡ p.inbound_data_channels
unfolding unsubscribe_media_topic
unsubscribe_media-inbound t close p = ground arith

pub close_media-inbound :
    (close : Bool) (ts : List Str) (s : Peer × Reply)
    → (close_media close ts s).0.inbound_data_channels ≡ s.0.inbound_data_channels
unfolding close_media
close_media-inbound close [] s = refl
close_media-inbound close (t ∷ ts) (p, r) =
    close_media-inbound close ts _ ∙ unsubscribe_media-inbound t close p

unsubscribe_write-has :
    (e : Env) (k j : Str) (p : Peer)
    → has_write j (unsubscribe_write_data_topic e k p).0 ≡ has_write j p && not (str_eq k j)
unfolding unsubscribe_write_data_topic
unsubscribe_write-has e k j p =
    ground (arith, contains-erase k j p.inbound_data_channels, str_eq_iff k j)

pub close_writes-has :
    (e : Env) (ts : List Str) (j : Str) (s : Peer × Reply)
    → has_write j (close_writes e ts s).0 ≡ has_write j s.0 && not (mem j ts)
unfolding close_writes mem
close_writes-has e [] j s = ground arith
close_writes-has e (t ∷ ts) j (p, r) =
    close_writes-has e ts j _ ∙ ground (arith, unsubscribe_write-has e t j p)
