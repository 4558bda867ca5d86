-- ===== src/Peer/Outbound.antt =====
-- Which read channels a peer has after a run.
use phntm_bridge.Prelude.{
  ℕ, ◌≡◌, refl, ap, ap₂, ◌∙◌, Bool, true, false, not, ◌&&◌, ◌||◌, some, List, [], ◌∷◌, Str, str_eq,
  str_eq_iff, str_key, mem, is_empty, contains, find, emplace, erase, find-emplace, find-erase, Map,
  if◌then◌else◌, arith,
}
use phntm_bridge.Media.{is_image_or_video_type}
use phntm_bridge.Introspection.Lookup.{get_topic}
use phntm_bridge.Peer.{Peer, Channel}
use phntm_bridge.Peer.Channels.{
  Env, next_id, subscribe_read_data_topic, subscribe_write_data_topic, subscribe_media_topic,
  unsubscribe_read_data_topic, unsubscribe_write_data_topic, unsubscribe_media_topic,
}
use phntm_bridge.Peer.Frame.{open_read-Frame}
use phntm_bridge.Peer.Process.{
  Reply, open_read, open_reads, open_write, open_writes, close_reads, close_media, close_writes,
  unused_channels,
}

-- The topic is discovered, and its messages are no images and no video.
abbrev pub is_data_topic : Map Str Str → Str → Bool
is_data_topic topics t =
    not (is_empty (get_topic t topics)) && not (is_image_or_video_type (get_topic t topics))

abbrev pub has_read : Str → Peer → Bool
has_read t p = contains t p.outbound_data_channels

pub contains-emplace :
    (k j : Str) (ch : Channel) (m : Map Str Channel)
    → contains j (emplace k ch m) ≡ contains j m || str_eq k j
contains-emplace k j ch m = ground (arith, find-emplace k j ch m, str_eq_iff k j)

pub contains-erase :
    (k j : Str) (m : Map Str Channel) → contains j (erase k m) ≡ contains j m && not (str_eq k j)
contains-erase k j m = ground (arith, find-erase k j m)

subscribe_read-outbound :
    (e : Env) (k ty : Str) (p : Peer) (c : ℕ)
    → p.pc ≡ some c
    → (subscribe_read_data_topic e k ty p).0.outbound_data_channels ≡ (
        if contains k p.outbound_data_channels
        then p.outbound_data_channels
        else emplace k
            (record { dc = p.next_addr; channel_id = next_id p.next_channel_id })
            p.outbound_data_channels)
unfolding subscribe_read_data_topic
subscribe_read-outbound e k ty p c h = ground arith

subscribe_read-has :
    (e : Env) (k ty j : Str) (p : Peer) (c : ℕ)
    → p.pc ≡ some c
    → has_read j (subscribe_read_data_topic e k ty p).0 ≡ has_read j p || str_eq k j
subscribe_read-has e k ty j p c h =
    ap (contains j) (subscribe_read-outbound e k ty p c h)
    ∙ ground (
      arith,
      contains-emplace k j (record { dc = p.next_addr; channel_id = next_id p.next_channel_id })
          p.outbound_data_channels,
      str_eq_iff k j,
    )

subscribe_media-outbound :
    (e : Env) (k ty : Str) (p : Peer)
    → (subscribe_media_topic e k ty p).0.outbound_data_channels ≡ p.outbound_data_channels
unfolding subscribe_media_topic
subscribe_media-outbound e k ty p = ground arith

open_read-has :
    (e : Env) (k j : Str) (s : Peer × Reply) (c : ℕ)
    → s.0.pc ≡ some c
    → has_read j (open_read e k s).0
      ≡ has_read j s.0 || (str_eq k j && is_data_topic s.0.discovered_topics k)
unfolding open_read
open_read-has e k j (p, r) c h = ground (
  arith,
  subscribe_read-has e k (get_topic k p.discovered_topics) j p c h,
  ap (contains j) (subscribe_media-outbound e k (get_topic k p.discovered_topics) p),
)

pub open_reads-has :
    (e : Env) (ts : List Str) (j : Str) (s : Peer × Reply) (c : ℕ)
    → s.0.pc ≡ some c
    → has_read j (open_reads e ts s).0
      ≡ has_read j s.0 || (mem j ts && is_data_topic s.0.discovered_topics j)
unfolding open_reads mem
open_reads-has e [] j s c h = ground arith
open_reads-has e (t ∷ ts) j s c h =
    let f = open_read-Frame e t s in
    open_reads-has e ts j (open_read e t s) c (f.same_pc ∙ h)
    ∙ (ap₂ (λ b m. b || (mem j ts && is_data_topic m j)) (open_read-has e t j s c h) f.same_topics
        ∙ regroup (has_read j s.0) (str_eq t j) (mem j ts) (is_data_topic s.0.discovered_topics t)
            (is_data_topic s.0.discovered_topics j)
            (λ q. ap (is_data_topic s.0.discovered_topics) ((str_eq_iff t j).0 q)))
  where
    regroup :
        (a b m d d' : Bool)
        → (b ≡ true → d ≡ d')
        → (a || (b && d)) || (m && d') ≡ a || ((b || m) && d')
    regroup true b m d d' k = refl
    regroup false true true d d' k = ground (arith, k refl)
    regroup false true false d d' k = ground (arith, k refl)
    regroup false false m d d' k = refl

subscribe_write-outbound :
    (e : Env) (k ty : Str) (p : Peer)
    → (subscribe_write_data_topic e k ty p).0.outbound_data_channels ≡ p.outbound_data_channels
unfolding subscribe_write_data_topic
subscribe_write-outbound e k ty p = ground arith

pub open_writes-outbound :
    (e : Env) (subs : List (Str × Str)) (s : Peer × Reply)
    → (open_writes e subs s).0.outbound_data_channels ≡ s.0.outbound_data_channels
unfolding open_writes open_write
open_writes-outbound e [] s = refl
open_writes-outbound e ((t, ty) ∷ subs) (p, r) =
    open_writes-outbound e subs _ ∙ subscribe_write-outbound e t ty p

unsubscribe_read-has :
    (e : Env) (k j : Str) (p : Peer)
    → has_read j (unsubscribe_read_data_topic e k p).0 ≡ has_read j p && not (str_eq k j)
unfolding unsubscribe_read_data_topic
unsubscribe_read-has e k j p =
    ground (arith, contains-erase k j p.outbound_data_channels, str_eq_iff k j)

pub close_reads-has :
    (e : Env) (ts : List Str) (j : Str) (s : Peer × Reply)
    → has_read j (close_reads e ts s).0 ≡ has_read j s.0 && not (mem j ts)
unfolding close_reads mem
close_reads-has e [] j s = ground arith
close_reads-has e (t ∷ ts) j (p, r) =
    close_reads-has e ts j _ ∙ ground (arith, unsubscribe_read-has e t j p)

pub mem-unused :
    (used : Str → Bool) (m : Map Str Channel) (j : Str)
    → mem j (unused_channels used m) ≡ contains j m && not (used j)
unfolding mem unused_channels find
mem-unused used [] j = refl
mem-unused used ((t, ch) ∷ m) j = ground (arith, mem-unused used m j, str_eq_iff t j)

unsubscribe_media-outbound :
    (t : Str) (close : Bool) (p : Peer)
    → (unsubscribe_media_topic t close p).0.outbound_data_channels ≡ p.outbound_data_channels
unfolding unsubscribe_media_topic
unsubscribe_media-outbound t close p = ground arith

pub close_media-outbound :
    (close : Bool) (ts : List Str) (s : Peer × Reply)
    → (close_media close ts s).0.outbound_data_channels ≡ s.0.outbound_data_channels
unfolding close_media
close_media-outbound close [] s = refl
close_media-outbound close (t ∷ ts) (p, r) =
    close_media-outbound close ts _ ∙ unsubscribe_media-outbound t close p

unsubscribe_write-outbound :
    (e : Env) (t : Str) (p : Peer)
    → (unsubscribe_write_data_topic e t p).0.outbound_data_channels ≡ p.outbound_data_channels
unfolding unsubscribe_write_data_topic
unsubscribe_write-outbound e t p = ground arith

pub close_writes-outbound :
    (e : Env) (ts : List Str) (s : Peer × Reply)
    → (close_writes e ts s).0.outbound_data_channels ≡ s.0.outbound_data_channels
unfolding close_writes
close_writes-outbound e [] s = refl
close_writes-outbound e (t ∷ ts) (p, r) =
    close_writes-outbound e ts _ ∙ unsubscribe_write-outbound e t p
