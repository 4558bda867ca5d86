-- ===== src/Peer/Tracks.antt =====
-- The loops of a run, and the media tracks of a peer.
use phntm_bridge.Prelude.{
  ℕ, ◌≡◌, refl, ap, ◌∙◌, Bool, true, false, Option, none, some, List, [], ◌∷◌, Str, str_eq,
  str_eq_iff, str_key, mem, is_some, contains, find, update, emplace, find-update, find-emplace,
  find-erase, Map, if◌then◌else◌, arith, Option-cases, inl, inr,
}
use phntm_bridge.Introspection.Lookup.{get_topic}
use phntm_bridge.Peer.{Peer, Track}
use phntm_bridge.Peer.Channels.{
  Env, subscribe_read_data_topic, subscribe_write_data_topic, subscribe_media_topic,
  unsubscribe_read_data_topic, unsubscribe_write_data_topic, unsubscribe_media_topic,
}
use phntm_bridge.Peer.Frame.{open_read-Frame}
use phntm_bridge.Peer.Process.{
  open_write, Reply, open_read, open_reads, open_writes, close_reads, close_media, close_writes,
  unused_tracks,
}

abbrev places : Option Track → Option (ℕ × ℕ)
places none = none
places (some i) = some (i.track, i.track_pc)

-- The track of a topic, and the peer connection that it was added to.
abbrev pub home : Str → Map Str Track → Option (ℕ × ℕ)
home j m = places (find j m)

-- A step that a track outlives.
abbrev pub Stays : Str → Map Str Track → Map Str Track → Type 0
Stays j m m' = is_some (home j m) ≡ true → home j m' ≡ home j m

Stays-trans : (j : Str) (a b c : Map Str Track) → Stays j a b → Stays j b c → Stays j a c
Stays-trans j a b c f g h = g (ap is_some (f h) ∙ h) ∙ f h

Stays-same : (j : Str) (a b : Map Str Track) → b ≡ a → Stays j a b
Stays-same j a b q h = ap (home j) q

abbrev opened : Peer → ℕ → Track
opened p c = record { track = p.next_addr; track_pc = c; in_use = true; init_complete = false }

update-place :
    (j k : Str) (b : Bool) (m : Map Str Track)
    → Stays j m (update k (λ i. record i { in_use = b }) m)
update-place j k b m h = elim (Option-cases (find j m)) [
  | inl q ↦ ground (arith, h, q)
  | inr (i, q) ↦ ground (arith, q, find-update k j (λ i. record i { in_use = b }) m)
]

emplace-place : (j k : Str) (i : Track) (m : Map Str Track) → Stays j m (emplace k i m)
emplace-place j k i m h = ground (arith, h, find-emplace k j i m, str_eq_iff k j)

subscribe_media-tracks :
    (e : Env) (k ty : Str) (p : Peer) (c : ℕ)
    → p.pc ≡ some c
    → (subscribe_media_topic e k ty p).0.outbound_media_tracks ≡ (
        if contains k p.outbound_media_tracks
        then update k (λ i. record i { in_use = true }) p.outbound_media_tracks
        else emplace k (opened p c) p.outbound_media_tracks)
unfolding subscribe_media_topic
subscribe_media-tracks e k ty p c h = ground arith

subscribe_media-home :
    (e : Env) (k ty j : Str) (p : Peer) (c : ℕ)
    → p.pc ≡ some c
    → Stays j p.outbound_media_tracks (subscribe_media_topic e k ty p).0.outbound_media_tracks
subscribe_media-home e k ty j p c h g =
    ap (home j) (subscribe_media-tracks e k ty p c h)
    ∙ ground (
      arith,
      update-place j k true p.outbound_media_tracks g,
      emplace-place j k (opened p c) p.outbound_media_tracks g,
    )

subscribe_read-tracks :
    (e : Env) (k ty : Str) (p : Peer)
    → (subscribe_read_data_topic e k ty p).0.outbound_media_tracks ≡ p.outbound_media_tracks
unfolding subscribe_read_data_topic
subscribe_read-tracks e k ty p = ground arith

open_read-home :
    (e : Env) (k j : Str) (s : Peer × Reply) (c : ℕ)
    → s.0.pc ≡ some c
    → Stays j s.0.outbound_media_tracks (open_read e k s).0.outbound_media_tracks
unfolding open_read
open_read-home e k j (p, r) c h g = ground (
  arith,
  subscribe_media-home e k (get_topic k p.discovered_topics) j p c h g,
  ap (home j) (subscribe_read-tracks e k (get_topic k p.discovered_topics) p),
)

pub open_reads-home :
    (e : Env) (ts : List Str) (j : Str) (s : Peer × Reply) (c : ℕ)
    → s.0.pc ≡ some c
    → Stays j s.0.outbound_media_tracks (open_reads e ts s).0.outbound_media_tracks
unfolding open_reads
open_reads-home e [] j s c h g = refl
open_reads-home e (t ∷ ts) j s c h g =
    Stays-trans j s.0.outbound_media_tracks (open_read e t s).0.outbound_media_tracks
      (open_reads e ts (open_read e t s)).0.outbound_media_tracks (open_read-home e t j s c h)
      (open_reads-home e ts j (open_read e t s) c ((open_read-Frame e t s).same_pc ∙ h)) g

subscribe_write-tracks :
    (e : Env) (k ty : Str) (p : Peer)
    → (subscribe_write_data_topic e k ty p).0.outbound_media_tracks ≡ p.outbound_media_tracks
unfolding subscribe_write_data_topic
subscribe_write-tracks e k ty p = ground arith

pub open_writes-tracks :
    (e : Env) (subs : List (Str × Str)) (s : Peer × Reply)
    → (open_writes e subs s).0.outbound_media_tracks ≡ s.0.outbound_media_tracks
unfolding open_writes open_write
open_writes-tracks e [] s = refl
open_writes-tracks e ((t, ty) ∷ subs) (p, r) =
    open_writes-tracks e subs _ ∙ subscribe_write-tracks e t ty p

unsubscribe_read-tracks :
    (e : Env) (t : Str) (p : Peer)
    → (unsubscribe_read_data_topic e t p).0.outbound_media_tracks ≡ p.outbound_media_tracks
unfolding unsubscribe_read_data_topic
unsubscribe_read-tracks e t p = ground arith

pub close_reads-tracks :
    (e : Env) (ts : List Str) (s : Peer × Reply)
    → (close_reads e ts s).0.outbound_media_tracks ≡ s.0.outbound_media_tracks
unfolding close_reads
close_reads-tracks e [] s = refl
close_reads-tracks e (t ∷ ts) (p, r) = close_reads-tracks e ts _ ∙ unsubscribe_read-tracks e t p

unsubscribe_write-tracks :
    (e : Env) (t : Str) (p : Peer)
    → (unsubscribe_write_data_topic e t p).0.outbound_media_tracks ≡ p.outbound_media_tracks
unfolding unsubscribe_write_data_topic
unsubscribe_write-tracks e t p = ground arith

pub close_writes-tracks :
    (e : Env) (ts : List Str) (s : Peer × Reply)
    → (close_writes e ts s).0.outbound_media_tracks ≡ s.0.outbound_media_tracks
unfolding close_writes
close_writes-tracks e [] s = refl
close_writes-tracks e (t ∷ ts) (p, r) = close_writes-tracks e ts _ ∙ unsubscribe_write-tracks e t p

unsubscribe_media-tracks :
    (k j : Str) (close : Bool) (p : Peer)
    → str_eq k j ≡ false
    → Stays j p.outbound_media_tracks (unsubscribe_media_topic k close p).0.outbound_media_tracks
unfolding unsubscribe_media_topic
unsubscribe_media-tracks k j close p h g = ground (
  arith,
  h,
  update-place j k false p.outbound_media_tracks g,
  find-erase k j p.outbound_media_tracks,
)

pub close_media-home :
    (close : Bool) (ts : List Str) (j : Str) (s : Peer × Reply)
    → mem j ts ≡ false
    → Stays j s.0.outbound_media_tracks (close_media close ts s).0.outbound_media_tracks
unfolding close_media mem
close_media-home close [] j s h g = refl
close_media-home close (t ∷ ts) j (p, r) h g =
    Stays-trans j p.outbound_media_tracks
      (unsubscribe_media_topic t close p).0.outbound_media_tracks _
      (unsubscribe_media-tracks t j close p (ground (arith, h)))
      (close_media-home close ts j _ (ground (arith, h))) g

pub mem-unused_tracks :
    (used : Str → Bool) (m : Map Str Track) (j : Str)
    → used j ≡ true
    → mem j (unused_tracks used m) ≡ false
unfolding unused_tracks mem
mem-unused_tracks used [] j h = refl
mem-unused_tracks used ((t, i) ∷ m) j h = ground (arith, mem-unused_tracks used m j h, h, used-eq)
  where
    used-eq : str_eq t j ≡ true → used t ≡ true
    used-eq q = ap used ((str_eq_iff t j).0 q) ∙ h
