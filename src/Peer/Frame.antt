-- ===== src/Peer/Frame.antt =====
-- What the steps of a run leave alone: the requests, the topics, the connection.
use phntm_bridge.Prelude.{◌≡◌, refl, ◌∙◌, Bool, List, [], ◌∷◌, Str, arith}
use phntm_bridge.Introspection.Lookup.{get_topic}
use phntm_bridge.Peer.{Peer}
use phntm_bridge.Peer.Channels.{
  Env, subscribe_read_data_topic, subscribe_write_data_topic, subscribe_media_topic,
  unsubscribe_read_data_topic, unsubscribe_write_data_topic, unsubscribe_media_topic,
}
use phntm_bridge.Peer.Process.{
  Reply, open_read, open_reads, open_write, open_writes, close_reads, close_media, close_writes,
}

pub record Frame (p p' : Peer) : Type 0 where
  pub same_pc : p'.pc ≡ p.pc
  pub same_topics : p'.discovered_topics ≡ p.discovered_topics
  pub same_read : p'.req_read_subs ≡ p.req_read_subs
  pub same_write : p'.req_write_subs ≡ p.req_write_subs
  pub same_connected : p'.is_connected ≡ p.is_connected

Frame-refl : (p : Peer) → Frame p p
Frame-refl p = record {
  same_pc = refl;
  same_topics = refl;
  same_read = refl;
  same_write = refl;
  same_connected = refl;
}

pub Frame-trans : {p q r : Peer} → Frame p q → Frame q r → Frame p r
Frame-trans f g = record {
  same_pc = g.same_pc ∙ f.same_pc;
  same_topics = g.same_topics ∙ f.same_topics;
  same_read = g.same_read ∙ f.same_read;
  same_write = g.same_write ∙ f.same_write;
  same_connected = g.same_connected ∙ f.same_connected;
}

subscribe_read-Frame :
    (e : Env) (t ty : Str) (p : Peer) → Frame p (subscribe_read_data_topic e t ty p).0
unfolding subscribe_read_data_topic
subscribe_read-Frame e t ty p = ground arith

subscribe_media-Frame :
    (e : Env) (t ty : Str) (p : Peer) → Frame p (subscribe_media_topic e t ty p).0
unfolding subscribe_media_topic
subscribe_media-Frame e t ty p = ground arith

subscribe_write-Frame :
    (e : Env) (t ty : Str) (p : Peer) → Frame p (subscribe_write_data_topic e t ty p).0
unfolding subscribe_write_data_topic
subscribe_write-Frame e t ty p = ground arith

unsubscribe_read-Frame :
    (e : Env) (t : Str) (p : Peer) → Frame p (unsubscribe_read_data_topic e t p).0
unfolding unsubscribe_read_data_topic
unsubscribe_read-Frame e t p = ground arith

unsubscribe_media-Frame :
    (t : Str) (close : Bool) (p : Peer) → Frame p (unsubscribe_media_topic t close p).0
unfolding unsubscribe_media_topic
unsubscribe_media-Frame t close p = ground arith

unsubscribe_write-Frame :
    (e : Env) (t : Str) (p : Peer) → Frame p (unsubscribe_write_data_topic e t p).0
unfolding unsubscribe_write_data_topic
unsubscribe_write-Frame e t p = ground arith

-- The loops: a frame around each.
pub open_read-Frame : (e : Env) (t : Str) (s : Peer × Reply) → Frame s.0 (open_read e t s).0
unfolding open_read
open_read-Frame e t (p, r) = ground (
  arith,
  Frame-refl p,
  subscribe_read-Frame e t (get_topic t p.discovered_topics) p,
  subscribe_media-Frame e t (get_topic t p.discovered_topics) p,
)

pub open_reads-Frame :
    (e : Env) (ts : List Str) (s : Peer × Reply) → Frame s.0 (open_reads e ts s).0
unfolding open_reads
open_reads-Frame e [] s = Frame-refl s.0
open_reads-Frame e (t ∷ ts) s =
    Frame-trans (open_read-Frame e t s) (open_reads-Frame e ts (open_read e t s))

pub open_write-Frame : (e : Env) (t ty : Str) (s : Peer × Reply) → Frame s.0 (open_write e t ty s).0
unfolding open_write
open_write-Frame e t ty (p, r) = subscribe_write-Frame e t ty p

pub open_writes-Frame :
    (e : Env) (subs : List (Str × Str)) (s : Peer × Reply) → Frame s.0 (open_writes e subs s).0
unfolding open_writes
open_writes-Frame e [] s = Frame-refl s.0
open_writes-Frame e ((t, ty) ∷ subs) s =
    Frame-trans (open_write-Frame e t ty s) (open_writes-Frame e subs (open_write e t ty s))

pub close_reads-Frame :
    (e : Env) (ts : List Str) (s : Peer × Reply) → Frame s.0 (close_reads e ts s).0
unfolding close_reads
close_reads-Frame e [] s = Frame-refl s.0
close_reads-Frame e (t ∷ ts) (p, r) =
    Frame-trans (unsubscribe_read-Frame e t p) (close_reads-Frame e ts _)

pub close_media-Frame :
    (close : Bool) (ts : List Str) (s : Peer × Reply) → Frame s.0 (close_media close ts s).0
unfolding close_media
close_media-Frame close [] s = Frame-refl s.0
close_media-Frame close (t ∷ ts) (p, r) =
    Frame-trans (unsubscribe_media-Frame t close p) (close_media-Frame close ts _)

pub close_writes-Frame :
    (e : Env) (ts : List Str) (s : Peer × Reply) → Frame s.0 (close_writes e ts s).0
unfolding close_writes
close_writes-Frame e [] s = Frame-refl s.0
close_writes-Frame e (t ∷ ts) (p, r) =
    Frame-trans (unsubscribe_write-Frame e t p) (close_writes-Frame e ts _)
