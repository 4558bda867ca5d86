-- ===== src/Files/Request.antt =====
-- FileExtractor::findAndUploadFile of src/file_extractor.cpp: a thread for every extractor, the state
-- that they share, and their steps in any order. A step of a thread is what it does up to its next
-- wait; the chunks are received by other threads in between. An acknowledgement is a call of
-- BridgeSocket::ack, which drops it where there is no connection.
use phntm_bridge.Prelude.{
  ℕ, zero, suc, Bool, true, false, not, ◌&&◌, Option, none, some, List, [], ◌∷◌, ◌++◌, Str, length,
  ltb, nat_eq, all, get_elem?, set_at, if◌then◌else◌, find, str_key,
}
use phntm_bridge.Files.{
  Curl, no_handle, failed, answered, Chunk, Chunks, receive_chunk, reset_path, num_err,
}

-- Where a thread is: waiting for the service, for its answer, for so many chunks, or for the server
-- to put the file together.
pub data Phase : Type 0 where
  finding requested : Phase
  awaiting : ℕ → Phase
  completing ended : Phase

-- What happens to a thread: a wait that runs out, a service that is ready, the end of rclcpp, a future
-- that is not valid, one that throws, the extractor's answer, and the server's.
pub data Input : Type 0 where
  timed_out ready shut_down invalidated thrown refused : Input
  accepted : ℕ → Input
  completed : Curl → Input

pub data Ack : Type 0 where
  null_ack : Ack
  object_ack : Option Str → Ack

pub record Shared : Type 0 where
  pub chunks : Chunks
  pub success : Bool
  pub acks : List Ack

-- What jsoncpp reads from the server's answer: its file name if it has one. `none`: it throws, as for
-- an answer that is no object.
abbrev pub Reading : Type 0
Reading = Str → Option (Option Str)

abbrev unsuccessful : Shared → Phase × Shared
unsuccessful s = (ended, record s { success = false })

-- A look at the chunks, as the wait makes it after each pause. `at` of a path that is not there
-- throws, which ends the thread.
unfoldable pub look : Str → ℕ → Shared → Phase × Shared
look path parts s = elim (find path s.chunks) [
  | none ↦ (ended, s)
  | some m ↦
      if ltb (length m) parts
      then (awaiting parts, s)
      else (if not (nat_eq (num_err m) 0) then unsuccessful s else (completing, s))
]

-- The server's answer. `success` is set before the answer is read.
unfoldable pub complete : Reading → Curl → Shared → Phase × Shared
complete reading no_handle s = unsuccessful s
complete reading (failed err) s = unsuccessful s
complete reading (answered code body) s =
    if nat_eq code 200
    then elim (reading body) [
      | none ↦ (ended, record s { success = true })
      | some name ↦ (ended, record s { success = true; acks = s.acks ++ object_ack name ∷ [] })
    ]
    else unsuccessful s

-- One step of a thread; an input that does not belong to its phase leaves it.
unfoldable pub thread_step : Reading → Str → Input → Phase → Shared → Phase × Shared
unfolding reset_path look complete
thread_step reading path ready finding s = (requested, s)
thread_step reading path shut_down finding s = (ended, s)
thread_step reading path shut_down requested s = (ended, s)
thread_step reading path invalidated requested s = (ended, s)
thread_step reading path thrown requested s = (ended, s)
thread_step reading path refused requested s = (ended, s)
thread_step reading path (accepted parts) requested s =
    look path parts (record s { chunks = reset_path path s.chunks })
thread_step reading path timed_out (awaiting parts) s = look path parts s
thread_step reading path (completed reply) completing s = complete reading reply s
thread_step reading path i p s = (p, s)

-- `joined`: every thread has ended, and the call is over.
pub record Call : Type 0 where
  pub shared : Shared
  pub threads : List Phase
  pub joined : Bool

abbrev pub is_ended : Phase → Bool
is_ended ended = true
is_ended finding = false
is_ended requested = false
is_ended (awaiting n) = false
is_ended completing = false

-- A step of a thread, a chunk that is received, the reset of a path by another call, and the end of
-- the joins.
pub data Event : Type 0 where
  step : ℕ → Input → Event
  receive : Curl → Chunk → Event
  other_reset : Str → Event
  join : Event

-- The threads are started with the extractors that were discovered; without one, the call is over.
abbrev pub new_threads : ℕ → List Phase
new_threads zero = []
new_threads (suc n) = finding ∷ new_threads n

unfoldable pub start_call : ℕ → Chunks → Call
start_call n chunks = record {
  shared = record {
    chunks = chunks;
    success = false;
    acks = if nat_eq n 0 then null_ack ∷ [] else [];
  };
  threads = new_threads n;
  joined = nat_eq n 0;
}

abbrev pub set_chunks : Chunks → Call → Call
set_chunks chunks c = record c { shared = record c.shared { chunks = chunks } }

-- Behind the joins: what was not successful is acknowledged as an error.
abbrev answer : Shared → Shared
answer s = if s.success then s else record s { acks = s.acks ++ null_ack ∷ [] }

unfoldable pub call_step : Reading → Str → Event → Call → Call
unfolding thread_step receive_chunk reset_path
call_step reading path (step i input) c = elim (get_elem? c.threads i) [
  | none ↦ c
  | some p ↦
      let (q, s) = thread_step reading path input p c.shared in
      record c { shared = s; threads = set_at i q c.threads }
]
call_step reading path (receive reply chunk) c =
    set_chunks (receive_chunk reply chunk c.shared.chunks) c
call_step reading path (other_reset p) c = set_chunks (reset_path p c.shared.chunks) c
call_step reading path join c =
    if not c.joined && all is_ended c.threads
    then record c { shared = answer c.shared; joined = true }
    else c

unfoldable pub find_and_upload : Reading → Str → List Event → Call → Call
unfolding call_step
find_and_upload reading path [] c = c
find_and_upload reading path (e ∷ es) c =
    find_and_upload reading path es (call_step reading path e c)
