-- ===== src/Files/Delivery.antt =====
-- The request of a file that one extractor has, in FileExtractor::findAndUploadFile, to its end.
use phntm_bridge.Prelude.{
  ℕ, ◌<◌, ◌≡◌, refl, sym, ap, subst, ◌∙◌, true, false, some, List, [], ◌∷◌, ◌++◌, Str, none, Option,
  arith,
}
use phntm_bridge.Files.{answered, Chunks, reset_path}
use phntm_bridge.Files.Request.{
  Phase, Shared, object_ack, Reading, ready, accepted, timed_out, completed, Call, Event, step,
  receive, join, start_call, find_and_upload, thread_step, call_step, set_chunks, completing, ended,
  awaiting, look, complete,
}
use phntm_bridge.Files.Chunks.{
  Received, receive_all, names_chunk, AllUploaded, receive_all-completes, look-waits,
  find-reset_path,
}

find_and_upload-append :
    (reading : Reading) (path : Str) (es fs : List Event) (c : Call)
    → find_and_upload reading path (es ++ fs) c
      ≡ find_and_upload reading path fs (find_and_upload reading path es c)
unfolding find_and_upload
find_and_upload-append reading path [] fs c = refl
find_and_upload-append reading path (e ∷ es) fs c =
    find_and_upload-append reading path es fs (call_step reading path e c)

abbrev receives : Received → List Event
receives [] = []
receives ((reply, c) ∷ rs) = receive reply c ∷ receives rs

find_and_upload-receives :
    (reading : Reading) (path : Str) (rs : Received) (c : Call)
    → find_and_upload reading path (receives rs) c ≡ set_chunks (receive_all rs c.shared.chunks) c
unfolding find_and_upload call_step
find_and_upload-receives reading path [] c = refl
find_and_upload-receives reading path ((reply, k) ∷ rs) c =
    find_and_upload-receives reading path rs _

abbrev last : Str → List Event
last body = step 0 timed_out ∷ step 0 (completed (answered 200 body)) ∷ join ∷ []

-- The events of an upload: the extractor has the file in so many parts, chunks are received, and the
-- server puts the file together.
abbrev pub upload : ℕ → Received → Str → List Event
upload parts rs body = step 0 ready ∷ step 0 (accepted parts) ∷ (receives rs ++ last body)

look-same :
    (path : Str) (parts : ℕ) (s : Shared)
    → (look path parts s).0 ≡ completing
    → look path parts s ≡ (completing, s)
unfolding look
look-same path parts s h = ground (arith, h)

-- A call with one thread.
abbrev one : Phase × Shared → Call
one (p, s) = record { shared = s; threads = p ∷ []; joined = false }

accepted-runs :
    (reading : Reading) (path : Str) (parts : ℕ) (chunks : Chunks) (es : List Event)
    → let s : Shared = record { chunks = reset_path path chunks; success = false; acks = [] } in
      look path parts s ≡ (awaiting parts, s)
      → find_and_upload reading path
          (step 0 ready ∷ step 0 (accepted parts) ∷ es)
          (start_call 1 chunks)
        ≡ find_and_upload reading path es (one (awaiting parts, s))
unfolding find_and_upload call_step thread_step start_call
accepted-runs reading path parts chunks es q = ap (λ r. find_and_upload reading path es (one r)) q

last-runs :
    (reading : Reading) (path : Str) (parts : ℕ) (body : Str) (name : Option Str) (s : Shared)
    → look path parts s ≡ (completing, s)
    → reading body ≡ some name
    → find_and_upload reading path (last body) (one (awaiting parts, s)) ≡ record {
      shared = record s { success = true; acks = s.acks ++ object_ack name ∷ [] };
      threads = ended ∷ [];
      joined = true;
    }
unfolding find_and_upload call_step thread_step complete
last-runs reading path parts body name s q r =
    ap
      (λ p.
        find_and_upload reading path (step 0 (completed (answered 200 body)) ∷ join ∷ []) (one p))
      q
    ∙ ap (λ o. find_and_upload reading path (join ∷ []) (one (done o))) r
  where
    done : Option (Option Str) → Phase × Shared
    done o = elim o [
      | none ↦ (ended, record s { success = true })
      | some n ↦ (ended, record s { success = true; acks = s.acks ++ object_ack n ∷ [] })
    ]

-- A file of one extractor that comes in parts, each of which is received and uploaded, in whatever
-- order and however often, and that the server puts together, is acknowledged once, with the name that
-- the server gives it, and the request is over then.
pub upload_answered :
    (reading : Reading) (path : Str) (parts : ℕ) (rs : Received) (body : Str) (name : Option Str)
    (chunks : Chunks)
    → 0 < parts
    → ((k : ℕ) → k < parts → names_chunk path k rs ≡ true)
    → AllUploaded rs
    → reading body ≡ some name
    → let c = find_and_upload reading path (upload parts rs body) (start_call 1 chunks) in
      (c.joined ≡ true) × (c.shared.acks ≡ object_ack name ∷ [])
upload_answered reading path parts rs body name chunks pos named up r =
    let s₁ : Shared = record { chunks = reset_path path chunks; success = false; acks = [] } in
    let empty = find-reset_path path chunks in
    let waits = look-waits path parts s₁ [] empty pos in
    let done = receive_all-completes path parts rs s₁ empty named up in
    subst Answered
      (sym (
        accepted-runs reading path parts chunks _ waits
        ∙ find_and_upload-append reading path (receives rs) (last body) _
        ∙ ap (find_and_upload reading path (last body)) (find_and_upload-receives reading path rs _)
        ∙ last-runs reading path parts body name _ (look-same path parts _ done) r))
      (refl, refl)
  where
    Answered : Call → Type 0
    Answered c = (c.joined ≡ true) × (c.shared.acks ≡ object_ack name ∷ [])
