-- ===== src/Files/Examples.antt =====
-- The request of a file of src/file_extractor.cpp on concrete events.
use phntm_bridge.Prelude.{
  ℕ, zero, suc, ◌≤◌, ◌<◌, ◌≡◌, refl, true, false, some, List, [], ◌∷◌, Str, codes, length, arith,
  find, emplace, insert_new, erase, str_eq, str_key, nat_key,
}
use phntm_bridge.Files.{Curl, answered, Chunk, upload_ok, num_err}
use phntm_bridge.Files.Request.{
  Shared, Reading, Event, ready, accepted, completed, timed_out, step, join, object_ack, start_call,
  find_and_upload, call_step, thread_step, look, complete, requested, awaiting,
}
use phntm_bridge.Files.Chunks.{Received, receive_all, names_chunk, early_chunks_lost}
use phntm_bridge.Files.Delivery.{upload, upload_answered}
use phntm_bridge.Files.Acks.{find_and_upload-acks}

abbrev path : Str
path = codes "/a"

abbrev reading : Reading
reading body = some (some body)

abbrev chunk : ℕ → Chunk
chunk n = record { file_path = path; chunk_number = n }

abbrev ok : Curl
ok = answered 200 []

-- The second part comes before the first.
abbrev both : Received
both = (ok, chunk 1) ∷ (ok, chunk 0) ∷ []

both_named : (k : ℕ) → k < 2 → names_chunk path k both ≡ true
unfolding str_eq
both_named zero l = refl
both_named (suc zero) l = refl
both_named (suc (suc k)) l = absurd (omega (arith, l))

upload_answered_example :
    let c = find_and_upload reading path (upload 2 both (codes "f")) (start_call 1 []) in
    (c.joined ≡ true) × (c.shared.acks ≡ object_ack (some (codes "f")) ∷ [])
unfolding upload_ok
upload_answered_example =
    upload_answered reading path 2 both (codes "f") (some (codes "f")) [] (omega arith) both_named
      (refl, (refl, tt)) refl

abbrev found : List Event
found =
    step 0 ready
    ∷ step 0 (accepted 0)
    ∷ step 0 (completed ok)
    ∷ step 1 ready
    ∷ step 1 (accepted 0)
    ∷ step 1 (completed ok)
    ∷ join
    ∷ []

-- Two extractors that have the file acknowledge the message twice.
two_acks :
    (find_and_upload reading path found (start_call 2 [])).shared.acks
    ≡ object_ack (some []) ∷ object_ack (some []) ∷ []
unfolding find_and_upload call_step thread_step look complete start_call find emplace erase
    insert_new str_eq num_err
two_acks = refl

find_and_upload-acks_example :
    let c = find_and_upload reading path found (start_call 2 []) in
    (1 ≤ length c.shared.acks) × (length c.shared.acks ≤ 2)
unfolding find_and_upload call_step thread_step look complete start_call find emplace erase
    insert_new str_eq num_err
find_and_upload-acks_example = find_and_upload-acks reading path found 2 [] (λ b. refl) refl

abbrev shared : Shared
shared = record { chunks = (path, (0, false) ∷ []) ∷ []; success = false; acks = [] }

early_chunks_lost_example :
    let s₁ = record shared { chunks = receive_all both shared.chunks } in
    let (p, s₂) = thread_step reading path (accepted 2) requested s₁ in
    thread_step reading path timed_out p s₂ ≡ (awaiting 2, s₂)
early_chunks_lost_example = early_chunks_lost reading path 2 both [] shared (omega arith)
