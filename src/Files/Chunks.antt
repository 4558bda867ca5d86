-- ===== src/Files/Chunks.antt =====
-- The chunks of a file that FileExtractor of src/file_extractor.cpp counts, and when its wait ends.
use phntm_bridge.Prelude.{
  ℕ, zero, suc, ◌+◌, ◌≤◌, ◌<◌, ◌≡◌, ◌≢◌, ◌↔◌, refl, ◌∙◌, Bool, true, ◌&&◌, ◌||◌, some, List, [],
  ◌∷◌, Str, length, any, str_eq, nat_eq, if◌then◌else◌, Map, find, contains, emplace, erase,
  insert_new, nat_key, str_key, find-emplace, find-erase, find-update, arith, str_eq_refl,
}
use phntm_bridge.Files.{
  Curl, Chunk, Chunks, receive_chunk, mark_chunk_result, upload_ok, reset_path, num_err,
}
use phntm_bridge.Files.Request.{
  awaiting, completing, requested, accepted, timed_out, Shared, Reading, look, thread_step,
}

abbrev pub Received : Type 0
Received = List (Curl × Chunk)

-- receiveChunk, for each message of the topic in order.
abbrev pub receive_all : Received → Chunks → Chunks
receive_all [] chunks = chunks
receive_all ((reply, c) ∷ rs) chunks = receive_all rs (receive_chunk reply c chunks)

-- What they leave of one path.
abbrev noted : Str → Curl → Chunk → Map ℕ Bool → Map ℕ Bool
noted path reply c m =
    if str_eq c.file_path path then emplace c.chunk_number (upload_ok reply) m else m

abbrev tried : Str → Received → Map ℕ Bool → Map ℕ Bool
tried path [] m = m
tried path ((reply, c) ∷ rs) m = tried path rs (noted path reply c m)

find-receive_all :
    (path : Str) (rs : Received) (chunks : Chunks) (m : Map ℕ Bool)
    → find path chunks ≡ some m
    → find path (receive_all rs chunks) ≡ some (tried path rs m)
unfolding receive_chunk mark_chunk_result
find-receive_all path [] chunks m h = h
find-receive_all path ((reply, c) ∷ rs) chunks m h = find-receive_all path rs _ _ (
    ground
      (arith, h, find-update c.file_path path (emplace c.chunk_number (upload_ok reply)) chunks))

length-insert_new : (k : ℕ) (b : Bool) (m : Map ℕ Bool) → length (insert_new k b m) ≡ 1 + length m
unfolding insert_new
length-insert_new k b [] = refl
length-insert_new k b ((j, c) ∷ m) = ground (arith, length-insert_new k b m)

num_err-insert_new :
    (k : ℕ) (b : Bool) (m : Map ℕ Bool)
    → num_err (insert_new k b m) ≡ (if b then 0 else 1) + num_err m
unfolding insert_new num_err
num_err-insert_new k b [] = refl
num_err-insert_new k b ((j, c) ∷ m) = ground (arith, num_err-insert_new k b m)

-- One more message: at most one more chunk, no failure taken back, and none added by a success.
emplace_bounds :
    (k : ℕ) (b : Bool) (m : Map ℕ Bool)
    → (length (emplace k b m) ≤ 1 + length m)
      × (num_err m ≤ num_err (emplace k b m))
      × (b ≡ true → num_err (emplace k b m) ≡ num_err m)
unfolding emplace
emplace_bounds k b m = ground (arith, length-insert_new k b m, num_err-insert_new k b m)

tried_bounds :
    (path : Str) (rs : Received) (m : Map ℕ Bool)
    → (length (tried path rs m) ≤ length rs + length m) × (num_err m ≤ num_err (tried path rs m))
tried_bounds path [] m = ground arith
tried_bounds path ((reply, c) ∷ rs) m = ground (
  arith,
  emplace_bounds c.chunk_number (upload_ok reply) m,
  tried_bounds path rs (noted path reply c m),
)

abbrev pub names_chunk : Str → ℕ → Received → Bool
names_chunk path n rs = any (λ r. str_eq r.1.file_path path && nat_eq r.1.chunk_number n) rs

tried-contains :
    (path : Str) (n : ℕ) (rs : Received) (m : Map ℕ Bool)
    → contains n (tried path rs m) ≡ contains n m || names_chunk path n rs
tried-contains path n [] m = ground arith
tried-contains path n ((reply, c) ∷ rs) m = ground (
  arith,
  tried-contains path n rs (noted path reply c m),
  find-emplace c.chunk_number n (upload_ok reply) m,
)

abbrev pub AllUploaded : Received → Type 0
AllUploaded [] = Unit
AllUploaded ((reply, c) ∷ rs) = (upload_ok reply ≡ true) × AllUploaded rs

tried-num_err :
    (path : Str) (rs : Received) (m : Map ℕ Bool)
    → AllUploaded rs
    → num_err (tried path rs m) ≡ num_err m
tried-num_err path [] m u = refl
tried-num_err path ((reply, c) ∷ rs) m (h, u) = ground (
  arith,
  h,
  emplace_bounds c.chunk_number (upload_ok reply) m,
  tried-num_err path rs (noted path reply c m) u,
)

length-erase :
    (k : ℕ) (m : Map ℕ Bool)
    → (length (erase k m) ≤ length m) × (contains k m ≡ true → 1 + length (erase k m) ≤ length m)
unfolding erase find
length-erase k [] = ground arith
length-erase k ((j, b) ∷ m) = ground (arith, length-erase k m)

-- A map with every number below a bound has that many entries.
size_covers : (n : ℕ) (m : Map ℕ Bool) → ((k : ℕ) → k < n → contains k m ≡ true) → n ≤ length m
size_covers zero m h = omega arith
size_covers (suc n) m h =
    let e = length-erase n m in
    let rest = size_covers n (erase n m) (λ k l. ground (arith, h k, l, find-erase n k m)) in
    ground (arith, e, rest, h n)

pub find-reset_path : (path : Str) (chunks : Chunks) → find path (reset_path path chunks) ≡ some []
unfolding reset_path
find-reset_path path chunks = ground (
  arith,
  find-emplace path path [] (erase path chunks),
  find-erase path path chunks,
  str_eq_refl path,
)

look-found :
    (path : Str) (parts : ℕ) (s : Shared) (m : Map ℕ Bool)
    → find path s.chunks ≡ some m
    → ((look path parts s).0 ≡ completing) ↔ ((parts ≤ length m) × (num_err m ≡ 0))
unfolding look
look-found path parts s m h = ground (arith, h)

-- A thread that awaits the chunks of a file goes on to put it together, after the messages that came
-- since its start, if every number below that of the parts was among them and every upload succeeded.
pub receive_all-completes :
    (path : Str) (parts : ℕ) (rs : Received) (s : Shared)
    → find path s.chunks ≡ some []
    → ((k : ℕ) → k < parts → names_chunk path k rs ≡ true)
    → AllUploaded rs
    → (look path parts (record s { chunks = receive_all rs s.chunks })).0 ≡ completing
unfolding find num_err
receive_all-completes path parts rs s h named up =
    let m = tried path rs [] in
    (look-found path parts _ m (find-receive_all path rs s.chunks [] h)).1 (
      size_covers parts m (λ k l. tried-contains path k rs [] ∙ named k l),
      tried-num_err path rs [] up,
    )

-- An upload of a chunk that failed is not made good: whatever chunks are received after it, the same
-- one again among them, the thread that awaits the file does not go on to put it together.
failed_upload_stays :
    (path : Str) (parts : ℕ) (rs : Received) (s : Shared) (m : Map ℕ Bool)
    → find path s.chunks ≡ some m
    → 1 ≤ num_err m
    → (look path parts (record s { chunks = receive_all rs s.chunks })).0 ≢ completing
failed_upload_stays path parts rs s m h bad q =
    let (_, e) = (look-found path parts _ _ (find-receive_all path rs s.chunks m h)).0 q in
    ground (arith, e, bad, tried_bounds path rs m)

pub look-waits :
    (path : Str) (parts : ℕ) (s : Shared) (m : Map ℕ Bool)
    → find path s.chunks ≡ some m
    → length m < parts
    → look path parts s ≡ (awaiting parts, s)
unfolding look
look-waits path parts s m h l = ground (arith, h, l)

-- Chunks that are received before the thread takes the extractor's answer are lost: with fewer
-- messages than parts behind it, it waits on, whatever came before.
pub early_chunks_lost :
    (reading : Reading) (path : Str) (parts : ℕ) (early rs : Received) (s : Shared)
    → length rs < parts
    → let s₁ = record s { chunks = receive_all early s.chunks } in
      let (p, s₂) = thread_step reading path (accepted parts) requested s₁ in
      let s₃ = record s₂ { chunks = receive_all rs s₂.chunks } in
      thread_step reading path timed_out p s₃ ≡ (awaiting parts, s₃)
unfolding thread_step
early_chunks_lost reading path parts early rs s l =
    let s₁ = record s { chunks = reset_path path (receive_all early s.chunks) } in
    let start = look-waits path parts s₁ [] (find-reset_path path _) (ground (arith, l)) in
    let s₃ = record s₁ { chunks = receive_all rs s₁.chunks } in
    rw (start) (
      look-waits path parts s₃ (tried path rs [])
        (find-receive_all path rs s₁.chunks [] (find-reset_path path _))
        (ground (arith, l, tried_bounds path rs [])))
