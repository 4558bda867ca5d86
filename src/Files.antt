-- ===== src/Files.antt =====
-- FileExtractor of src/file_extractor.cpp: the chunks of a file that extractors publish, their upload,
-- and the request of a file by the cloud. A path of `uploaded_chunks` has the chunks that were tried,
-- each with its first result. What libcurl, jsoncpp and rclcpp give are the arguments.
pub mod Chunks
pub mod Request
pub mod Acks
pub mod Delivery
pub mod Cache
pub mod Examples
use phntm_bridge.Prelude.{
  ℕ, ◌+◌, Bool, true, false, not, none, some, List, [], ◌∷◌, Str, nat_eq, if◌then◌else◌, Map,
  emplace, erase, update, nat_key, str_key,
}

-- A request by libcurl: without a handle, with an error and its words, or with the code and the body
-- of the answer.
pub data Curl : Type 0 where
  no_handle : Curl
  failed : Str → Curl
  answered : ℕ → Str → Curl

-- uploaded_chunks.
abbrev pub Chunks : Type 0
Chunks = Map Str (Map ℕ Bool)

pub record Chunk : Type 0 where
  pub file_path : Str
  pub chunk_number : ℕ

-- markChunkResult: of a path that has no entry, and of a chunk that has one, nothing is kept.
unfoldable pub mark_chunk_result : Str → ℕ → Bool → Chunks → Chunks
mark_chunk_result path n ok chunks = update path (emplace n ok) chunks

-- The result of receiveChunk's upload.
unfoldable pub upload_ok : Curl → Bool
upload_ok no_handle = false
upload_ok (failed err) = false
upload_ok (answered code body) = nat_eq code 200

unfoldable pub receive_chunk : Curl → Chunk → Chunks → Chunks
unfolding mark_chunk_result upload_ok
receive_chunk reply c chunks = mark_chunk_result c.file_path c.chunk_number (upload_ok reply) chunks

-- The entry of a path is made anew, before its chunks are awaited.
unfoldable pub reset_path : Str → Chunks → Chunks
reset_path path chunks = emplace path [] (erase path chunks)

-- The chunks that failed.
unfoldable pub num_err : Map ℕ Bool → ℕ
num_err [] = 0
num_err ((n, ok) ∷ m) = (if ok then 0 else 1) + num_err m
