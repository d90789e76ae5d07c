-- ===== src/Net/Capture.antt =====
-- captureAndStoreResponse of apps/api/src/common/middleware/idempotency.middleware.ts, up to its
-- `finish`: what the wrapped `write` and `end` of a response keep of its body.
pub mod Whole
use cherry_wiki.Base.{
  ℕ, ◌+◌, Bool, true, false, Option, none, some, List, [], ◌∷◌, ◌++◌, length, ltb, if◌then◌else◌,
}

-- The bytes of a chunk; none: there is no chunk, or it is of no known type.
abbrev pub Chunk : Type 0
Chunk = Option (List ℕ)

pub record CaptureState : Type 0 where
  pub chunks : List (List ℕ)
  pub total_bytes : ℕ
  pub exceeded_size_limit : Bool

abbrev pub nothing_captured : CaptureState
nothing_captured = record { chunks = []; total_bytes = 0; exceeded_size_limit = false }

abbrev pub max_cached_response_bytes : ℕ
max_cached_response_bytes = 1048576

abbrev take_buffer : Chunk → CaptureState → CaptureState
take_buffer none c = c
take_buffer (some buffer) c =
    let total = c.total_bytes + length buffer in
    if ltb max_cached_response_bytes total
    then record c { exceeded_size_limit = true; chunks = [] }
    else record c { total_bytes = total; chunks = c.chunks ++ buffer ∷ [] }

unfoldable pub capture_chunk : Chunk → CaptureState → CaptureState
capture_chunk chunk c = if c.exceeded_size_limit then c else take_buffer chunk c

-- `res.write`, by whether it is called from within the original `end`.
unfoldable pub res_write : Bool → Chunk → CaptureState → CaptureState
res_write forwarding_end_chunk chunk c = if forwarding_end_chunk then c else capture_chunk chunk c

abbrev pub write_all : Bool → List Chunk → CaptureState → CaptureState
write_all forwarding [] c = c
write_all forwarding (chunk ∷ chunks) c = write_all forwarding chunks (res_write forwarding chunk c)

-- `res.end`; the original `end` may call `write` for `inner` chunks.
unfoldable pub res_end : List Chunk → Chunk → CaptureState → CaptureState
res_end inner chunk c = write_all true inner (capture_chunk chunk c)

-- A response: what is written, then the chunk of its end.
unfoldable pub capture : List Chunk → List Chunk → Chunk → CaptureState
capture inner written last = res_end inner last (write_all false written nothing_captured)

-- Buffer.concat.
unfoldable pub concat : List (List ℕ) → List ℕ
concat [] = []
concat (x ∷ xs) = x ++ concat xs
