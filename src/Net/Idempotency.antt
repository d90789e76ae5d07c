-- ===== src/Net/Idempotency.antt =====
-- apps/api/src/common/middleware/idempotency.middleware.ts: of the requests that carry one key, one
-- is handled and the others get its response. A value of Redis is the word 'processing' or the
-- text that JSON.stringify makes of a response; the clock is in milliseconds. A step is what runs
-- between two awaits, so that other requests come between the commands of one.
pub mod Exclusive
pub mod Replay
use text.Mathlib.Text.{starts_with}
use cherry_wiki.Base.{
  set_key, ℕ, ◌+◌, ◌<◌, String, Bool, true, false, ◌&&◌, not, Option, none, some, List, leb, ltb,
  ◌==◌, ◌=ₛ◌, ◌≡◌, if◌then◌else◌,
}
use cherry_wiki.Base.Text.{to_lower}
use cherry_wiki.Net.Capture.{Chunk, CaptureState, capture, concat}

pub record StoredIdempotentResponse : Type 0 where
  pub status_code : ℕ
  pub body : List ℕ
  pub content_type : String

pub data Value : Type 0 where
  processing : Value
  cached : StoredIdempotentResponse → Value

pub record Entry : Type 0 where
  pub value : Value
  pub expires_at : ℕ

-- What `replayResponse` answers; `is_replayed` is the header X-Idempotent-Replayed.
pub record Replayed : Type 0 where
  pub status_code : ℕ
  pub is_replayed : Bool
  pub content_type : String
  pub body : List ℕ

abbrev pub replay_response : StoredIdempotentResponse → Replayed
replay_response stored = record {
  status_code = 200;
  is_replayed = true;
  content_type = stored.content_type;
  body = stored.body;
}

abbrev pub live : ℕ → Option Entry → Option Entry
live now none = none
live now (some e) = if leb e.expires_at now then none else some e

abbrev pub processing_ttl : ℕ
processing_ttl = 300000

abbrev pub ttl : ℕ
ttl = 86400000

-- Where the middleware stands with a request. `running`: `next` has been called at a time, with
-- the reservation or without it.
pub data Phase : Type 0 where
  arriving reading conflicted finished : Phase
  running : Bool → ℕ → Phase
  replayed : Replayed → Phase

pub record Request : Type 0 where
  pub key : String
  pub phase : Phase

pub record Server : Type 0 where
  pub now : ℕ
  pub store : String → Option Entry
  pub requests : ℕ → Request

abbrev pub set_phase : ℕ → Phase → Server → Server
set_phase i phase s = record s {
  requests = λ j. if i == j then record (s.requests i) { phase = phase } else s.requests j;
}

abbrev pub put : String → Option Entry → Server → Server
put key e s = record s { store = set_key key e s.store }

abbrev pub set_nx : Option Entry → ℕ → Server → Server
set_nx none i s =
    put (s.requests i).key
      (some (record { value = processing; expires_at = s.now + processing_ttl }))
      (set_phase i (running true s.now) s)
set_nx (some e) i s = set_phase i reading s

-- `reserveOrReadExisting`, its SET.
unfoldable pub reserve : ℕ → Server → Server
reserve i s = set_nx (live s.now (s.store (s.requests i).key)) i s

abbrev pub answer : Value → Phase
answer processing = conflicted
answer (cached r) = replayed (replay_response r)

abbrev pub phase_of : Option Entry → ℕ → Phase
phase_of none now = running false now
phase_of (some e) now = answer e.value

-- `reserveOrReadExisting`, its GET, after a SET that found the key; and what `use` makes of it.
unfoldable pub read : ℕ → Server → Server
read i s = set_phase i (phase_of (live s.now (s.store (s.requests i).key)) s.now) s

-- A command of `reserveOrReadExisting` fails: the request is handled without a reservation.
unfoldable pub fail : ℕ → Server → Server
fail i s = set_phase i (running false s.now) s

pub record Response : Type 0 where
  pub status_code : ℕ
  pub content_type : Option String
  pub written : List Chunk
  pub last : Chunk
  pub rewritten : List Chunk  -- by the original `end`

-- `isCacheableResponse` and `createStoredResponse`.
unfoldable pub stored_response : ℕ → Option String → CaptureState → Option StoredIdempotentResponse
stored_response status none c = none
stored_response status (some content_type) c =
    if leb 200 status
      && ltb status 300
      && starts_with (to_lower content_type) "application/json"
      && not c.exceeded_size_limit
    then some (record { status_code = status; body = concat c.chunks; content_type = content_type })
    else none

abbrev pub entry_of : ℕ → Option StoredIdempotentResponse → Option Entry
entry_of now none = none
entry_of now (some r) = some (record { value = cached r; expires_at = now + ttl })

-- The listener of `finish`: the response is stored, or the reservation deleted.
unfoldable pub finish : ℕ → Response → Server → Server
unfolding stored_response
finish i r s =
    put (s.requests i).key
      (entry_of s.now
        (stored_response r.status_code r.content_type (capture r.rewritten r.written r.last)))
      (set_phase i finished s)

-- What requests and time do, in any order. A handler with a reservation ends before this expires.
pub data Step (s : Server) : Server → Type 0 where
  reserves : (i : ℕ) → (s.requests i).phase ≡ arriving → Step s (reserve i s)
  reads : (i : ℕ) → (s.requests i).phase ≡ reading → Step s (read i s)
  fails_to_reserve : (i : ℕ) → (s.requests i).phase ≡ arriving → Step s (fail i s)
  fails_to_read : (i : ℕ) → (s.requests i).phase ≡ reading → Step s (fail i s)
  finishes :
      (i since : ℕ) (r : Response)
      → (s.requests i).phase ≡ running true since
      → s.now < since + processing_ttl
      → Step s (finish i r s)
  -- A handler without a reservation ends, or the command of `finish` fails.
  ends :
      (i since : ℕ) (reserved : Bool)
      → (s.requests i).phase ≡ running reserved since
      → Step s (set_phase i finished s)
  waits : (t : ℕ) → Step s (record s { now = s.now + t })

-- Requests with any keys that have not come yet, and an empty Redis.
abbrev pub opening : (ℕ → String) → Server
opening keys = record {
  now = 0;
  store = λ k. none;
  requests = λ i. record { key = keys i; phase = arriving };
}

pub data Reach (keys : ℕ → String) : Server → Type 0 where
  start : Reach keys (opening keys)
  later : {s s' : Server} → Reach keys s → Step s s' → Reach keys s'
