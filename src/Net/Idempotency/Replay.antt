-- ===== src/Net/Idempotency/Replay.antt =====
-- A stored response is replayed until it expires.
use cherry_wiki.Base.{ℕ, some, Option}
use cherry_wiki.Net.Idempotency.{Server, Entry, StoredIdempotentResponse, cached, Step}

-- Any number of steps.
pub data Steps (s : Server) : Server → Type 0 where
  here : Steps s s
  more : {s' s'' : Server} → Steps s s' → Step s' s'' → Steps s s''

abbrev stored : StoredIdempotentResponse → ℕ → Option Entry
stored r t = some (record { value = cached r; expires_at = t })
