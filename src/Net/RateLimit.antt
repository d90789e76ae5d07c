-- ===== src/Net/RateLimit.antt =====
-- The sliding windows of apps/api/src/common/guards/rate-limit.guard.ts, bridge/bridge-rate-limit.guard.ts
-- and mcp/mcp-rate-limit.ts. A sorted set of Redis is the list of its scores: its members are told
-- apart by random ids. The clock of the API and that of Redis are one, in milliseconds.
pub mod Alive
pub mod Window
pub mod Guards
use cherry_wiki.Base.{
  ℕ, suc, ◌+◌, ◌*◌, ◌-◌, String, Bool, true, false, not, Option, none, some, List, [], ◌∷◌, ◌++◌,
  ltb, leb, length, keep, if◌then◌else◌, ◌=ₛ◌, max,
}
use Prim.Native.String.{◌++◌ as ◌+++◌}

-- A key of Redis that holds a sorted set, until it expires.
pub record ScoreSet : Type 0 where
  pub scores : List ℕ
  pub expires_at : Option ℕ

abbrev pub no_scores : ScoreSet
no_scores = record { scores = []; expires_at = none }

abbrev expired : Option ℕ → ℕ → Bool
expired none now = false
expired (some t) now = leb t now

-- The key as a command finds it at a time.
abbrev pub found_at : ℕ → ScoreSet → ScoreSet
found_at now s = if expired s.expires_at now then no_scores else s

-- ZREMRANGEBYSCORE key 0 (now - window), of scores that are not negative.
abbrev pub remove_old : ℕ → ℕ → List ℕ → List ℕ
remove_old now window = keep (λ score. ltb now (score + window))

-- What the script answers: whether the request may pass, and how many count.
pub record RateLimitResult : Type 0 where
  pub allowed : Bool
  pub count : ℕ

-- RATE_LIMIT_SCRIPT and BRIDGE_RATE_LIMIT_SCRIPT, which are the same. The window and the time to
-- live are the same time, in milliseconds and in seconds.
unfoldable pub rate_limit_script : ℕ → ℕ → ℕ → ScoreSet → RateLimitResult × ScoreSet
rate_limit_script window_sec limit now stored =
    let s = found_at now stored in
    let recent = remove_old now (window_sec * 1000) s.scores in
    if leb limit (length recent)
    then (record { allowed = false; count = length recent }, record s { scores = recent })
    else (
      record { allowed = true; count = length recent + 1 },
      record { scores = now ∷ recent; expires_at = some (now + window_sec * 1000) },
    )

-- McpRateLimiter.check between its guards: the call counts before it is judged.
unfoldable pub mcp_check : ℕ → ℕ → ℕ → ScoreSet → RateLimitResult × ScoreSet
mcp_check window_sec limit now stored =
    let s = found_at now stored in
    let recent = remove_old now (window_sec * 1000) (now ∷ s.scores) in
    (
      record { allowed = not (ltb limit (length recent)); count = length recent },
      record { scores = recent; expires_at = some (now + window_sec * 1000) },
    )
