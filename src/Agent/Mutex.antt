-- ===== src/Agent/Mutex.antt =====
-- apps/api/src/agent/session-mutex.ts: one lock for each session key. A call of acquire or
-- tryAcquire makes a ticket, numbered in the order of the calls; its promise in the map is known by
-- this number. Only a ticket that was let in has its release function, so the chained promise of a
-- ticket is resolved exactly when the ticket is released.
pub mod Invariant
pub mod Joining
pub mod Entering
pub mod Releasing
pub mod Reachable
pub mod Safety
use cherry_wiki.Base.{
  ℕ, suc, ◌<◌, String, Bool, true, false, Option, none, some, ◌=ₛ◌, ◌==◌, ◌≡◌, if◌then◌else◌,
}

pub record Ticket : Type 0 where
  pub key : String
  pub before : Option ℕ  -- the promise that acquire awaits; none where that is resolved already
  pub entered : Bool  -- the caller has its release function
  pub released : Bool

pub record SessionMutex : Type 0 where
  pub locks : String → Option ℕ
  pub tickets : ℕ → Ticket
  pub count : ℕ

abbrev pub nobody : Ticket
nobody = record { key = ""; before = none; entered = false; released = false }

abbrev pub fresh : SessionMutex
fresh = record { locks = λ k. none; tickets = λ i. nobody; count = 0 }

abbrev pub set_lock : String → Option ℕ → (String → Option ℕ) → String → Option ℕ
set_lock k o locks j = if k =ₛ j then o else locks j

abbrev pub set_ticket : ℕ → Ticket → (ℕ → Ticket) → ℕ → Ticket
set_ticket i t tickets j = if i == j then t else tickets j

abbrev pub add : Ticket → SessionMutex → SessionMutex
add t m = record {
  locks = set_lock t.key (some m.count) m.locks;
  tickets = set_ticket m.count t m.tickets;
  count = suc m.count;
}

-- `acquire`, up to its await.
unfoldable pub acquire : String → SessionMutex → SessionMutex
acquire k m = add (record { key = k; before = m.locks k; entered = false; released = false }) m

-- The promise that a ticket awaits is resolved.
abbrev pub is_resolved : (ℕ → Ticket) → Option ℕ → Bool
is_resolved tickets none = true
is_resolved tickets (some i) = (tickets i).released

-- `acquire`, from its await on.
unfoldable pub enter : ℕ → SessionMutex → SessionMutex
enter i m =
    if is_resolved m.tickets (m.tickets i).before
    then record m { tickets = set_ticket i (record (m.tickets i) { entered = true }) m.tickets }
    else m

abbrev add_unless : Option ℕ → String → SessionMutex → SessionMutex
add_unless none k m = add (record { key = k; before = none; entered = true; released = false }) m
add_unless (some i) k m = m

-- `tryAcquire`; it answers null where the lock is taken.
unfoldable pub try_acquire : String → SessionMutex → SessionMutex
try_acquire k m = add_unless (m.locks k) k m

unfoldable pub is_locked : String → SessionMutex → Bool
is_locked k m = elim (m.locks k) [ none ↦ false | some i ↦ true ]

abbrev pub is_own : Option ℕ → ℕ → Bool
is_own none i = false
is_own (some j) i = j == i

-- The function that createRelease makes for a ticket that was let in.
unfoldable pub release : ℕ → SessionMutex → SessionMutex
release i m = if (m.tickets i).released then m else record m {
  tickets = set_ticket i (record (m.tickets i) { released = true }) m.tickets;
  locks =
      if is_own (m.locks (m.tickets i).key) i
      then set_lock (m.tickets i).key none m.locks
      else m.locks;
}

-- What the callers and the event loop do, in any order.
pub data Step (m : SessionMutex) : SessionMutex → Type 0 where
  acquires : (k : String) → Step m (acquire k m)
  tries : (k : String) → Step m (try_acquire k m)
  enters : (i : ℕ) → i < m.count → Step m (enter i m)
  releases : (i : ℕ) → (m.tickets i).entered ≡ true → Step m (release i m)

pub data Reach : SessionMutex → Type 0 where
  start : Reach fresh
  later : {m m' : SessionMutex} → Reach m → Step m m' → Reach m'
