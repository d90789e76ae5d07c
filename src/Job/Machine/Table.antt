-- ===== src/Job/Machine/Table.antt =====
-- The table of transitions against an independent description of a job's life.
use cherry_wiki.Base.{◌≡◌, refl, ◌↔◌, true, arith, eq_iff}
use cherry_wiki.Job.Data.{
  JobStatus, pending, running, succeeded, failed, cancelled, other, status_eq,
}
use cherry_wiki.Job.Machine.{allowed}

-- A job starts, ends in one of three ways, may be cancelled before it starts, and is retried.
pub data Edge : JobStatus → JobStatus → Type 0 where
  start : Edge pending running
  cancel_waiting : Edge pending cancelled
  succeed : Edge running succeeded
  fail : Edge running failed
  cancel_running : Edge running cancelled
  retry : Edge failed pending

pub status_eq_iff : (s t : JobStatus) → (status_eq s t ≡ true) ↔ (s ≡ t)
status_eq_iff (other s) (other t) = ground (arith, eq_iff s t)
status_eq_iff pending t = ground arith
status_eq_iff running t = ground arith
status_eq_iff succeeded t = ground arith
status_eq_iff failed t = ground arith
status_eq_iff cancelled t = ground arith
status_eq_iff (other s) t = ground arith

Edge-allowed : (s t : JobStatus) → Edge s t → allowed s t ≡ true
Edge-allowed s t start = refl
Edge-allowed s t cancel_waiting = refl
Edge-allowed s t succeed = refl
Edge-allowed s t fail = refl
Edge-allowed s t cancel_running = refl
Edge-allowed s t retry = refl

allowed-Edge : (s t : JobStatus) → allowed s t ≡ true → Edge s t
allowed-Edge pending running h = start
allowed-Edge pending cancelled h = cancel_waiting
allowed-Edge running succeeded h = succeed
allowed-Edge running failed h = fail
allowed-Edge running cancelled h = cancel_running
allowed-Edge failed pending h = retry
allowed-Edge pending _ h = cc
allowed-Edge running _ h = cc
allowed-Edge failed _ h = cc
allowed-Edge succeeded _ h = cc
allowed-Edge cancelled _ h = cc
allowed-Edge (other s) _ h = cc

-- The check of the table accepts exactly the edges of a job's life, whatever texts the statuses are.
pub allowed_iff : (s t : JobStatus) → (allowed s t ≡ true) ↔ Edge s t
allowed_iff s t = (allowed-Edge s t, Edge-allowed s t)
