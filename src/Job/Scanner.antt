-- ===== src/Job/Scanner.antt =====
-- packages/job-core/src/timeout-scanner.ts: running jobs whose lock is older than their timeout are
-- failed, put back in the queue if an attempt is left, and their lock is released.
pub mod Steps
pub mod Selection
pub mod Laws
use cherry_wiki.Base.{
  ℕ, suc, ◌+◌, ◌-◌, ◌*◌, ◌^◌, min, String, Bool, true, false, Option, none, some, List, [], ◌∷◌,
  ◌&&◌, ltb, if◌then◌else◌, keep,
}
use cherry_wiki.Job.Data.{
  JobStatus, pending, running, failed, status_eq, Json, null, num, str, instant, obj, end, field,
  JobRow, or_old, conflict, api_error, failure, value,
}
use cherry_wiki.Job.Exec.{World, M, Result, ok, err, pure, ◌>>=◌, ◌>>◌, read_clock}
use cherry_wiki.Job.Store.{create_event}
use cherry_wiki.Job.Machine.{transition}
use cherry_wiki.Job.Lock.{release}
use cherry_wiki.Job.Worker.{changed, failure_updates, retry_updates}

abbrev pub default_job_timeout_seconds : ℕ
default_job_timeout_seconds = 1800

abbrev pub max_retry_delay_seconds : ℕ
max_retry_delay_seconds = 1800

-- The scanner's own copy of the delay.
unfoldable pub get_retry_delay_seconds : ℕ → ℕ
get_retry_delay_seconds next_attempt_count =
    min (60 * 2 ^ (next_attempt_count - 1)) max_retry_delay_seconds

abbrev pub lock_expired : Option ℕ → Option ℕ → ℕ → Bool
lock_expired none timeout now = false
lock_expired (some at) timeout now =
    ltb (at + or_old timeout default_job_timeout_seconds * 1000) now

-- The `WHERE` of the scan.
unfoldable pub is_expired : ℕ → JobRow → Bool
is_expired now row =
    status_eq row.status running && lock_expired row.locked_at row.timeout_seconds now

abbrev pub timeout_error : Json
timeout_error =
    obj (field "code" (str "TIMEOUT") (field "message" (str "Job exceeded timeout") end))

abbrev text_or_null : Option String → Json
text_or_null none = null
text_or_null (some s) = str s

abbrev instant_or_null : Option ℕ → Json
instant_or_null none = null
instant_or_null (some t) = instant t

-- The second half of the round for one job: back to the queue.
unfoldable pub requeue_expired : JobRow → M (Unit {0})
requeue_expired job = do
  now ← read_clock
  let next_run_at = now + get_retry_delay_seconds (job.attempt_count + 1) * 1000
  _ ← transition job.id failed pending (retry_updates next_run_at)
  create_event job.id "status_changed" (
      changed failed pending
        (field "reason" (str "timeout_retry") (field "next_run_at" (instant next_run_at) end)))

abbrev pub release_owner : Option String → String → M (Unit {0})
release_owner none id w = (ok tt, w)
release_owner (some owner) id w = (ok tt, (release id owner w).1)

unfoldable pub report_timeout : JobRow → M (Unit {0})
report_timeout job = do
  create_event job.id "timeout_detected" (
      obj (
        field "worker_id" (text_or_null job.locked_by) (
          field "locked_at" (instant_or_null job.locked_at) (
            field "timeout_seconds" (num (or_old job.timeout_seconds default_job_timeout_seconds))
              end))))
  release_owner job.locked_by job.id

-- The `try` block of the loop.
unfoldable pub expire_job : JobRow → M (Unit {0})
expire_job job = do
  completed_at ← read_clock
  _ ←
      transition job.id running failed
        (failure_updates (job.attempt_count + 1) timeout_error completed_at)
  create_event job.id "status_changed" (changed running failed (field "reason" (str "timeout") end))
  (if ltb (job.attempt_count + 1) job.max_attempts then requeue_expired job else pure tt)
  report_timeout job

-- `handled += 1`, or the `catch`: a conflict skips the job, and any other error ends the scan.
abbrev pub count_or_skip : Result (Unit {0}) × World → ℕ → (ℕ → M ℕ) → Result ℕ × World
count_or_skip (ok u, w) handled rest = rest (suc handled) w
count_or_skip (err (conflict message), w) handled rest = rest handled w
count_or_skip (err (api_error code message status), w) handled rest =
    (err (api_error code message status), w)
count_or_skip (err (failure name message flag), w) handled rest =
    (err (failure name message flag), w)
count_or_skip (err (value flag), w) handled rest = (err (value flag), w)

unfoldable pub scan_from : List JobRow → ℕ → M ℕ
scan_from [] handled w = (ok handled, w)
scan_from (job ∷ jobs) handled w = count_or_skip (expire_job job w) handled (scan_from jobs)

unfoldable pub scan : M ℕ
scan w = scan_from (keep (is_expired w.clock) w.jobs) 0 w
