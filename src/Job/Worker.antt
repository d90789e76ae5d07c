-- ===== src/Job/Worker.antt =====
-- packages/job-core/src/worker-base.ts: how a worker takes a queued job, runs it and records how it
-- ended. `process` is the subclass's own code: any change of the world, such as other workers, the
-- timeout scanner or a cancellation make while it is awaited, and any answer or error.
pub mod Success
pub mod Failure
use cherry_wiki.Base.{
  ℕ, suc, ◌+◌, ◌-◌, ◌*◌, ◌^◌, min, String, Bool, true, false, Option, none, some, ◌&&◌, not, ltb,
  ◌=ₛ◌, if◌then◌else◌,
}
use cherry_wiki.Base.Text.{slice_to}
use Prim.Native.String.{◌++◌ as ◌+++◌}
use cherry_wiki.Job.Data.{
  JobStatus, pending, running, succeeded, failed, status_text, Json, bool, str, instant, obj,
  Fields, end, field, JobRow, JobUpdateInput, no_updates, Thrown, conflict, api_error, failure,
  value,
}
use cherry_wiki.Job.Exec.{World, M, pure, throw, ◌>>=◌, ◌>>◌, try, finally, read_clock}
use cherry_wiki.Job.Store.{create_event}
use cherry_wiki.Job.Machine.{transition}
use cherry_wiki.Job.Lock.{acquire, renew, release, locking}

-- A BullMQ job: its `data.jobId` and its `id`, where they are strings.
pub record BullJob : Type 0 where
  pub data_job_id : Option String
  pub id : Option String

pub record Worker : Type 0 where
  pub worker_id : String
  pub lock_ttl_seconds : ℕ
  pub process : JobRow → BullJob → M Json

abbrev pub non_empty : Option String → Option String
non_empty none = none
non_empty (some s) = if s =ₛ "" then none else some s

abbrev pub first_id : Option String → Option String → M String
first_id (some id) other = pure id
first_id none (some id) = pure id
first_id none none = throw (failure "Error" "BullMQ job payload must include a string jobId" none)

-- resolveJobId.
unfoldable pub resolve_job_id : BullJob → M String
resolve_job_id b = first_id (non_empty b.data_job_id) (non_empty b.id)

-- The `retryable` property of what was thrown, if it has one.
abbrev pub retryable_flag : Thrown → Option Bool
retryable_flag (conflict message) = none
retryable_flag (api_error code message status) = none
retryable_flag (failure name message flag) = flag
retryable_flag (value flag) = flag

abbrev not_false : Option Bool → Bool
not_false none = true
not_false (some b) = b

unfoldable pub is_retryable : Thrown → Bool
is_retryable e = not_false (retryable_flag e)

unfoldable pub get_retry_delay_seconds : ℕ → ℕ
get_retry_delay_seconds next_attempt_count = min (60 * 2 ^ (next_attempt_count - 1)) 1800

abbrev retryable_field : Option Bool → Fields
retryable_field none = end
retryable_field (some b) = field "retryable" (bool b) end

abbrev error_object : String → String → Option Bool → Json
error_object name message flag =
    obj (
      field "name" (str name)
        (field "message" (str (slice_to 1000 message)) (retryable_field flag)))

-- normalizeError.
unfoldable pub normalize_error : Thrown → Json
unfolding slice_to
normalize_error (conflict message) = error_object "JobConflictError" message none
normalize_error (api_error code message status) = error_object "HttpException" message none
normalize_error (failure name message flag) = error_object name message flag
normalize_error (value flag) = obj (field "message" (str "Job processing failed") end)

-- The detail of a `status_changed` event.
abbrev pub changed : JobStatus → JobStatus → Fields → Json
changed from to rest =
    obj (field "from" (str (status_text from)) (field "to" (str (status_text to)) rest))

-- The columns that each of the four transitions sets.
abbrev pub start_updates : String → ℕ → JobUpdateInput
start_updates worker_id started_at = record no_updates {
  locked_by = some (some worker_id);
  locked_at = some (some started_at);
  started_at = some (some started_at);
  completed_at = some none;
  error_json = some none;
  result_json = some none;
}

abbrev pub success_updates : Json → ℕ → JobUpdateInput
success_updates result completed_at = record no_updates {
  result_json = some (some result);
  error_json = some none;
  locked_by = some none;
  locked_at = some none;
  completed_at = some (some completed_at);
}

abbrev pub failure_updates : ℕ → Json → ℕ → JobUpdateInput
failure_updates next_attempt_count error failed_at = record no_updates {
  attempt_count = some next_attempt_count;
  error_json = some (some error);
  locked_by = some none;
  locked_at = some none;
  completed_at = some (some failed_at);
}

abbrev pub retry_updates : ℕ → JobUpdateInput
retry_updates next_run_at = record no_updates {
  next_run_at = some (some next_run_at);
  started_at = some none;
  completed_at = some none;
}

module _ (k : Worker) where
  -- The failed job goes back to the queue, after a delay.
  unfoldable pub requeue : String → ℕ → M (Unit {0})
  requeue id next_attempt_count = do
    now ← read_clock
    let next_run_at = now + get_retry_delay_seconds next_attempt_count * 1000
    _ ← transition id failed pending (retry_updates next_run_at)
    create_event id "status_changed" (
        changed failed pending
          (field "worker_id" (str k.worker_id) (field "next_run_at" (instant next_run_at) end)))

  abbrev pub can_retry : JobRow → Thrown → Bool
  can_retry job e = is_retryable e && ltb (job.attempt_count + 1) job.max_attempts

  -- handleFailure, once the lock has been renewed.
  unfoldable pub record_failure : String → JobRow → Thrown → M (Unit {0})
  record_failure id job e = do
    let next_attempt_count = job.attempt_count + 1
    let retryable = can_retry job e
    failed_at ← read_clock
    _ ←
        transition id running failed
          (failure_updates next_attempt_count (normalize_error e) failed_at)
    create_event id "status_changed" (
        changed running failed
          (field "worker_id" (str k.worker_id) (field "retryable" (bool retryable) end)))
    if retryable then requeue id next_attempt_count else pure tt

  unfoldable pub handle_failure : String → JobRow → Thrown → M (Unit {0})
  handle_failure id job e = do
    renewed ← locking (renew id k.worker_id k.lock_ttl_seconds)
    if renewed then record_failure id job e else pure tt

  -- The end of the inner `try` block, once the lock has been renewed.
  unfoldable pub write_result : String → Json → M Json
  write_result id result = do
    completed_at ← read_clock
    _ ← transition id running succeeded (success_updates result completed_at)
    create_event id "status_changed"
        (changed running succeeded (field "worker_id" (str k.worker_id) end))
    pure result

  -- The inner `try` block: run, check the lock, write the result.
  unfoldable pub complete : String → JobRow → BullJob → M Json
  complete id running_job b = do
    result ← k.process running_job b
    renewed ← locking (renew id k.worker_id k.lock_ttl_seconds)
    (if renewed
        then write_result id result
        else throw (conflict ("Job " +++ id +++ " lock was lost before completion")))

  -- The inner `catch`: the error is recorded and thrown again.
  unfoldable pub fail_with : String → JobRow → Thrown → M Json
  fail_with id running_job e = handle_failure id running_job e >> throw e

  -- The outer `try` block.
  unfoldable pub run_locked : String → BullJob → M Json
  run_locked id b = do
    started_at ← read_clock
    running_job ← transition id pending running (start_updates k.worker_id started_at)
    create_event id "status_changed"
        (changed pending running (field "worker_id" (str k.worker_id) end))
    try (complete id running_job b) (fail_with id running_job)

  -- The lock is released whatever happens.
  unfoldable pub run_released : String → BullJob → M Json
  run_released id b = finally (run_locked id b) (λ w. (release id k.worker_id w).1)

  -- handleBullMQJob, for a job whose id is known.
  unfoldable pub handle_job : String → BullJob → M Json
  handle_job id b = do
    acquired ← locking (acquire id k.worker_id k.lock_ttl_seconds)
    (if acquired
        then run_released id b
        else throw (conflict ("Job " +++ id +++ " is already locked by another worker")))

  unfoldable pub handle_bull_job : BullJob → M Json
  handle_bull_job b = do id ← resolve_job_id b; handle_job id b
