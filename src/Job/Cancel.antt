-- ===== src/Job/Cancel.antt =====
-- apps/api/src/jobs/jobs.service.ts: the cancellation of a job with its retries. What other clients
-- do to the world meanwhile is an argument. In the n-th retry, `checks n` acts while the permissions
-- are queried for the job that has been read, `before n` between that and the transaction, `caught n`
-- between its conflict and the next reading, `rechecks n` while the permissions are queried for
-- what this has read, and `pause n` during the delay after it.
mod Accessible
pub mod Moments
pub mod Settled
pub mod Quiet
unfoldable pub use Accessible.*
use cherry_wiki.Base.{
  ℕ, zero, suc, ◌+◌, String, Bool, true, false, Option, none, some, List, [], ◌∷◌, ◌&&◌, ◌||◌, ◌=ₛ◌,
  if◌then◌else◌, some_of,
}
use cherry_wiki.Base.Text.{trim, is_blank, includes}
use Prim.Native.String.{◌++◌ as ◌+++◌}
use cherry_wiki.Access.Roles.{Role, owner, admin, role_permissions, normalize_role}
use cherry_wiki.Job.Data.{
  JobStatus, pending, running, succeeded, failed, cancelled, other, status_eq, Json, str, obj, end,
  field, JobRow, no_updates, JobUpdateInput, Thrown, conflict, api_error, failure, value,
}
use cherry_wiki.Job.Exec.{World, M, Result, ok, err, pure, throw, ◌>>=◌, ◌>>◌, try, read_clock}
use cherry_wiki.Job.Store.{row_at, find_by_id, update_where, create_event}
use cherry_wiki.Job.Machine.{transition}
use cherry_wiki.Job.Worker.{changed}

pub record CancelJobResponse : Type 0 where
  pub job_id : String
  pub status : JobStatus
  pub cancel_requested_at : Option ℕ

abbrev pub to_cancel_job_response : JobRow → CancelJobResponse
to_cancel_job_response job = record {
  job_id = job.id;
  status = job.status;
  cancel_requested_at = job.cancel_requested_at;
}

abbrev pub not_requested : Option ℕ → Bool
not_requested none = true
not_requested (some at) = false

abbrev pub cancel_updates : ℕ → JobUpdateInput
cancel_updates completed_at = record no_updates { completed_at = some (some completed_at) }

-- The details of the two events.
abbrev pub cancelled_detail : String → Json
cancelled_detail actor = changed pending cancelled (field "requested_by" (str actor) end)

abbrev pub requested_detail : String → Json
requested_detail actor = obj (field "requested_by" (str actor) end)

-- The transaction, for a job that was read as pending.
unfoldable pub cancel_pending : String → String → M CancelJobResponse
cancel_pending actor id = do
  completed_at ← read_clock
  cancelled_job ← transition id pending cancelled (cancel_updates completed_at)
  create_event id "status_changed" (cancelled_detail actor)
  pure (to_cancel_job_response cancelled_job)

abbrev requested_or_conflict : String → String → Option JobRow → M CancelJobResponse
requested_or_conflict actor id none =
    throw (conflict ("Job " +++ id +++ " changed while cancellation was requested"))
requested_or_conflict actor id (some updated) =
    create_event id "cancel_requested" (requested_detail actor)
    >> pure (to_cancel_job_response updated)

abbrev pub is_running_unrequested : JobRow → Bool
is_running_unrequested row = status_eq row.status running && not_requested row.cancel_requested_at

abbrev pub request_cancel : ℕ → JobRow → JobRow
request_cancel at row = record row { cancel_requested_at = some at }

-- The transaction, for a job that was read as running.
unfoldable pub cancel_running : String → String → M CancelJobResponse
cancel_running actor id = do
  cancel_requested_at ← read_clock
  updated ← update_where is_running_unrequested (request_cancel cancel_requested_at) id
  requested_or_conflict actor id updated

pub record Meanwhile : Type 0 where
  pub checks : ℕ → World → World
  pub before : ℕ → World → World
  pub caught : ℕ → World → World
  pub rechecks : ℕ → World → World
  pub pause : ℕ → World → World

abbrev pub let_others : (World → World) → M (Unit {0})
let_others f w = (ok tt, f w)

abbrev on_conflict : M CancelJobResponse → Thrown → M CancelJobResponse
on_conflict resolve (conflict message) = resolve
on_conflict resolve (api_error code message status) = throw (api_error code message status)
on_conflict resolve (failure name message flag) = throw (failure name message flag)
on_conflict resolve (value flag) = throw (value flag)

abbrev pub terminal : Thrown
terminal = job_conflict "Job is already in a terminal state"

-- The branches on a status, which the first reading and the one after a conflict share; `open` is
-- what is done for a job that can still be cancelled.
unfoldable pub by_status : (JobRow → M CancelJobResponse) → JobStatus → JobRow → M CancelJobResponse
by_status open_ pending job = open_ job
by_status open_ running job =
    if not_requested job.cancel_requested_at then open_ job else pure (to_cancel_job_response job)
by_status open_ succeeded job = throw terminal
by_status open_ failed job = throw terminal
by_status open_ cancelled job = pure (to_cancel_job_response job)
by_status open_ (other text) job = throw (job_conflict ("Unknown job status: " +++ text))

abbrev pub transaction : String → JobStatus → JobRow → M CancelJobResponse
transaction actor pending job = cancel_pending actor job.id
transaction actor _ job = cancel_running actor job.id

module _ (d : Directory) (c : JobContext) (m : Meanwhile) (job_id : String) where
  -- resolveCancellationConflict; `again` is the retry, unless none is left.
  unfoldable pub resolve_cancellation_conflict : ℕ → M CancelJobResponse → M CancelJobResponse
  resolve_cancellation_conflict retry_count again = do
    let_others (m.caught retry_count)
    current ← get_accessible_job d c (m.rechecks retry_count) cancel job_id
    by_status (λ job. again) current.status current

  -- The `try` of cancelJobInternal.
  unfoldable pub attempt : ℕ → M CancelJobResponse → String → JobRow → M CancelJobResponse
  attempt retry_count again actor job = do
    let_others (m.before retry_count)
    try (transaction actor job.status job)
        (on_conflict (resolve_cancellation_conflict retry_count again))

  unfoldable pub cancel_once : ℕ → M CancelJobResponse → M CancelJobResponse
  cancel_once retry_count again = do
    actor ← λ w. (resolve_context_user_id c, w)
    job ← get_accessible_job d c (m.checks retry_count) cancel job_id
    by_status (attempt retry_count again actor) job.status job

  -- cancelJobInternal, with `left` retries of the three that MAX_CANCELLATION_RETRIES allows.
  unfoldable pub cancel_job_internal : ℕ → ℕ → M CancelJobResponse
  cancel_job_internal zero retry_count w =
      cancel_once retry_count
        (throw (job_conflict "Job state changed while cancellation was requested")) w
  cancel_job_internal (suc left) retry_count w =
      cancel_once retry_count
        (let_others (m.pause retry_count) >> cancel_job_internal left (retry_count + 1)) w

  abbrev pub max_cancellation_retries : ℕ
  max_cancellation_retries = 3

  unfoldable pub cancel_job : M CancelJobResponse
  cancel_job = cancel_job_internal max_cancellation_retries 0
