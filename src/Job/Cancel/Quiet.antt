-- ===== src/Job/Cancel/Quiet.antt =====
-- What a cancellation does when nobody else changes the job meanwhile.
use cherry_wiki.Base.{
  String, ◌≡◌, refl, sym, ap, subst, ◌∙◌, inl, inr, true, some, Bool-cases, if◌then◌else◌,
}
use Prim.Native.String.{◌++◌ as ◌+++◌}
use cherry_wiki.Job.Data.{
  JobStatus, pending, running, succeeded, failed, cancelled, other, JobRow, apply_updates, Thrown,
}
use cherry_wiki.Job.Exec.{World, Result, ok, err, next}
use cherry_wiki.Job.Store.{row_at, put_row, append_event, update_where, update_found}
use cherry_wiki.Job.Store.Laws.{id-row_at}
use cherry_wiki.Job.Machine.Outcome.{transition_ok}
use cherry_wiki.Job.Cancel.{
  Directory, JobContext, cancel, Meanwhile, CancelJobResponse, to_cancel_job_response,
  not_requested, cancel_updates, job_conflict, terminal, cancelled_detail, requested_detail,
  is_running_unrequested, request_cancel, resolve_context_user_id, get_accessible_job,
  cancel_pending, cancel_running, by_status, transaction, attempt, cancel_once, cancel_job_internal,
  cancel_job,
}
use cherry_wiki.Job.Cancel.Settled.{get_accessible_job-row}

abbrev pub quiet : Meanwhile
quiet = record {
  checks = λ n w. w;
  before = λ n w. w;
  caught = λ n w. w;
  rechecks = λ n w. w;
  pause = λ n w. w;
}

-- The documented outcome, by the status of the job.
abbrev pub outcome : String → JobRow → World → JobStatus → Result CancelJobResponse × World
outcome actor job w pending =
    let new = apply_updates cancelled (cancel_updates w.clock) job in
    (
      ok (to_cancel_job_response new),
      append_event job.id "status_changed" (cancelled_detail actor) (put_row job.id new w),
    )
outcome actor job w running =
    let new = request_cancel w.clock job in
    if not_requested job.cancel_requested_at
    then (
      ok (to_cancel_job_response new),
      append_event job.id "cancel_requested" (requested_detail actor) (put_row job.id new w),
    )
    else (ok (to_cancel_job_response job), w)
outcome actor job w succeeded = (err terminal, w)
outcome actor job w failed = (err terminal, w)
outcome actor job w cancelled = (ok (to_cancel_job_response job), w)
outcome actor job w (other text) = (err (job_conflict ("Unknown job status: " +++ text)), w)

running_unrequested :
    (job : JobRow)
    → job.status ≡ running
    → not_requested job.cancel_requested_at ≡ true
    → is_running_unrequested job ≡ true
running_unrequested job e t = rw (e, t)

module _ (d : Directory) (c : JobContext) (id actor : String) (job : JobRow) (w : World)
    (there : row_at job.id w ≡ some job) where
  cancel_running_lem :
      is_running_unrequested job ≡ true
      → cancel_running actor job.id w ≡ (
        ok (to_cancel_job_response (request_cancel w.clock job)),
        append_event job.id "cancel_requested"
            (requested_detail actor)
            (put_row job.id (request_cancel w.clock job) w),
      )
  unfolding cancel_running update_where
  cancel_running_lem q = rw (there, update_found) (rw q)

  cancel_pending_lem :
      job.status ≡ pending → cancel_pending actor job.id w ≡ outcome actor job w pending
  unfolding cancel_pending
  cancel_pending_lem e =
      rw (transition_ok job.id pending cancelled (cancel_updates w.clock) w job refl there e)

  by_status-outcome :
      (again : World → Result CancelJobResponse × World) (s : JobStatus)
      → job.status ≡ s
      → by_status (attempt d c quiet id 0 again actor) s job w ≡ outcome actor job w s
  unfolding by_status attempt
  by_status-outcome again pending e =
      rw (ap (λ s. transaction actor s job w) e ∙ cancel_pending_lem e)
  by_status-outcome again running e = elim (Bool-cases (not_requested job.cancel_requested_at)) [
    | inr f ↦ rw f
    | inl t ↦
        let q : is_running_unrequested job ≡ true = running_unrequested job e t in
        rw (t, if◌then◌else◌) (rw (ap (λ s. transaction actor s job w) e ∙ cancel_running_lem q))
  ]
  by_status-outcome again succeeded e = refl
  by_status-outcome again failed e = refl
  by_status-outcome again cancelled e = refl
  by_status-outcome again (other text) e = refl

  outcome_once :
      (again : World → Result CancelJobResponse × World)
      → resolve_context_user_id c ≡ ok actor
      → get_accessible_job d c (λ u. u) cancel id w ≡ (ok job, w)
      → cancel_once d c quiet id 0 again w ≡ outcome actor job w job.status
  unfolding cancel_once
  outcome_once again known found =
      rw (known, next) (rw (found, next) (by_status-outcome again job.status refl))

-- When nobody else changes the job meanwhile, a caller who is known and may cancel it meets exactly
-- this: a pending job is cancelled and a running one asked to stop, each with its event; a job that
-- is cancelled or asked already is answered as it is; a finished one or an unknown status is
-- refused, and the world is as it was.
pub cancel_job-quiet :
    (d : Directory) (c : JobContext) (id actor : String) (job : JobRow) (w : World)
    → resolve_context_user_id c ≡ ok actor
    → get_accessible_job d c (λ u. u) cancel id w ≡ (ok job, w)
    → cancel_job d c quiet id w ≡ outcome actor job w job.status
unfolding cancel_job cancel_job_internal
cancel_job-quiet d c id actor job w known found =
    let there = (get_accessible_job-row d c (λ u. u) cancel id w w job found).1 in
    outcome_once d c id actor job w
      (subst (λ i. row_at i w ≡ some job) (sym (id-row_at id w job there)) there) _ known found

-- A caller who may not cancel the job is refused, and the cancellation changes nothing itself.
pub cancel_job_refused :
    (d : Directory) (c : JobContext) (m : Meanwhile) (id actor : String) (e : Thrown) (w : World)
    → resolve_context_user_id c ≡ ok actor
    → get_accessible_job d c (m.checks 0) cancel id w ≡ (err e, m.checks 0 w)
    → cancel_job d c m id w ≡ (err e, m.checks 0 w)
unfolding cancel_job cancel_job_internal cancel_once
cancel_job_refused d c m id actor e w known refused = rw (known, next) (rw (refused, next))
