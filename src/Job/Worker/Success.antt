-- ===== src/Job/Worker/Success.antt =====
-- What a worker's answer to the queue says of the job it ran.
use cherry_wiki.Base.{
  String, ◌≡◌, ◌≢◌, ap, ◌∙◌, inl, inr, true, none, some, arith, Bool-cases, if◌then◌else◌,
}
use cherry_wiki.Job.Data.{pending, running, succeeded, Json, JobRow, Thrown, field, end, str}
use cherry_wiki.Job.Exec.{World, ok}
use cherry_wiki.Job.Exec.Invert.{next-eq-ok, caught-eq-ok}
use cherry_wiki.Job.Store.{row_at, append_event}
use cherry_wiki.Job.Store.Laws.{row_at-append_event, row_at-jobs}
use cherry_wiki.Job.Machine.{transition}
use cherry_wiki.Job.Machine.Outcome.{transition-Moved}
use cherry_wiki.Job.Machine.Race.{Moved-row_at}
use cherry_wiki.Job.Lock.{release, renew, acquire}
use cherry_wiki.Job.Lock.Laws.{holder, release_not_held, jobs-release}
use cherry_wiki.Job.Worker.{
  Worker, BullJob, resolve_job_id, handle_failure, changed, success_updates, write_result, complete,
  fail_with, run_locked, run_released, handle_job, handle_bull_job,
}

pub record Completed (id : String) (r : Json) (w : World) : Type 0 where
  pub row : JobRow
  pub row_is : row_at id w ≡ some row
  pub status : row.status ≡ succeeded
  pub result : row.result_json ≡ some r
  pub no_error : row.error_json ≡ none
  pub unlocked : row.locked_by ≡ none

resolve_job_id-world :
    (b : BullJob) (id : String) (w w' : World) → resolve_job_id b w ≡ (ok id, w') → w' ≡ w
unfolding resolve_job_id
resolve_job_id-world b id w w' h = ground arith

module _ (k : Worker) (id : String) where
  write_result-Completed :
      (result r : Json) (w w' : World) → write_result k id result w ≡ (ok r, w') → Completed id r w'
  unfolding write_result
  write_result-Completed result r w w' h =
      let (row, w1, moved, h1) =
        next-eq-ok (transition id running succeeded (success_updates result w.clock) w) _ r w' h in
      let m =
        transition-Moved id running succeeded (success_updates result w.clock) w w1 row moved in
      let e : append_event id "status_changed"
            (changed running succeeded (field "worker_id" (str k.worker_id) end)) w1
          ≡ w' =
        cc h1 in
      let same : result ≡ r = cc h1 in
      record {
        row = row;
        row_is = rw (← e) (
            rw row_at-append_event
              (Moved-row_at id running succeeded (success_updates result w.clock) w w1 row m));
        status = rw m.row_eq;
        result = rw m.row_eq (ap some same);
        no_error = rw m.row_eq;
        unlocked = rw m.row_eq;
      }

  complete-Completed :
      (job : JobRow) (b : BullJob) (r : Json) (w w' : World)
      → complete k id job b w ≡ (ok r, w')
      → Completed id r w'
  unfolding complete
  complete-Completed job b r w w' h =
      let (result, w1, processed, h1) = next-eq-ok (k.process job b w) _ r w' h in
      let locked = renew id k.worker_id k.lock_ttl_seconds w1 in
      elim (Bool-cases locked.0) [
        | inl t ↦ write_result-Completed result r locked.1 w' (rw (t, if◌then◌else◌) at h1)
        | inr f ↦ cc (rw (f, if◌then◌else◌) at h1)
      ]

  fail_with-ne-ok :
      (job : JobRow) (e : Thrown) (w w' : World) (r : Json) → fail_with k id job e w ≢ (ok r, w')
  unfolding fail_with
  fail_with-ne-ok job e w w' r h =
      let (u, w1, p, q) = next-eq-ok (handle_failure k id job e w) _ r w' h in cc q

  run_locked-Completed :
      (b : BullJob) (r : Json) (w w' : World) → run_locked k id b w ≡ (ok r, w') → Completed id r w'
  unfolding run_locked
  run_locked-Completed b r w w' h =
      let (job, w1, p, h1) = next-eq-ok (transition id pending running _ w) _ r w' h in
      complete-Completed job b r _ w'
        (caught-eq-ok _ _ r w' (λ e u. fail_with-ne-ok job e u w' r) h1)

  run_released_jobs :
      (b : BullJob) (r : Json) (w w' : World)
      → run_released k id b w ≡ (ok r, w')
      → (w1 : World) × (run_locked k id b w ≡ (ok r, w1)) × (w' ≡ (release id k.worker_id w1).1)
  unfolding run_released
  run_released_jobs b r w w' h = ((run_locked k id b w).1, ground arith, ground arith)

  run_released-Completed :
      (b : BullJob) (r : Json) (w w' : World)
      → run_released k id b w ≡ (ok r, w')
      → Completed id r w'
  run_released-Completed b r w w' h =
      let (w1, p, q) = run_released_jobs b r w w' h in
      let c = run_locked-Completed b r w w1 p in
      record {
        row = c.row;
        row_is = rw q (row_at-jobs id _ w1 (jobs-release id k.worker_id w1) ∙ c.row_is);
        status = c.status;
        result = c.result;
        no_error = c.no_error;
        unlocked = c.unlocked;
      }

  -- Whatever the processing does and however it ends, the worker does not keep the lock.
  pub run_released-holder :
      (b : BullJob) (w : World) → holder id (run_released k id b w).1 ≢ some k.worker_id
  unfolding run_released
  run_released-holder b w = release_not_held id k.worker_id (run_locked k id b w).1

  pub handle_job-Completed :
      (b : BullJob) (r : Json) (w w' : World)
      → handle_job k id b w ≡ (ok r, w')
      → ((acquire id k.worker_id k.lock_ttl_seconds w).0 ≡ true)
        × Completed id r w'
        × (holder id w' ≢ some k.worker_id)
  unfolding handle_job
  handle_job-Completed b r w w' h =
      let got = acquire id k.worker_id k.lock_ttl_seconds w in
      elim (Bool-cases got.0) [
        | inl t ↦
            let p : run_released k id b got.1 ≡ (ok r, w') = rw (t, if◌then◌else◌) at h in
            (t, run_released-Completed b r got.1 w' p, λ e. run_released-holder b got.1 (rw p e))
        | inr f ↦ cc (rw (f, if◌then◌else◌) at h)
      ]

-- If a worker answers the queue with a result, then it had the lock of the job named by the queue's
-- job, that job's row is `succeeded` with this result, no error and no owner, and the lock is free
-- of this worker; whatever happened while the job was processed.
pub handle_bull_job_success :
    (k : Worker) (b : BullJob) (r : Json) (w w' : World)
    → handle_bull_job k b w ≡ (ok r, w')
    → (id : String) × (resolve_job_id b w ≡ (ok id, w))
      × ((acquire id k.worker_id k.lock_ttl_seconds w).0 ≡ true)
      × Completed id r w'
      × (holder id w' ≢ some k.worker_id)
unfolding handle_bull_job
handle_bull_job_success k b r w w' h =
    let (id, w1, p, h1) = next-eq-ok (resolve_job_id b w) _ r w' h in
    let same = resolve_job_id-world b id w w1 p in
    let (got, done, free) = handle_job-Completed k id b r w1 w' h1 in
    (id, rw same at p, rw same at got, done, free)
