-- ===== src/Job/Worker/Failure.antt =====
-- How a failed processing is recorded: retries, their delay, and the fence against a lost lock.
use cherry_wiki.Base.{
  none, ◌&&◌, ltb, ◌-◌, ◌^◌, min, ℕ, ◌+◌, ◌*◌, ◌<◌, String, ◌≡◌, ◌≢◌, refl, ◌∙◌, inl, inr, true,
  false, some, arith, Bool-cases, if◌then◌else◌,
}
use cherry_wiki.Job.Data.{pending, running, failed, Json, JobRow, Thrown}
use cherry_wiki.Job.Exec.{World, ok, err, next}
use cherry_wiki.Job.Store.{row_at, put_row, append_event}
use cherry_wiki.Job.Store.Laws.{
  row_at-append_event, row_at-jobs, row_at-put_self, id-row_at, clock-append_event,
}
use cherry_wiki.Job.Machine.Outcome.{transition_ok}
use cherry_wiki.Job.Lock.{renew}
use cherry_wiki.Job.Lock.Laws.{holder, renew-holder, jobs-renew, clock-renew}
use cherry_wiki.Job.Worker.{
  Worker, is_retryable, get_retry_delay_seconds, normalize_error, failure_updates, retry_updates,
  requeue, record_failure, handle_failure, fail_with,
}

-- The row written by a transition is the one that is read after the event.
step_row :
    (id t : String) (d : Json) (new old : JobRow) (w : World)
    → new.id ≡ old.id
    → row_at id w ≡ some old
    → row_at id (append_event id t d (put_row id new w)) ≡ some new
step_row id t d new old w same h =
    rw row_at-append_event (row_at-put_self id new old w (same ∙ id-row_at id w old h) h)

-- The row after a failure, as it is written, and after the return to the queue.
abbrev pub failed_row : JobRow → Thrown → ℕ → JobRow → JobRow
failed_row job e now cur = record cur {
  status = failed;
  attempt_count = job.attempt_count + 1;
  error_json = some (normalize_error e);
  locked_by = none;
  locked_at = none;
  completed_at = some now;
}

abbrev pub requeued_row : ℕ → ℕ → JobRow → JobRow
requeued_row n now cur = record cur {
  status = pending;
  next_run_at = some (now + min (60 * 2 ^ (n - 1)) 1800 * 1000);
  started_at = none;
  completed_at = none;
}

module _ (k : Worker) (id : String) where
  requeue_lem :
      (n now : ℕ) (w : World) (old : JobRow)
      → w.clock ≡ now
      → row_at id w ≡ some old
      → old.status ≡ failed
      → ((requeue k id n w).0 ≡ ok tt)
        × (row_at id (requeue k id n w).1 ≡ some (requeued_row n now old))
  unfolding requeue get_retry_delay_seconds
  requeue_lem n now w old c h s = rw (← c) (
      rw
        (
          transition_ok id failed pending
              (retry_updates (w.clock + get_retry_delay_seconds n * 1000)) w old refl h s,
          next,
        )
        (refl, step_row id _ _ (requeued_row n w.clock old) old w refl h))

  abbrev pub final_row : JobRow → Thrown → ℕ → JobRow → JobRow
  final_row job e now cur =
      if is_retryable e && ltb (job.attempt_count + 1) job.max_attempts
      then requeued_row (job.attempt_count + 1) now (failed_row job e now cur)
      else failed_row job e now cur

  record_failure_lem :
      (job : JobRow) (e : Thrown) (now : ℕ) (w : World) (cur : JobRow)
      → w.clock ≡ now
      → row_at id w ≡ some cur
      → cur.status ≡ running
      → ((record_failure k id job e w).0 ≡ ok tt)
        × (row_at id (record_failure k id job e w).1 ≡ some (final_row job e now cur))
  unfolding record_failure
  record_failure_lem job e now w cur c h s = rw (← c) (
      rw
        (
          transition_ok id running failed
              (failure_updates (job.attempt_count + 1) (normalize_error e) w.clock) w cur refl h s,
          next,
        )
        (elim (Bool-cases (is_retryable e && ltb (job.attempt_count + 1) job.max_attempts)) [
          | inl t ↦ rw t (
              requeue_lem (job.attempt_count + 1) w.clock _ (failed_row job e w.clock cur)
                (clock-append_event id _ _ _)
                (step_row id _ _ (failed_row job e w.clock cur) cur w refl h) refl)
          | inr f ↦ rw f (refl, step_row id _ _ (failed_row job e w.clock cur) cur w refl h)
        ]))

  renewed :
      (w : World)
      → 0 < k.lock_ttl_seconds
      → holder id w ≡ some k.worker_id
      → (renew id k.worker_id k.lock_ttl_seconds w).0 ≡ true
  renewed w pos mine = elim (Bool-cases (renew id k.worker_id k.lock_ttl_seconds w).0) [
    | inl t ↦ t
    | inr f ↦ absurd (((renew-holder id k.worker_id w k.lock_ttl_seconds pos).1 f).0 mine)
  ]

  fenced :
      (w : World)
      → 0 < k.lock_ttl_seconds
      → holder id w ≢ some k.worker_id
      → (renew id k.worker_id k.lock_ttl_seconds w) ≡ (false, w)
  fenced w pos lost = elim (Bool-cases (renew id k.worker_id k.lock_ttl_seconds w).0) [
    | inl t ↦ absurd (lost ((renew-holder id k.worker_id w k.lock_ttl_seconds pos).0 t).0)
    | inr f ↦ ground (arith, ((renew-holder id k.worker_id w k.lock_ttl_seconds pos).1 f).1)
  ]

  handle_failure_recorded :
      (job : JobRow) (e : Thrown) (w : World) (cur : JobRow)
      → (renew id k.worker_id k.lock_ttl_seconds w).0 ≡ true
      → row_at id w ≡ some cur
      → cur.status ≡ running
      → ((handle_failure k id job e w).0 ≡ ok tt)
        × (row_at id (handle_failure k id job e w).1 ≡ some (final_row job e w.clock cur))
  unfolding handle_failure
  handle_failure_recorded job e w cur t h s =
      let w1 = (renew id k.worker_id k.lock_ttl_seconds w).1 in
      rw t (
        record_failure_lem job e w.clock w1 cur (clock-renew id k.worker_id k.lock_ttl_seconds w)
          (row_at-jobs id w1 w (jobs-renew id k.worker_id k.lock_ttl_seconds w) ∙ h) s)

-- With the lock in hand and the row still running, a failed attempt is written down: the attempt
-- counts, the error is stored, the row loses its owner and waits in the queue for the backoff delay
-- if an attempt is left and the error allows it, and else stays failed. The error is thrown on.
pub fail_with_recorded :
    (k : Worker) (id : String) (job : JobRow) (e : Thrown) (w : World) (cur : JobRow)
    → 0 < k.lock_ttl_seconds
    → holder id w ≡ some k.worker_id
    → row_at id w ≡ some cur
    → cur.status ≡ running
    → ((fail_with k id job e w).0 ≡ err e)
      × (row_at id (fail_with k id job e w).1 ≡ some (final_row k id job e w.clock cur))
unfolding fail_with
fail_with_recorded k id job e w cur pos mine h s =
    let (done, row) = handle_failure_recorded k id job e w cur (renewed k id w pos mine) h s in
    rw (done, next) (refl, row)

-- A worker that lost its lock writes nothing about the failure: the world is as it was.
pub fail_with_fenced :
    (k : Worker) (id : String) (job : JobRow) (e : Thrown) (w : World)
    → 0 < k.lock_ttl_seconds
    → holder id w ≢ some k.worker_id
    → fail_with k id job e w ≡ (err e, w)
unfolding fail_with handle_failure
fail_with_fenced k id job e w pos lost = rw (fenced k id w pos lost)
