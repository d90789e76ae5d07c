-- ===== src/Job/Scanner/Steps.antt =====
-- One round of the scan: what it does to the row of its job and to the other rows.
use cherry_wiki.Base.{
  min, ◌^◌, ◌-◌, ℕ, ◌+◌, ◌*◌, String, ◌≡◌, refl, ◌∙◌, inl, inr, false, Option, none, some, ◌=ₛ◌,
  Bool-cases, if◌then◌else◌, ltb,
}
use cherry_wiki.Job.Data.{pending, running, failed, JobRow, field, str, end, apply_updates, Json}
use cherry_wiki.Job.Exec.{World, ok, next}
use cherry_wiki.Job.Store.{row_at, put_row, append_event}
use cherry_wiki.Job.Store.Laws.{
  row_at-append_event, row_at-jobs, row_at-put_self, row_at-put_ne, id-row_at, clock-append_event,
}
use cherry_wiki.Job.Machine.Outcome.{transition_ok}
use cherry_wiki.Job.Lock.Laws.{jobs-release, clock-release}
use cherry_wiki.Job.Worker.{changed, failure_updates, retry_updates}
use cherry_wiki.Job.Scanner.{
  get_retry_delay_seconds, timeout_error, requeue_expired, release_owner, report_timeout,
  expire_job,
}

-- A step that writes one row and leaves the clock and the other rows alone.
pub record Writes (id : String) (row : JobRow) (w w' : World) : Type 0 where
  pub here : row_at id w' ≡ some row
  pub elsewhere : (j : String) → (id =ₛ j) ≡ false → row_at j w' ≡ row_at j w
  pub same_clock : w'.clock ≡ w.clock

Writes-trans :
    {id : String} {r s : JobRow} {u v w : World}
    → Writes id r u v
    → Writes id s v w
    → Writes id s u w
Writes-trans p q = record {
  here = q.here;
  elsewhere = λ j d. q.elsewhere j d ∙ p.elsewhere j d;
  same_clock = q.same_clock ∙ p.same_clock;
}

-- A transition of the row with its event.
Writes-step :
    (id t : String) (d : Json) (new old : JobRow) (w : World)
    → new.id ≡ old.id
    → row_at id w ≡ some old
    → Writes id new w (append_event id t d (put_row id new w))
Writes-step id t d new old w same h = record {
  here = rw row_at-append_event (row_at-put_self id new old w (same ∙ id-row_at id w old h) h);
  elsewhere =
      λ j n. rw row_at-append_event (row_at-put_ne id j new w (same ∙ id-row_at id w old h) n);
  same_clock = clock-append_event id t d (put_row id new w);
}

-- The row of an expired job after the scan.
abbrev pub expired_row : ℕ → JobRow → JobRow
expired_row now job =
    let down : JobRow = record job {
      status = failed;
      attempt_count = job.attempt_count + 1;
      error_json = some timeout_error;
      locked_by = none;
      locked_at = none;
      completed_at = some now;
    } in
    if ltb (job.attempt_count + 1) job.max_attempts
    then record down {
      status = pending;
      next_run_at = some (now + min (60 * 2 ^ (job.attempt_count + 1 - 1)) 1800 * 1000);
      started_at = none;
      completed_at = none;
    }
    else down

requeue_expired_lem :
    (job row : JobRow) (now : ℕ) (w : World)
    → w.clock ≡ now
    → row_at job.id w ≡ some row
    → row.status ≡ failed
    → ((requeue_expired job w).0 ≡ ok tt)
      × Writes job.id
          (apply_updates pending
            (retry_updates (now + get_retry_delay_seconds (job.attempt_count + 1) * 1000))
            row)
          w
          (requeue_expired job w).1
unfolding requeue_expired
requeue_expired_lem job row now w c h s =
    let u = retry_updates (w.clock + get_retry_delay_seconds (job.attempt_count + 1) * 1000) in
    rw (← c) (
      rw (transition_ok job.id failed pending u w row refl h s, next)
        (refl, Writes-step job.id _ _ (apply_updates pending u row) row w refl h))

release_owner-Writes :
    (owner : Option String) (job : JobRow) (row : JobRow) (u w : World)
    → Writes job.id row u w
    → Writes job.id row u (release_owner owner job.id w).1
release_owner-Writes none job row u w h = h
release_owner-Writes (some o) job row u w h = record {
  here = row_at-jobs job.id _ w (jobs-release job.id o w) ∙ h.here;
  elsewhere = λ j d. row_at-jobs j _ w (jobs-release job.id o w) ∙ h.elsewhere j d;
  same_clock = clock-release job.id o w ∙ h.same_clock;
}

append_event-Writes :
    (id t : String) (d : Json) (row : JobRow) (u w : World)
    → Writes id row u w
    → Writes id row u (append_event id t d w)
append_event-Writes id t d row u w h = record {
  here = rw row_at-append_event h.here;
  elsewhere = λ j n. rw row_at-append_event (h.elsewhere j n);
  same_clock = clock-append_event id t d w ∙ h.same_clock;
}

release_owner_ok :
    (owner : Option String) (id : String) (w : World) → (release_owner owner id w).0 ≡ ok tt
release_owner_ok none id w = refl
release_owner_ok (some o) id w = refl

report_timeout-Writes :
    (job row : JobRow) (u w : World)
    → Writes job.id row u w
    → ((report_timeout job w).0 ≡ ok tt) × Writes job.id row u (report_timeout job w).1
unfolding report_timeout
report_timeout-Writes job row u w h = (
  release_owner_ok job.locked_by job.id _,
  release_owner-Writes job.locked_by job row u _ (append_event-Writes job.id _ _ row u w h),
)

pub expire_job_lem :
    (job : JobRow) (w : World)
    → row_at job.id w ≡ some job
    → job.status ≡ running
    → ((expire_job job w).0 ≡ ok tt)
      × Writes job.id (expired_row w.clock job) w (expire_job job w).1
unfolding expire_job get_retry_delay_seconds
expire_job_lem job w h s =
    let u = failure_updates (job.attempt_count + 1) timeout_error w.clock in
    let down = apply_updates failed u job in
    rw (transition_ok job.id running failed u w job refl h s, next)
      (elim (Bool-cases (ltb (job.attempt_count + 1) job.max_attempts)) [
        | inr f ↦
            rw f (report_timeout-Writes job down w _ (Writes-step job.id _ _ down job w refl h))
        | inl t ↦
            let step =
              Writes-step job.id "status_changed"
                (changed running failed (field "reason" (str "timeout") end)) down job w refl h in
            let (fine, second) =
              requeue_expired_lem job down w.clock _ step.same_clock step.here refl in
            rw t (rw (fine, next) (report_timeout-Writes job _ w _ (Writes-trans step second)))
      ])
