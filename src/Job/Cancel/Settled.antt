-- ===== src/Job/Cancel/Settled.antt =====
-- What an answered cancellation means, whatever other clients do meanwhile.
use cherry_wiki.Base.{
  ℕ, zero, suc, ◌+◌, String, ◌≡◌, ◌≢◌, refl, sym, ap, subst, ◌⊎◌, inl, inr, true, false, Option,
  none, some, arith, Bool-cases, Option-cases, if◌then◌else◌,
}
use cherry_wiki.Job.Data.{
  JobStatus, pending, running, succeeded, failed, cancelled, other, JobRow, conflict, api_error,
  failure, value,
}
use cherry_wiki.Job.Exec.{World, M, Result, ok, err, pure, caught}
use cherry_wiki.Job.Exec.Invert.{next-eq-ok}
use cherry_wiki.Job.Store.{row_at, put_row, append_event, update_where, update_found}
use cherry_wiki.Job.Store.Laws.{row_at-append_event, row_at-put_self, id-row_at}
use cherry_wiki.Job.Machine.{transition}
use cherry_wiki.Job.Machine.Outcome.{transition-Moved}
use cherry_wiki.Job.Machine.Race.{Moved-row_at}
use cherry_wiki.Job.Machine.Table.{status_eq_iff}
use cherry_wiki.Job.Cancel.Moments.{
  Settled, IsSince, Seen, at_first, after_checks, after_before, after_caught, after_rechecks,
  after_pause, after_transaction, WasSettled, WasSettled-Seen,
}
use cherry_wiki.Job.Cancel.{
  Directory, JobContext, JobAccessMode, cancel, Meanwhile, CancelJobResponse,
  to_cancel_job_response, not_requested, cancel_updates, is_running_unrequested, request_cancel,
  found_for, with_user, with_tenant, resolve_tenant_id, resolve_context_user_id, get_accessible_job,
  cancelled_detail, requested_detail, cancel_pending, cancel_running, by_status, transaction,
  on_conflict, resolve_cancellation_conflict, attempt, cancel_once, cancel_job_internal, cancel_job,
}

abbrev SettlesNow : String → M CancelJobResponse → Type 0
SettlesNow id x = (w w' : World) (r : CancelJobResponse) → x w ≡ (ok r, w') → Settled id r w'

abbrev Settles : Meanwhile → String → M CancelJobResponse → Type 0
Settles m id x = (w w' : World) (r : CancelJobResponse) → x w ≡ (ok r, w') → WasSettled m id r w w'

cancel_pending-Settles : (actor id : String) → SettlesNow id (cancel_pending actor id)
unfolding cancel_pending
cancel_pending-Settles actor id w w' r h =
    let u = cancel_updates w.clock in
    let (row, w1, moved, h1) = next-eq-ok (transition id pending cancelled u w) _ r w' h in
    let m = transition-Moved id pending cancelled u w w1 row moved in
    let e : append_event id "status_changed" (cancelled_detail actor) w1 ≡ w' = cc h1 in
    record {
      row = row;
      row_is = rw (← e) (rw row_at-append_event (Moved-row_at id pending cancelled u w w1 row m));
      answer = cc h1;
      stopping = inl (ap (λ x. x.status) m.row_eq);
    }

running_of : (row : JobRow) → is_running_unrequested row ≡ true → row.status ≡ running
running_of row t = (status_eq_iff row.status running).0 (ground arith)

cancel_running-Settles : (actor id : String) → SettlesNow id (cancel_running actor id)
unfolding cancel_running update_where
cancel_running-Settles actor id w w' r h = elim (Option-cases (row_at id w)) [
  | inl n ↦ cc (rw (n, update_found) at h)
  | inr (row, there) ↦ elim (Bool-cases (is_running_unrequested row)) [
    | inr f ↦ cc (rw (there, update_found, f) at h)
    | inl t ↦
        let new = request_cancel w.clock row in
        let h1 : (
          ok (to_cancel_job_response new),
          append_event id "cancel_requested" (requested_detail actor) (put_row id new w),
        )
            ≡ (ok r, w') =
          rw (there, update_found, t) at h in
        let e : append_event id "cancel_requested" (requested_detail actor) (put_row id new w)
            ≡ w' =
          cc h1 in
        record {
          row = new;
          row_is = rw (← e) (
              rw row_at-append_event
                (row_at-put_self id new row w (id-row_at id w row there) there));
          answer = cc h1;
          stopping = inr (running_of row t, λ p. cc p);
        }
  ]
]

found_for-row :
    (d : Directory) (c : JobContext) (tenant user : String) (mode : JobAccessMode)
    (o : Option JobRow) (job : JobRow)
    → found_for d c tenant user mode o ≡ ok job
    → o ≡ some job
found_for-row d c tenant user mode none job h = cc
found_for-row d c tenant user mode (some row) job h = ground arith

with_user-row :
    (d : Directory) (c : JobContext) (tenant : String) (mode : JobAccessMode) (o : Option JobRow)
    (u : Result String) (job : JobRow)
    → with_user d c tenant mode o u ≡ ok job
    → o ≡ some job
with_user-row d c tenant mode o (ok user) job h = found_for-row d c tenant user mode o job h
with_user-row d c tenant mode o (err e) job h = cc

with_tenant-row :
    (d : Directory) (c : JobContext) (mode : JobAccessMode) (o : Option JobRow) (t : Result String)
    (job : JobRow)
    → with_tenant d c mode o t ≡ ok job
    → o ≡ some job
with_tenant-row d c mode o (ok tenant) job h = with_user-row d c tenant mode o _ job h
with_tenant-row d c mode o (err e) job h = cc

-- A job that was found for the caller was in the world, which nobody but others has changed.
pub get_accessible_job-row :
    (d : Directory) (c : JobContext) (others : World → World) (mode : JobAccessMode) (id : String)
    (w w' : World) (job : JobRow)
    → get_accessible_job d c others mode id w ≡ (ok job, w')
    → (w' ≡ others w) × (row_at id w ≡ some job)
unfolding get_accessible_job
get_accessible_job-row d c others mode id w w' job h =
    let p : with_tenant d c mode (row_at id w) (resolve_tenant_id c) ≡ ok job = cc h in
    (cc h, with_tenant-row d c mode (row_at id w) (resolve_tenant_id c) job p)

requested_of : (o : Option ℕ) → not_requested o ≡ false → o ≢ none
requested_of none h p = cc
requested_of (some at_) h p = cc

-- A row that was read is answered.
answered :
    (m : Meanwhile) (id : String) (job : JobRow) (w0 v w w' : World) (r : CancelJobResponse)
    → Seen m w0 v
    → row_at id v ≡ some job
    → IsSince m v w
    → ((job.status ≡ cancelled) ⊎ ((job.status ≡ running) × (job.cancel_requested_at ≢ none)))
    → pure (to_cancel_job_response job) w ≡ (ok r, w')
    → WasSettled m id r w0 w'
answered m id job w0 v w w' r seen there since stopping h = record {
  moment = v;
  seen = seen;
  settled = record { row = job; row_is = there; answer = cc h; stopping = stopping };
  since = subst (IsSince m v) (cc h) since;
}

by_status-Settles :
    (m : Meanwhile) (open_ : JobRow → M CancelJobResponse) (id : String) (job : JobRow)
    (w0 v w w' : World) (r : CancelJobResponse)
    → Seen m w0 v
    → row_at id v ≡ some job
    → IsSince m v w
    → (open_ job w ≡ (ok r, w') → WasSettled m id r w0 w')
    → (s : JobStatus) → job.status ≡ s
    → by_status open_ s job w ≡ (ok r, w')
    → WasSettled m id r w0 w'
unfolding by_status
by_status-Settles m open_ id job w0 v w w' r seen there since rest pending e h = rest h
by_status-Settles m open_ id job w0 v w w' r seen there since rest running e h =
    elim (Bool-cases (not_requested job.cancel_requested_at)) [
      | inl n ↦ rest (rw (n, if◌then◌else◌) at h)
      | inr q ↦
          let h1 : (ok (to_cancel_job_response job), w) ≡ (ok r, w') = rw (q, if◌then◌else◌) at h in
          answered m id job w0 v w w' r seen there since
            (inr (e, requested_of job.cancel_requested_at q)) h1
    ]
by_status-Settles m open_ id job w0 v w w' r seen there since rest succeeded e h = cc
by_status-Settles m open_ id job w0 v w w' r seen there since rest failed e h = cc
by_status-Settles m open_ id job w0 v w w' r seen there since rest cancelled e h =
    answered m id job w0 v w w' r seen there since (inl e) h
by_status-Settles m open_ id job w0 v w w' r seen there since rest (other text) e h = cc

module _ (d : Directory) (c : JobContext) (m : Meanwhile) (id : String) where
  module _ (again : M CancelJobResponse) (settles : Settles m id again) where
    resolve-Settles : (n : ℕ) → Settles m id (resolve_cancellation_conflict d c m id n again)
    unfolding resolve_cancellation_conflict
    resolve-Settles n w w' r h =
        let u = m.caught n w in
        let others = m.rechecks n in
        let (job, w1, p, h1) = next-eq-ok (get_accessible_job d c others cancel id u) _ r w' h in
        let (since, there) = get_accessible_job-row d c others cancel id u w1 job p in
        let seen : Seen m w u = after_caught n at_first in
        let later : Seen m w w1 = subst (Seen m w) (sym since) (after_rechecks n seen) in
        by_status-Settles m (λ _. again) id job w u w1 w' r seen there (inr (n, inr since))
          (λ k. WasSettled-Seen later (settles w1 w' r k)) job.status refl h1

    caught-Settles :
        (n : ℕ) (w0 : World) (x : Result CancelJobResponse × World) (w' : World)
        (r : CancelJobResponse)
        → Seen m w0 x.1
        → (x ≡ (ok r, w') → Settled id r w')
        → caught x (on_conflict (resolve_cancellation_conflict d c m id n again)) ≡ (ok r, w')
        → WasSettled m id r w0 w'
    caught-Settles n w0 (ok a, u) w' r seen f h = record {
      moment = w';
      seen = subst (Seen m w0) (cc h) seen;
      settled = f h;
      since = inl refl;
    }
    caught-Settles n w0 (err (conflict t), u) w' r seen f h =
        WasSettled-Seen seen (resolve-Settles n u w' r h)
    caught-Settles n w0 (err (api_error code t s), u) w' r seen f h = cc
    caught-Settles n w0 (err (failure name t fl), u) w' r seen f h = cc
    caught-Settles n w0 (err (value fl), u) w' r seen f h = cc

    transaction-Settles :
        (actor : String) (s : JobStatus) (job : JobRow)
        → job.id ≡ id
        → SettlesNow id (transaction actor s job)
    transaction-Settles actor pending job e =
        subst (λ i. SettlesNow id (cancel_pending actor i)) (sym e)
          (cancel_pending-Settles actor id)
    transaction-Settles actor _ job e =
        subst (λ i. SettlesNow id (cancel_running actor i)) (sym e)
          (cancel_running-Settles actor id)

    attempt-Settles :
        (n : ℕ) (actor : String) (job : JobRow)
        → job.id ≡ id
        → Settles m id (attempt d c m id n again actor job)
    unfolding attempt
    attempt-Settles n actor job e w w' r h =
        caught-Settles n w (transaction actor job.status job (m.before n w)) w' r
          (after_transaction actor job (after_before n at_first))
          (transaction-Settles actor job.status job e (m.before n w) w' r) h

    cancel_once-Settles : (n : ℕ) → Settles m id (cancel_once d c m id n again)
    unfolding cancel_once
    cancel_once-Settles n w w' r h =
        let (actor, w0, p0, h0) = next-eq-ok (resolve_context_user_id c, w) _ r w' h in
        let others = m.checks n in
        let (job, w1, p, h1) = next-eq-ok (get_accessible_job d c others cancel id w0) _ r w' h0 in
        let (since, there) = get_accessible_job-row d c others cancel id w0 w1 job p in
        let seen : Seen m w w0 = subst (Seen m w) (cc p0) at_first in
        let later : Seen m w w1 = subst (Seen m w) (sym since) (after_checks n seen) in
        by_status-Settles m (attempt d c m id n again actor) id job w w0 w1 w' r seen there
          (inr (n, inl since))
          (λ k.
            WasSettled-Seen later
              (attempt-Settles n actor job (id-row_at id w0 job there) w1 w' r k))
          job.status refl h1

  cancel_job_internal-Settles : (left n : ℕ) → Settles m id (cancel_job_internal d c m id left n)
  unfolding cancel_job_internal
  cancel_job_internal-Settles zero n w w' r h = cancel_once-Settles _ (λ u u' q p. cc) n w w' r h
  cancel_job_internal-Settles (suc left) n w w' r h =
      cancel_once-Settles _
        (λ u u' q k.
          WasSettled-Seen (after_pause n at_first)
            (cancel_job_internal-Settles left (n + 1) (m.pause n u) u' q k))
        n w w' r h

-- Whatever other clients do between the steps of a cancellation, between the reading of a job and the
-- query for permissions on it, and during the delays, if it answers without an error, then among the
-- worlds that it and they passed through there is one in which the job was cancelled, or it was
-- running and its cancellation had been requested; the answer shows the job's row there; and when
-- the answer is given nothing has happened since but what others did during one query for
-- permissions, if anything.
pub cancel_job-Settled :
    (d : Directory) (c : JobContext) (m : Meanwhile) (id : String) (w w' : World)
    (r : CancelJobResponse)
    → cancel_job d c m id w ≡ (ok r, w')
    → WasSettled m id r w w'
unfolding cancel_job
cancel_job-Settled d c m id w w' r h = cancel_job_internal-Settles d c m id 3 0 w w' r h
