-- ===== src/Examples/Jobs.antt =====
-- The worker, the lock, the scanner and the repository at concrete inputs.
use cherry_wiki.Base.{◌+◌, String, ◌≡◌, ◌≢◌, refl, true, none, some, arith, length, keep, eq_iff}
use mathlib.Core.Bool.{false≢true}
use cherry_wiki.Job.Data.{JobRow, pending, running, cancelled, num, no_updates}
use cherry_wiki.Job.Exec.{World, Lease, ok, err}
use cherry_wiki.Job.Store.{row_at, find_row, replace_row, append_event}
use cherry_wiki.Job.Machine.{transition}
use cherry_wiki.Job.Machine.Outcome.{Outcome, transition-Outcome}
use cherry_wiki.Job.Lock.{acquire, renew, release, set_lease}
use cherry_wiki.Job.Lock.Laws.{holder, acquires, waits, stop, then, lock_exclusive}
use cherry_wiki.Job.Worker.{
  resolve_job_id, handle_bull_job, handle_job, run_released, run_locked, complete, write_result,
  fail_with, handle_failure, record_failure, requeue, is_retryable, get_retry_delay_seconds,
  normalize_error,
}
use cherry_wiki.Job.Worker.Success.{Completed, handle_bull_job_success}
use cherry_wiki.Job.Worker.Failure.{final_row, fail_with_recorded}
use cherry_wiki.Job.Scanner.{is_expired, scan}
use cherry_wiki.Job.Scanner.Laws.{after_scan, scan_lem}
use cherry_wiki.Job.Repository.{create, find_key, find_pending_by_type}
use cherry_wiki.Job.Repository.Changes.{changed, unchanged, transits, creates}
use cherry_wiki.Job.Repository.Create.{create_idempotent}
use cherry_wiki.Job.Repository.Poll.{Polled, find_pending_by_type-Polled}
use cherry_wiki.Examples.Fixtures.{job, waiting, crowded, bull, good_worker, broken, creation}

-- What the worker computes with, for a test.
running_it : Unit {0}
unfolding handle_bull_job resolve_job_id handle_job acquire run_released run_locked complete
    write_result fail_with handle_failure record_failure requeue is_retryable
    get_retry_delay_seconds normalize_error transition row_at find_row replace_row append_event
    release renew
running_it = tt

abbrev handled : World
handled = (handle_bull_job good_worker bull waiting).1

handled_ok : (handle_bull_job good_worker bull waiting).0 ≡ ok (num 7)
unfolding running_it
handled_ok = refl

handle_bull_job_success_example :
    (id : String) × (resolve_job_id bull waiting ≡ (ok id, waiting))
    × ((acquire id "w1" 600 waiting).0 ≡ true)
    × Completed id (num 7) handled
    × (holder id handled ≢ some "w1")
handle_bull_job_success_example =
    handle_bull_job_success good_worker bull (num 7) waiting handled (λ i. (handled_ok i, handled))

-- The worker holds the lock of the running job j3.
abbrev locked : World
locked = set_lease "job:lock:j3" (some (record { holder = "w1"; expires_at = 9000000 })) crowded

locked_holder : holder "j3" locked ≡ some "w1"
unfolding holder running_it
locked_holder = refl

fail_with_recorded_example :
    ((fail_with good_worker "j3" (job "j3" running) broken locked).0 ≡ err broken)
    × (row_at "j3" (fail_with good_worker "j3" (job "j3" running) broken locked).1
        ≡ some (final_row good_worker "j3" (job "j3" running) broken 2000000 (job "j3" running)))
unfolding running_it
fail_with_recorded_example =
    fail_with_recorded good_worker "j3" (job "j3" running) broken locked (job "j3" running)
      (omega arith) locked_holder refl refl

unlocked : holder "j3" crowded ≢ some "w1"
unfolding holder running_it
unlocked p = cc p

transition-Outcome_example :
    Outcome "j1" pending cancelled no_updates waiting
      (transition "j1" pending cancelled no_updates waiting)
transition-Outcome_example = transition-Outcome "j1" pending cancelled no_updates waiting

-- The first of two workers takes the job.
abbrev taken : World
taken = (transition "j1" pending running no_updates waiting).1

abbrev leased : World
leased = (acquire "j1" "w1" 600 waiting).1

abbrev lease : Lease
lease = record { holder = "w1"; expires_at = 601000 }

-- Another worker tries to take the lock, and five minutes pass.
abbrev tried : World
tried = (acquire "j1" "w2" 600 leased).1

lock_exclusive_example : holder "j1" (record tried { clock = tried.clock + 300000 }) ≡ some "w1"
unfolding running_it
lock_exclusive_example =
    lock_exclusive "j1" lease leased (record tried { clock = tried.clock + 300000 }) refl
      (then (acquires "j1" "w2" 600 leased (λ p. false≢true ((eq_iff "w2" "w1").1 p)))
        (then (waits 300000 tried) stop))
      (omega arith)

scan_lem_example :
    ((scan crowded).0 ≡ ok (length (keep (is_expired 2000000) crowded.jobs)))
    × ((id : String) → row_at id (scan crowded).1 ≡ after_scan 2000000 (row_at id crowded))
unfolding running_it
scan_lem_example = scan_lem crowded (refl, (refl, (refl, tt)))

abbrev created : World
created = (create creation waiting).1

abbrev first_row : JobRow
first_row = record (job "u" pending) {
  space_id = none;
  queue_name = "default";
  idempotency_key = some "fresh";
  created_by = none;
  created_at = 1000;
}

-- The new job is started, and another one is created without a key.
abbrev started : World
started = (transition "u" pending running no_updates created).1

abbrev later : World
later = (create (record creation { id = some "v"; idempotency_key = none }) started).1

create_idempotent_example :
    (row : JobRow) × ((create creation later).0 ≡ ok row)
    × (row.id ≡ "u")
    × (later.jobs ≡ created.jobs → row ≡ first_row)
    × ((create creation later).1.jobs ≡ later.jobs)
unfolding create running_it find_key
create_idempotent_example =
    create_idempotent creation creation "fresh" waiting created later first_row refl refl refl refl
      (changed (changed unchanged (transits "u" pending running no_updates))
        (creates (record creation { id = some "v"; idempotency_key = none })))

find_pending_by_type-Polled_example :
    Polled none "index" 5 waiting (find_pending_by_type none "index" 5 waiting)
find_pending_by_type-Polled_example = find_pending_by_type-Polled none "index" 5 waiting
