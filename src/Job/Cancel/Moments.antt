-- ===== src/Job/Cancel/Moments.antt =====
-- The moments of a cancellation: the worlds that it and other clients pass through.
use cherry_wiki.Base.{ℕ, String, none, some, ◌≡◌, ◌≢◌, ◌⊎◌}
use cherry_wiki.Job.Data.{JobRow, running, cancelled}
use cherry_wiki.Job.Exec.{World}
use cherry_wiki.Job.Store.{row_at}
use cherry_wiki.Job.Cancel.{Meanwhile, CancelJobResponse, to_cancel_job_response, transaction}

-- The row is cancelled, or it runs and its worker has been asked to stop; the answer is the row's.
pub record Settled (id : String) (r : CancelJobResponse) (w : World) : Type 0 where
  pub row : JobRow
  pub row_is : row_at id w ≡ some row
  pub answer : r ≡ to_cancel_job_response row
  pub stopping :
      (row.status ≡ cancelled) ⊎ ((row.status ≡ running) × (row.cancel_requested_at ≢ none))

-- From the world `v` to the world `w` only others have acted, while permissions were queried.
abbrev pub IsSince : Meanwhile → World → World → Type 0
IsSince m v w = (w ≡ v) ⊎ ((n : ℕ) × ((w ≡ m.checks n v) ⊎ (w ≡ m.rechecks n v)))

-- The worlds that the steps of others and the transactions of the cancellation lead to.
pub data Seen (m : Meanwhile) (w : World) : World → Type 0 where
  at_first : Seen m w w
  after_checks : {u : World} → (n : ℕ) → Seen m w u → Seen m w (m.checks n u)
  after_before : {u : World} → (n : ℕ) → Seen m w u → Seen m w (m.before n u)
  after_caught : {u : World} → (n : ℕ) → Seen m w u → Seen m w (m.caught n u)
  after_rechecks : {u : World} → (n : ℕ) → Seen m w u → Seen m w (m.rechecks n u)
  after_pause : {u : World} → (n : ℕ) → Seen m w u → Seen m w (m.pause n u)
  after_transaction :
      {u : World}
      → (actor : String) (job : JobRow) → Seen m w u
      → Seen m w (transaction actor job.status job u).1

-- From the world `w` on, the answer was settled at the moment when its row was written or last read,
-- and `w'` is the world when it is given.
pub record WasSettled (m : Meanwhile) (id : String) (r : CancelJobResponse) (w w' : World)
    : Type 0 where
  pub moment : World
  pub seen : Seen m w moment
  pub settled : Settled id r moment
  pub since : IsSince m moment w'

Seen-trans : {m : Meanwhile} {w u v : World} → Seen m w u → Seen m u v → Seen m w v
Seen-trans s at_first = s
Seen-trans s (after_checks n h) = after_checks n (Seen-trans s h)
Seen-trans s (after_before n h) = after_before n (Seen-trans s h)
Seen-trans s (after_caught n h) = after_caught n (Seen-trans s h)
Seen-trans s (after_rechecks n h) = after_rechecks n (Seen-trans s h)
Seen-trans s (after_pause n h) = after_pause n (Seen-trans s h)
Seen-trans s (after_transaction actor job h) = after_transaction actor job (Seen-trans s h)

-- What was settled after a world was settled after an earlier one.
pub WasSettled-Seen :
    {m : Meanwhile} {id : String} {r : CancelJobResponse} {w u w' : World}
    → Seen m w u
    → WasSettled m id r u w'
    → WasSettled m id r w w'
WasSettled-Seen s h = record {
  moment = h.moment;
  seen = Seen-trans s h.seen;
  settled = h.settled;
  since = h.since;
}
