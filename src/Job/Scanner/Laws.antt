-- ===== src/Job/Scanner/Laws.antt =====
-- What a scan does to every row of the table.
use cherry_wiki.Base.{
  ℕ, suc, ◌+◌, String, ◌≡◌, refl, ap, subst, ◌∙◌, inl, inr, true, false, Option, none, some, List,
  [], ◌∷◌, ◌=ₛ◌, arith, eq_iff, Bool-cases, if◌then◌else◌, keep, length,
}
use cherry_wiki.Job.Data.{running, JobRow}
use cherry_wiki.Job.Exec.{World, ok}
use cherry_wiki.Job.Store.{find_row, row_at}
use cherry_wiki.Job.Machine.Table.{status_eq_iff}
use cherry_wiki.Job.Scanner.{is_expired, expire_job, count_or_skip, scan_from, scan}
use cherry_wiki.Job.Scanner.Steps.{Writes, expired_row, expire_job_lem}
use cherry_wiki.Job.Scanner.Selection.{
  DistinctIds, filtered, find_row-keep, DistinctIds-keep, FoundIn, FoundIn-self,
}

is_expired-running : (now : ℕ) (job : JobRow) → is_expired now job ≡ true → job.status ≡ running
unfolding is_expired
is_expired-running now job h = (status_eq_iff job.status running).0 (ground arith)

-- The row of an id after a scan of `jobs` from the world `w`.
abbrev settled : ℕ → Option JobRow → Option JobRow → Option JobRow
settled now none old = old
settled now (some job) old = some (expired_row now job)

abbrev IsStored : World → List JobRow → Type 0
IsStored w [] = Unit
IsStored w (job ∷ jobs) = (row_at job.id w ≡ some job) × (job.status ≡ running) × IsStored w jobs

IsStored-Writes :
    (id : String) (row : JobRow) (w w' : World) (jobs : List JobRow)
    → Writes id row w w'
    → find_row id jobs ≡ none
    → IsStored w jobs
    → IsStored w' jobs
unfolding find_row
IsStored-Writes id row w w' [] ws n h = tt
IsStored-Writes id row w w' (job ∷ jobs) ws n (here, s, rest) =
    let apart : (id =ₛ job.id) ≡ false = ground (arith, eq_iff job.id id, eq_iff id job.id) in
    let none_left : find_row id jobs ≡ none = ground (arith, eq_iff job.id id) in
    (ws.elsewhere job.id apart ∙ here, s, IsStored-Writes id row w w' jobs ws none_left rest)

settled-step :
    (id : String) (job : JobRow) (jobs : List JobRow) (w w1 : World)
    → Writes job.id (expired_row w.clock job) w w1
    → find_row job.id jobs ≡ none
    → settled w1.clock (find_row id jobs) (row_at id w1)
      ≡ settled w.clock (find_row id (job ∷ jobs)) (row_at id w)
unfolding find_row
settled-step id job jobs w w1 ws fresh = elim (Bool-cases (job.id =ₛ id)) [
  | inl t ↦
      let same = (eq_iff job.id id).0 t in
      rw t (
        rw (subst (λ j. find_row j jobs ≡ none) same fresh, settled)
          (subst (λ j. row_at j w1 ≡ some (expired_row w.clock job)) same ws.here))
  | inr f ↦ rw (f, ws.elsewhere id f, ws.same_clock)
]

scan_from_lem :
    (jobs : List JobRow) (handled : ℕ) (w : World)
    → DistinctIds jobs
    → IsStored w jobs
    → ((scan_from jobs handled w).0 ≡ ok (handled + length jobs))
      × ((id : String)
          → row_at id (scan_from jobs handled w).1
            ≡ settled w.clock (find_row id jobs) (row_at id w))
unfolding scan_from find_row
scan_from_lem [] handled w d h = (ap ok (omega arith), λ id. refl)
scan_from_lem (job ∷ jobs) handled w (fresh, d) (here, s, rest) =
    let (fine, ws) = expire_job_lem job w here s in
    let w1 = (expire_job job w).1 in
    let (counted, rows) =
      scan_from_lem jobs (suc handled) w1 d
        (IsStored-Writes job.id (expired_row w.clock job) w w1 jobs ws fresh rest) in
    rw (fine, count_or_skip)
      (counted ∙ ap ok (omega arith), λ id. rows id ∙ settled-step id job jobs w w1 ws fresh)

IsStored-keep :
    (now : ℕ) (w : World) (rows : List JobRow)
    → FoundIn w.jobs rows
    → IsStored w (keep (is_expired now) rows)
unfolding row_at
IsStored-keep now w [] h = tt
IsStored-keep now w (row ∷ rows) (here, rest) = elim (Bool-cases (is_expired now row)) [
  | inl t ↦ rw t (here, is_expired-running now row t, IsStored-keep now w rows rest)
  | inr f ↦ rw f (IsStored-keep now w rows rest)
]

-- What the scan makes of a row.
abbrev pub after_scan : ℕ → Option JobRow → Option JobRow
after_scan now none = none
after_scan now (some row) = if is_expired now row then some (expired_row now row) else some row

settled-filtered :
    (now : ℕ) (old : Option JobRow)
    → settled now (filtered (is_expired now) old) old ≡ after_scan now old
settled-filtered now none = refl
settled-filtered now (some row) = ground arith

-- In a table with one row for each id, a scan ends without an error and counts the expired jobs.
-- Of each of them the row is failed with a timeout and one more attempt, and is pending again with
-- the backoff delay if an attempt is left; every other row is as it was, and none appears.
pub scan_lem :
    (w : World)
    → DistinctIds w.jobs
    → ((scan w).0 ≡ ok (length (keep (is_expired w.clock) w.jobs)))
      × ((id : String) → row_at id (scan w).1 ≡ after_scan w.clock (row_at id w))
unfolding scan row_at
scan_lem w d =
    let jobs = keep (is_expired w.clock) w.jobs in
    let (counted, rows) =
      scan_from_lem jobs 0 w (DistinctIds-keep (is_expired w.clock) w.jobs d)
        (IsStored-keep w.clock w w.jobs (FoundIn-self w.jobs d)) in
    (
      counted ∙ ap ok (omega arith),
      λ id.
          rows id
          ∙ ap (λ o. settled w.clock o (find_row id w.jobs))
              (find_row-keep (is_expired w.clock) id w.jobs d)
          ∙ settled-filtered w.clock (find_row id w.jobs),
    )
