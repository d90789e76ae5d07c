-- ===== src/Job/Machine/Outcome.antt =====
-- What a transition answers and leaves behind, in every case.
use cherry_wiki.Base.{
  String, ◌≡◌, ◌≢◌, inl, inr, true, false, none, some, Bool-cases, Option-cases, if◌then◌else◌,
}
use cherry_wiki.Job.Data.{
  JobStatus, status_eq, JobRow, JobUpdateInput, apply_updates, Thrown, conflict, failure,
}
use cherry_wiki.Job.Exec.{World, Result, ok, err}
use cherry_wiki.Job.Store.{row_at, put_row, update_found}
use cherry_wiki.Job.Machine.{
  allowed, no_edge_text, missing_text, moved_on_text, refuse_transition, transition,
}
use cherry_wiki.Job.Machine.Table.{Edge, status_eq_iff, allowed_iff}

module _ (id : String) (from to : JobStatus) (u : JobUpdateInput) (w : World) where
  -- The row moves along an edge; or it is not in the expected status, or the table has no such
  -- edge; or there is no such row. Only the first changes the world.
  pub data Outcome : Result JobRow × World → Type 0 where
    moved :
        (old : JobRow)
        → Edge from to
        → row_at id w ≡ some old
        → old.status ≡ from
        → Outcome (ok (apply_updates to u old), put_row id (apply_updates to u old) w)
    no_edge : (message : String) → ¬ Edge from to → Outcome (err (conflict message), w)
    moved_on :
        (message : String) (existing : JobRow)
        → Edge from to
        → row_at id w ≡ some existing
        → existing.status ≢ from
        → Outcome (err (conflict message), w)
    missing :
        (message : String)
        → Edge from to
        → row_at id w ≡ none
        → Outcome (err (failure "Error" message none), w)

  edge : allowed from to ≡ true → Edge from to
  edge h = (allowed_iff from to).0 h

  not_edge : allowed from to ≡ false → ¬ Edge from to
  not_edge h e = cc ((allowed_iff from to).1 e)

  pub transition_ok :
      (old : JobRow)
      → allowed from to ≡ true
      → row_at id w ≡ some old
      → old.status ≡ from
      → transition id from to u w
        ≡ (ok (apply_updates to u old), put_row id (apply_updates to u old) w)
  unfolding transition
  transition_ok old a h s =
      rw (a, if◌then◌else◌) (rw (h, update_found) (rw ((status_eq_iff old.status from).1 s)))

  pub transition_no_edge :
      allowed from to ≡ false
      → transition id from to u w ≡ (err (conflict (no_edge_text from to)), w)
  unfolding transition
  transition_no_edge a = rw a

  pub transition_moved_on :
      (r : JobRow)
      → allowed from to ≡ true
      → row_at id w ≡ some r
      → status_eq r.status from ≡ false
      → transition id from to u w ≡ (err (conflict (moved_on_text id from to r.status)), w)
  unfolding transition
  transition_moved_on r a h d =
      rw (a, if◌then◌else◌) (rw (h, update_found) (rw d (rw (h, refuse_transition))))

  transition_missing :
      allowed from to ≡ true
      → row_at id w ≡ none
      → transition id from to u w ≡ (err (failure "Error" (missing_text id) none), w)
  unfolding transition
  transition_missing a h = rw (a, if◌then◌else◌) (rw (h, update_found) (rw (h, refuse_transition)))

  differs : (r : JobRow) → status_eq r.status from ≡ false → r.status ≢ from
  differs r d e = cc ((status_eq_iff r.status from).1 e)

  found-Outcome :
      (r : JobRow)
      → allowed from to ≡ true
      → row_at id w ≡ some r
      → Outcome (transition id from to u w)
  found-Outcome r a h = elim (Bool-cases (status_eq r.status from)) [
    | inl same ↦
        let s = (status_eq_iff r.status from).0 same in
        rw (transition_ok r a h s) (moved r (edge a) h s)
    | inr d ↦ rw (transition_moved_on r a h d) (moved_on _ r (edge a) h (differs r d))
  ]

  -- Every transition has one of the four outcomes.
  pub transition-Outcome : Outcome (transition id from to u w)
  transition-Outcome = elim (Bool-cases (allowed from to)) [
    | inr a ↦ rw (transition_no_edge a) (no_edge _ (not_edge a))
    | inl a ↦ elim (Option-cases (row_at id w)) [
      | inl h ↦ rw (transition_missing a h) (missing _ (edge a) h)
      | inr (r, h) ↦ found-Outcome r a h
    ]
  ]

-- What a caller that got its row knows.
pub record Moved (id : String) (from to : JobStatus) (u : JobUpdateInput) (w : World) (row : JobRow)
    (w' : World) : Type 0 where
  pub old : JobRow
  pub edge : Edge from to
  pub old_at : row_at id w ≡ some old
  pub old_status : old.status ≡ from
  pub row_eq : row ≡ apply_updates to u old
  pub world_eq : w' ≡ put_row id row w

Outcome-Moved :
    (id : String) (from to : JobStatus) (u : JobUpdateInput) (w w' : World) (row : JobRow)
    (r : Result JobRow × World)
    → Outcome id from to u w r
    → r ≡ (ok row, w')
    → Moved id from to u w row w'
Outcome-Moved id from to u w w' row r (moved old e h s) p = record {
  old = old;
  edge = e;
  old_at = h;
  old_status = s;
  row_eq = cc;
  world_eq = cc;
}
Outcome-Moved id from to u w w' row r (no_edge m n) p = cc
Outcome-Moved id from to u w w' row r (moved_on m x e h n) p = cc
Outcome-Moved id from to u w w' row r (missing m e h) p = cc

pub transition-Moved :
    (id : String) (from to : JobStatus) (u : JobUpdateInput) (w w' : World) (row : JobRow)
    → transition id from to u w ≡ (ok row, w')
    → Moved id from to u w row w'
transition-Moved id from to u w w' row p =
    Outcome-Moved id from to u w w' row _ (transition-Outcome id from to u w) p

Outcome-unchanged :
    (id : String) (from to : JobStatus) (u : JobUpdateInput) (w w' : World) (e : Thrown)
    (r : Result JobRow × World)
    → Outcome id from to u w r
    → r ≡ (err e, w')
    → w' ≡ w
Outcome-unchanged id from to u w w' e r (moved old d h s) p = cc
Outcome-unchanged id from to u w w' e r (no_edge m n) p = cc
Outcome-unchanged id from to u w w' e r (moved_on m x d h n) p = cc
Outcome-unchanged id from to u w w' e r (missing m d h) p = cc

pub transition_err_unchanged :
    (id : String) (from to : JobStatus) (u : JobUpdateInput) (w w' : World) (e : Thrown)
    → transition id from to u w ≡ (err e, w')
    → w' ≡ w
transition_err_unchanged id from to u w w' e p =
    Outcome-unchanged id from to u w w' e _ (transition-Outcome id from to u w) p
