-- ===== src/Job/Machine/Race.antt =====
-- The row after a transition, and what a second caller that expected the same status meets.
use cherry_wiki.Base.{String, ◌≡◌, refl, ◌∙◌, ap, inl, inr, false, some, ◌=ₛ◌, Bool-cases}
use cherry_wiki.Job.Data.{JobStatus, status_eq, JobRow, JobUpdateInput, conflict}
use cherry_wiki.Job.Exec.{World, ok, err}
use cherry_wiki.Job.Store.{row_at}
use cherry_wiki.Job.Store.Laws.{id-row_at, row_at-put_self, row_at-put_ne}
use cherry_wiki.Job.Machine.{allowed, transition}
use cherry_wiki.Job.Machine.Table.{
  Edge, start, cancel_waiting, succeed, fail, cancel_running, retry,
}
use cherry_wiki.Job.Machine.Outcome.{
  Moved, transition-Moved, transition_no_edge, transition_moved_on,
}

Edge-ne : (s t : JobStatus) → Edge s t → status_eq t s ≡ false
Edge-ne s t start = refl
Edge-ne s t cancel_waiting = refl
Edge-ne s t succeed = refl
Edge-ne s t fail = refl
Edge-ne s t cancel_running = refl
Edge-ne s t retry = refl

module _ (id : String) (from to : JobStatus) (u : JobUpdateInput) (w w' : World) (row : JobRow)
    (m : Moved id from to u w row w') where
  pub Moved-row_at : row_at id w' ≡ some row
  Moved-row_at = rw m.world_eq (
      row_at-put_self id row m.old w (ap (λ r. r.id) m.row_eq ∙ id-row_at id w m.old m.old_at)
        m.old_at)

  pub Moved-row_ne : (j : String) → (id =ₛ j) ≡ false → row_at j w' ≡ row_at j w
  Moved-row_ne j d =
      rw m.world_eq
        (row_at-put_ne id j row w (ap (λ r. r.id) m.row_eq ∙ id-row_at id w m.old m.old_at) d)

  pub Moved-status : row.status ≡ to
  Moved-status = ap (λ r. r.status) m.row_eq

-- When one caller's transition succeeds, a second caller that expects the same old status is
-- refused with a conflict, whatever status it wants, and changes nothing.
pub transition-exclusive :
    (id : String) (from to to' : JobStatus) (u u' : JobUpdateInput) (w w' : World) (row : JobRow)
    → transition id from to u w ≡ (ok row, w')
    → (message : String) × (transition id from to' u' w' ≡ (err (conflict message), w'))
transition-exclusive id from to to' u u' w w' row p =
    let m = transition-Moved id from to u w w' row p in
    elim (Bool-cases (allowed from to')) [
      | inr a ↦ (_, transition_no_edge id from to' u' w' a)
      | inl a ↦ (
        _,
        transition_moved_on id from to' u' w' row a (Moved-row_at id from to u w w' row m)
            (rw (Moved-status id from to u w w' row m) (Edge-ne from to m.edge)),
      )
    ]
