-- ===== src/Job/Store/Laws.antt =====
-- What a write of one row changes, as a reader by id sees it.
use cherry_wiki.Base.{String, ◌≡◌, refl, ap, false, some, List, [], ◌∷◌, ◌=ₛ◌, arith, eq_iff}
use cherry_wiki.Job.Data.{JobRow, Json}
use cherry_wiki.Job.Exec.{World}
use cherry_wiki.Job.Store.{find_row, replace_row, row_at, put_row, append_event}

pub id-find_row :
    (id : String) (rows : List JobRow) (row : JobRow) → find_row id rows ≡ some row → row.id ≡ id
unfolding find_row
id-find_row id [] row h = cc
id-find_row id (r ∷ rows) row h = ground (arith, eq_iff r.id id, id-find_row id rows row)

find_row-replace_self :
    (id : String) (new old : JobRow) (rows : List JobRow)
    → new.id ≡ id
    → find_row id rows ≡ some old
    → find_row id (replace_row id new rows) ≡ some new
unfolding find_row replace_row
find_row-replace_self id new old [] p h = cc
find_row-replace_self id new old (r ∷ rows) p h =
    ground (arith, eq_iff r.id id, eq_iff new.id id, find_row-replace_self id new old rows)

find_row-replace_ne :
    (id j : String) (new : JobRow) (rows : List JobRow)
    → new.id ≡ id
    → (id =ₛ j) ≡ false
    → find_row j (replace_row id new rows) ≡ find_row j rows
unfolding find_row replace_row
find_row-replace_ne id j new [] p h = refl
find_row-replace_ne id j new (r ∷ rows) p h = ground (
  arith,
  eq_iff r.id id,
  eq_iff r.id j,
  eq_iff new.id j,
  eq_iff id j,
  find_row-replace_ne id j new rows,
)

pub id-row_at : (id : String) (w : World) (row : JobRow) → row_at id w ≡ some row → row.id ≡ id
unfolding row_at
id-row_at id w row h = id-find_row id w.jobs row h

pub row_at-put_self :
    (id : String) (new old : JobRow) (w : World)
    → new.id ≡ id
    → row_at id w ≡ some old
    → row_at id (put_row id new w) ≡ some new
unfolding row_at
row_at-put_self id new old w p h = find_row-replace_self id new old w.jobs p h

pub row_at-put_ne :
    (id j : String) (new : JobRow) (w : World)
    → new.id ≡ id
    → (id =ₛ j) ≡ false
    → row_at j (put_row id new w) ≡ row_at j w
unfolding row_at
row_at-put_ne id j new w p h = find_row-replace_ne id j new w.jobs p h

pub row_at-append_event :
    (id j t : String) (d : Json) (w : World) → row_at j (append_event id t d w) ≡ row_at j w
unfolding row_at append_event
row_at-append_event id j t d w = refl

pub leases-append_event :
    (id t : String) (d : Json) (w : World) → (append_event id t d w).leases ≡ w.leases
unfolding append_event
leases-append_event id t d w = refl

pub clock-append_event :
    (id t : String) (d : Json) (w : World) → (append_event id t d w).clock ≡ w.clock
unfolding append_event
clock-append_event id t d w = refl

-- What a reader of rows sees depends on the table alone.
pub row_at-jobs : (id : String) (v w : World) → v.jobs ≡ w.jobs → row_at id v ≡ row_at id w
unfolding row_at
row_at-jobs id v w h = ap (find_row id) h
