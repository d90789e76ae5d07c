-- ===== src/Job/Repository/Changes.antt =====
-- What may happen to the table of jobs: creations, transitions, and updates that leave the id, the
-- tenant and the idempotency key of each row. A row that was found under a key stays under it.
use cherry_wiki.Base.{
  ◌≡◌, refl, sym, ap, subst, ◌∙◌, ◌&&◌, inl, inr, String, Bool, false, Option, none, some, List, [],
  ◌∷◌, ◌++◌, ◌=ₛ◌, Bool-cases, Option-cases, if◌then◌else◌,
}
use cherry_wiki.Job.Data.{JobStatus, JobUpdateInput, JobRow, or_old, apply_updates}
use cherry_wiki.Job.Exec.{World, Result, ok, next}
use cherry_wiki.Job.Store.{row_at, find_row, replace_row}
use cherry_wiki.Job.Machine.{transition}
use cherry_wiki.Job.Machine.Outcome.{Outcome, moved, no_edge, moved_on, missing, transition-Outcome}
use cherry_wiki.Job.Repository.{
  JobCreateInput, build_create_values, fresh_or, find_key, key_is, insert_unless, insert_row,
  create_by_key, insert_or_found, with_values, create,
}

-- The columns that no update writes.
pub record IsSameJob (old new : JobRow) : Type 0 where
  pub same_id : new.id ≡ old.id
  pub same_tenant : new.tenant_id ≡ old.tenant_id
  pub same_key : new.idempotency_key ≡ old.idempotency_key

abbrev pub AllSame : List JobRow → List JobRow → Type 0
AllSame [] [] = Unit {0}
AllSame [] (_ ∷ _) = ⊥
AllSame (_ ∷ _) [] = ⊥
AllSame (old ∷ rows) (new ∷ news) = IsSameJob old new × AllSame rows news

pub data Change (u : World) : World → Type 0 where
  creates : (d : JobCreateInput) → Change u (create d u).1
  transits :
      (id : String) (from to : JobStatus) (updates : JobUpdateInput)
      → Change u (transition id from to updates u).1
  -- Any statements that update rows, and anything at all outside the table.
  updates_rows : (v : World) → AllSame u.jobs v.jobs → Change u v

pub data Changes (u : World) : World → Type 0 where
  unchanged : Changes u u
  changed : {v v' : World} → Changes u v → Change v v' → Changes u v'

-- The table has a row under the key, and it is the one with the id.
pub record Keeps (t k id : String) (rows : List JobRow) : Type 0 where
  pub row : JobRow
  pub found : find_key t k rows ≡ some row
  pub row_id : row.id ≡ id

IsSameJob-refl : (row : JobRow) → IsSameJob row row
IsSameJob-refl row = record { same_id = refl; same_tenant = refl; same_key = refl }

AllSame-refl : (rows : List JobRow) → AllSame rows rows
AllSame-refl [] = tt
AllSame-refl (row ∷ rows) = (IsSameJob-refl row, AllSame-refl rows)

-- What follows a row that is under the key, and a row that is not.
Keeps-later :
    (t k id : String) (row : JobRow) (rows : List JobRow)
    → (row.tenant_id =ₛ t && key_is row.idempotency_key k) ≡ false
    → Keeps t k id rows
    → Keeps t k id (row ∷ rows)
unfolding find_key
Keeps-later t k id row rows free h = record {
  row = h.row;
  found = rw (free, if◌then◌else◌) h.found;
  row_id = h.row_id;
}

Keeps-same :
    (t k id : String) (rows news : List JobRow)
    → AllSame rows news
    → Keeps t k id rows
    → Keeps t k id news
unfolding find_key
Keeps-same t k id [] [] same h = h
Keeps-same t k id [] (new ∷ news) same h = absurd same
Keeps-same t k id (old ∷ rows) [] same h = absurd same
Keeps-same t k id (old ∷ rows) (new ∷ news) (same, rest) h =
    let test : JobRow → Bool = λ row. row.tenant_id =ₛ t && key_is row.idempotency_key k in
    let alike : test new ≡ test old = rw (same.same_tenant, same.same_key) refl in
    elim (Bool-cases (test old)) [
      | inl here ↦
          let it : some old ≡ some h.row = sym (rw (here, if◌then◌else◌) refl) ∙ h.found in
          let e : old ≡ h.row = cc in
          record {
            row = new;
            found = rw (alike ∙ here, if◌then◌else◌) refl;
            row_id = same.same_id ∙ (ap (λ row. row.id) e ∙ h.row_id);
          }
      | inr there ↦
          let later : find_key t k rows ≡ some h.row =
            sym (rw (there, if◌then◌else◌) refl) ∙ h.found in
          Keeps-later t k id new news (alike ∙ there) (
            Keeps-same t k id rows news rest
              (record { row = h.row; found = later; row_id = h.row_id }))
    ]

Keeps-push :
    (t k id : String) (rows : List JobRow) (new : JobRow)
    → Keeps t k id rows
    → Keeps t k id (rows ++ new ∷ [])
unfolding find_key
Keeps-push t k id [] new h = absurd (cc h.found)
Keeps-push t k id (old ∷ rows) new h =
    elim (Bool-cases (old.tenant_id =ₛ t && key_is old.idempotency_key k)) [
      | inl here ↦
          let it : some old ≡ some h.row = sym (rw (here, if◌then◌else◌) refl) ∙ h.found in
          record { row = h.row; found = rw (here, if◌then◌else◌) it; row_id = h.row_id }
      | inr there ↦
          let later : find_key t k rows ≡ some h.row =
            sym (rw (there, if◌then◌else◌) refl) ∙ h.found in
          Keeps-later t k id old (rows ++ new ∷ []) there
            (Keeps-push t k id rows new (record { row = h.row; found = later; row_id = h.row_id }))
    ]

-- A row is replaced by one that is the same job.
replace_row-same :
    (id : String) (old new : JobRow) (rows : List JobRow)
    → find_row id rows ≡ some old
    → IsSameJob old new
    → AllSame rows (replace_row id new rows)
unfolding find_row replace_row
replace_row-same id old new [] h same = tt
replace_row-same id old new (row ∷ rows) h same = elim (Bool-cases (row.id =ₛ id)) [
  | inl here ↦
      let it : some row ≡ some old = sym (rw (here, if◌then◌else◌) refl) ∙ h in
      let e : old ≡ row = cc in
      rw (here, if◌then◌else◌) (subst (λ x. IsSameJob x new) e same, AllSame-refl rows)
  | inr there ↦
      let later : find_row id rows ≡ some old = sym (rw (there, if◌then◌else◌) refl) ∙ h in
      rw (there, if◌then◌else◌) (IsSameJob-refl row, replace_row-same id old new rows later same)
]

Outcome-same :
    (id : String) (from to : JobStatus) (updates : JobUpdateInput) (u : World)
    (r : Result JobRow × World)
    → Outcome id from to updates u r
    → AllSame u.jobs r.1.jobs
unfolding row_at
Outcome-same id from to updates u r (moved old e h s) =
    replace_row-same id old (apply_updates to updates old) u.jobs h
      (record { same_id = refl; same_tenant = refl; same_key = refl })
Outcome-same id from to updates u r (no_edge m n) = AllSame-refl u.jobs
Outcome-same id from to updates u r (moved_on m x e h n) = AllSame-refl u.jobs
Outcome-same id from to updates u r (missing m e h) = AllSame-refl u.jobs

Keeps-insert :
    (t k id : String) (row : JobRow) (w : World)
    → Keeps t k id w.jobs
    → Keeps t k id (insert_row row w).1.jobs
unfolding insert_row
Keeps-insert t k id row w h = elim (Option-cases (row_at row.id w)) [
  | inl free ↦ rw (free, insert_unless) (Keeps-push t k id w.jobs row h)
  | inr (old, taken) ↦ rw (taken, insert_unless) h
]

Keeps-create_by_key :
    (t k id : String) (key : Option String) (row : JobRow) (w : World)
    → Keeps t k id w.jobs
    → Keeps t k id (create_by_key key row w).1.jobs
Keeps-create_by_key t k id none row w h = Keeps-insert t k id row w h
Keeps-create_by_key t k id (some key) row w h =
    elim (Option-cases (find_key row.tenant_id key w.jobs)) [
      | inl free ↦ rw (free, insert_or_found) (Keeps-insert t k id row w h)
      | inr (x, taken) ↦ rw (taken, insert_or_found) h
    ]

Keeps-with_values :
    (t k id : String) (d : JobCreateInput) (new_id : String) (w : World)
    → Keeps t k id w.jobs
    → Keeps t k id (with_values d new_id w).1.jobs
Keeps-with_values t k id d new_id w h =
    Keeps-create_by_key t k id (or_old d.idempotency_key none)
      (build_create_values d new_id w.clock) w h

pub fresh_or-jobs :
    (o : Option String) (w : World)
    → (id : String) × (u : World) × (fresh_or o w ≡ (ok id, u)) × (u.jobs ≡ w.jobs)
fresh_or-jobs none w = (_, _, refl, refl)
fresh_or-jobs (some id) w = (id, w, refl, refl)

Keeps-create :
    (t k id : String) (d : JobCreateInput) (w : World)
    → Keeps t k id w.jobs
    → Keeps t k id (create d w).1.jobs
unfolding create
Keeps-create t k id d w h =
    let (new_id, u, p, same) = fresh_or-jobs d.id w in
    rw (p, next) (Keeps-with_values t k id d new_id u (subst (Keeps t k id) (sym same) h))

Keeps-Change :
    {u v : World} (t k id : String) → Change u v → Keeps t k id u.jobs → Keeps t k id v.jobs
Keeps-Change {u} t k id (creates d) h = Keeps-create t k id d u h
Keeps-Change {u} t k id (transits i from to updates) h =
    Keeps-same t k id u.jobs (transition i from to updates u).1.jobs
      (Outcome-same i from to updates u _ (transition-Outcome i from to updates u)) h
Keeps-Change {u} t k id (updates_rows v same) h = Keeps-same t k id u.jobs v.jobs same h

pub Keeps-Changes :
    {u v : World} (t k id : String) → Changes u v → Keeps t k id u.jobs → Keeps t k id v.jobs
Keeps-Changes t k id unchanged h = h
Keeps-Changes t k id (changed before change) h =
    Keeps-Change t k id change (Keeps-Changes t k id before h)
