-- ===== src/Job/Repository/Create.antt =====
-- The creation of jobs: one row for an id and one for a tenant's idempotency key.
use cherry_wiki.Base.{
  String, ◌≡◌, refl, sym, ap, subst, subst⁻¹, ◌∙◌, inl, inr, Option, none, some, List, [], ◌∷◌,
  ◌++◌, arith, eq_refl, Option-cases,
}
use cherry_wiki.Job.Data.{JobRow, or_old}
use cherry_wiki.Job.Exec.{World, ok, next}
use cherry_wiki.Job.Exec.Invert.{next-eq-ok}
use cherry_wiki.Job.Store.{row_at}
use cherry_wiki.Job.Repository.Changes.{Changes, Keeps-Changes, fresh_or-jobs}
use cherry_wiki.Job.Repository.{
  JobCreateInput, build_create_values, fresh_or, find_key, push_row, insert_row, create_by_key,
  insert_or_found, with_values, create,
}

abbrev pub key_of : JobCreateInput → Option String
key_of d = or_old d.idempotency_key none

find_key-push :
    (t k : String) (rows : List JobRow) (r : JobRow)
    → find_key t k rows ≡ none
    → r.tenant_id ≡ t
    → r.idempotency_key ≡ some k
    → find_key t k (rows ++ r ∷ []) ≡ some r
unfolding find_key
find_key-push t k [] r n p q = rw (p, q) (rw (eq_refl t, eq_refl k))
find_key-push t k (x ∷ rows) r n p q = ground (arith, find_key-push t k rows r)

-- What a creation under a key leaves in the table.
insert_row-found :
    (row : JobRow) (k : String) (w w' : World) (r : JobRow)
    → find_key row.tenant_id k w.jobs ≡ none
    → row.idempotency_key ≡ some k
    → insert_row row w ≡ (ok r, w')
    → (r ≡ row) × (find_key row.tenant_id k w'.jobs ≡ some r)
unfolding insert_row
insert_row-found row k w w' r n q h = elim (Option-cases (row_at row.id w)) [
  | inl free ↦
      let e : (ok r ≡ ok row) × (w' ≡ push_row row w) = (ground arith, ground arith) in
      (cc e.0, rw e.1 (find_key-push row.tenant_id k w.jobs row n refl q ∙ ap some (cc e.0)))
  | inr (o, taken) ↦ ground arith
]

create_by_key-found :
    (row : JobRow) (k : String) (w w' : World) (r : JobRow)
    → row.idempotency_key ≡ some k
    → create_by_key (some k) row w ≡ (ok r, w')
    → find_key row.tenant_id k w'.jobs ≡ some r
create_by_key-found row k w w' r q h = elim (Option-cases (find_key row.tenant_id k w.jobs)) [
  | inl free ↦
      let (same, there) = insert_row-found row k w w' r free q (rw (free, insert_or_found) at h) in
      there
  | inr (x, taken) ↦
      let p : (ok x, w) ≡ (ok r, w') = rw (taken, insert_or_found) at h in
      let e : (x ≡ r) × (w ≡ w') = ground arith in rw (← e.1) (taken ∙ ap some e.0)
]

with_values-found :
    (d : JobCreateInput) (id k : String) (w w' : World) (r : JobRow)
    → key_of d ≡ some k
    → with_values d id w ≡ (ok r, w')
    → find_key d.tenant_id k w'.jobs ≡ some r
unfolding build_create_values
with_values-found d id k w w' r q h =
    create_by_key-found (build_create_values d id w.clock) k w w' r q
      (subst (λ o. create_by_key o (build_create_values d id w.clock) w ≡ (ok r, w')) q h)

with_values-again :
    (d : JobCreateInput) (id k : String) (w : World) (r : JobRow)
    → key_of d ≡ some k
    → find_key d.tenant_id k w.jobs ≡ some r
    → with_values d id w ≡ (ok r, w)
unfolding build_create_values
with_values-again d id k w r q h =
    subst⁻¹ (λ o. create_by_key o (build_create_values d id w.clock) w ≡ (ok r, w)) q
      (rw (h, insert_or_found))

-- Creation under an idempotency key happens once: when a creation has answered a row, then whatever
-- creations, transitions and other updates of rows that keep their id, tenant and key follow, a
-- creation for the same tenant and key answers a row with the same id and adds nothing to the table,
-- whatever its other fields say; and it answers that very row if the table has not changed since.
pub create_idempotent :
    (d d' : JobCreateInput) (k : String) (w w' v : World) (r : JobRow)
    → key_of d ≡ some k
    → key_of d' ≡ some k
    → d'.tenant_id ≡ d.tenant_id
    → create d w ≡ (ok r, w')
    → Changes w' v
    → (row : JobRow) × ((create d' v).0 ≡ ok row)
      × (row.id ≡ r.id)
      × (v.jobs ≡ w'.jobs → row ≡ r)
      × ((create d' v).1.jobs ≡ v.jobs)
unfolding create
create_idempotent d d' k w w' v r q q' t h changes =
    let (id, u, p, h1) = next-eq-ok (fresh_or d.id w) _ r w' h in
    let found = with_values-found d id k u w' r q h1 in
    let kept =
      Keeps-Changes d.tenant_id k r.id changes (record { row = r; found = found; row_id = refl }) in
    let (id', u', p', same) = fresh_or-jobs d'.id v in
    let again = with_values-again d' id' k u' kept.row q' (rw (t, same) kept.found) in
    (
      kept.row,
      rw (p', next) (rw again refl),
      kept.row_id,
      λ unchanged_table.
          let it : some kept.row ≡ some r =
            sym kept.found ∙ (ap (find_key d.tenant_id k) unchanged_table ∙ found) in
          cc it,
      rw (p', next) (rw again same),
    )
