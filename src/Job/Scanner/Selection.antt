-- ===== src/Job/Scanner/Selection.antt =====
-- The rows that a scan selects, in a table with one row for each id.
use cherry_wiki.Base.{
  String, ◌≡◌, refl, ap, subst, ◌∙◌, inl, inr, Bool, Option, none, some, List, [], ◌∷◌, ◌=ₛ◌, arith,
  eq_iff, eq_refl, Bool-cases, if◌then◌else◌, keep, All,
}
use cherry_wiki.Job.Data.{JobRow}
use cherry_wiki.Job.Store.{find_row}

-- No id occurs twice: the primary key of the table.
abbrev pub DistinctIds : List JobRow → Type 0
DistinctIds [] = Unit
DistinctIds (row ∷ rows) = (find_row row.id rows ≡ none) × DistinctIds rows

abbrev pub filtered : (JobRow → Bool) → Option JobRow → Option JobRow
filtered p none = none
filtered p (some row) = if p row then some row else none

-- The rows that the scan selects, in a table with one row for each id.
pub find_row-keep :
    (p : JobRow → Bool) (id : String) (rows : List JobRow)
    → DistinctIds rows
    → find_row id (keep p rows) ≡ filtered p (find_row id rows)
unfolding find_row
find_row-keep p id [] d = refl
find_row-keep p id (row ∷ rows) (fresh, d) = elim (Bool-cases (row.id =ₛ id)) [
  | inl t ↦
      let gone : find_row id rows ≡ none =
        subst (λ j. find_row j rows ≡ none) ((eq_iff row.id id).0 t) fresh in
      ground (arith, find_row-keep p id rows d)
  | inr f ↦ ground (arith, find_row-keep p id rows d)
]

pub DistinctIds-keep :
    (p : JobRow → Bool) (rows : List JobRow) → DistinctIds rows → DistinctIds (keep p rows)
DistinctIds-keep p [] d = tt
DistinctIds-keep p (row ∷ rows) (fresh, d) = elim (Bool-cases (p row)) [
  | inl t ↦ rw t (find_row-keep p row.id rows d ∙ ap (filtered p) fresh, DistinctIds-keep p rows d)
  | inr f ↦ rw f (DistinctIds-keep p rows d)
]

abbrev pub FoundIn : List JobRow → List JobRow → Type 0
FoundIn table = All (λ row. find_row row.id table ≡ some row)

FoundIn-cons :
    (x : JobRow) (table rows : List JobRow)
    → find_row x.id table ≡ none
    → FoundIn table rows
    → FoundIn (x ∷ table) rows
unfolding find_row
FoundIn-cons x table [] n h = tt
FoundIn-cons x table (row ∷ rows) n (here, rest) =
    (ground (arith, eq_iff x.id row.id), FoundIn-cons x table rows n rest)

pub FoundIn-self : (rows : List JobRow) → DistinctIds rows → FoundIn rows rows
unfolding find_row
FoundIn-self [] d = tt
FoundIn-self (row ∷ rows) (fresh, d) =
    (rw (eq_refl row.id), FoundIn-cons row rows rows fresh (FoundIn-self rows d))
