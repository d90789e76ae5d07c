-- ===== src/Job/Repository/Poll.antt =====
-- What the poll for pending jobs answers.
use cherry_wiki.Base.{
  ◌↔◌, ℕ, min, ap, ◌∙◌, max, String, ◌≡◌, true, false, Option, List, [], ◌∷◌, ◌++◌, arith, keep,
  take, drop, length, All, take-append-drop, length-take, All-append,
}
use mathlib.Core.List.{Perm}
use cherry_wiki.Base.Sorting.{IsSorted, sort_by-IsSorted, sort_by-perm, length-sort_by}
use cherry_wiki.Job.Data.{JobRow}
use cherry_wiki.Job.Exec.{World}
use cherry_wiki.Job.Repository.Due.{Before, Ordered, IsWaiting, all-Before, is_due_iff}
use cherry_wiki.Job.Repository.{is_due, runs_before, order_rows, find_pending_by_type}

-- Each row runs before all that follow it.
abbrev IsOrdered : List JobRow → Type 0
IsOrdered = IsSorted runs_before

runs_before_total : (a b : JobRow) → runs_before a b ≡ false → runs_before b a ≡ true
runs_before_total a b h = ground arith

runs_before_trans :
    (a b c : JobRow) → runs_before a b ≡ true → runs_before b c ≡ true → runs_before a c ≡ true
runs_before_trans a b c h k = ground arith

order_rows-IsOrdered : (rs : List JobRow) → IsOrdered (order_rows rs)
unfolding order_rows
order_rows-IsOrdered = sort_by-IsSorted runs_before runs_before_total runs_before_trans

length-order_rows : (rs : List JobRow) → length (order_rows rs) ≡ length rs
unfolding order_rows
length-order_rows = length-sort_by runs_before

order_rows-perm : (rs : List JobRow) → Perm (order_rows rs) rs
unfolding order_rows
order_rows-perm = sort_by-perm runs_before

IsOrdered-append :
    (xs ys : List JobRow)
    → IsOrdered (xs ++ ys)
    → IsOrdered xs × All (λ a. All (λ b. runs_before a b ≡ true) ys) xs
IsOrdered-append [] ys h = (tt, tt)
IsOrdered-append (x ∷ xs) ys (first, rest) =
    let (here, later) = All-append (λ s. runs_before x s ≡ true) xs ys first in
    let (ordered, before) = IsOrdered-append xs ys rest in ((here, ordered), (later, before))

IsOrdered-Ordered : (rows : List JobRow) → IsOrdered rows → Ordered rows
IsOrdered-Ordered [] h = tt
IsOrdered-Ordered (a ∷ rows) (first, rest) = (all-Before a rows first, IsOrdered-Ordered rows rest)

all_first-Before :
    (xs ys : List JobRow)
    → All (λ a. All (λ b. runs_before a b ≡ true) ys) xs
    → All (λ a. All (Before a) ys) xs
all_first-Before [] ys h = tt
all_first-Before (a ∷ xs) ys (e, h) = (all-Before a ys e, all_first-Before xs ys h)

-- What a poll answers: `polled` and the rows `left` in the table that also qualify.
pub record Polled (tenant : Option String) (type : String) (limit : ℕ) (w : World)
    (polled : List JobRow) : Type 0 where
  pub left : List JobRow
  pub size :
      length polled ≡ min (min 10 (max 1 limit)) (length (keep (is_due tenant type w.clock) w.jobs))
  pub qualified :
      (row : JobRow) → (is_due tenant type w.clock row ≡ true) ↔ IsWaiting tenant type w.clock row
  pub ordered : Ordered polled
  pub complete : Perm (polled ++ left) (keep (is_due tenant type w.clock) w.jobs)
  pub first : All (λ a. All (Before a) left) polled

-- A poll answers as many rows as there are pending jobs of the type whose next run is due, of the
-- tenant if one is named, but at most as many as the limit, which counts as 1 if it is 0 and as 10
-- if it is greater; they are in the order of the numbers of their priority, and the older first
-- among equal ones. Together with the rows that it leaves they are all those jobs, each once; and
-- every row that it answers comes before every row that it leaves in this order.
pub find_pending_by_type-Polled :
    (tenant : Option String) (type : String) (limit : ℕ) (w : World)
    → Polled tenant type limit w (find_pending_by_type tenant type limit w)
unfolding find_pending_by_type
find_pending_by_type-Polled tenant type limit w =
    let n = min 10 (max 1 limit) in
    let rows = order_rows (keep (is_due tenant type w.clock) w.jobs) in
    let split = take-append-drop n rows in
    let sorted =
      IsOrdered-append (take n rows) (drop n rows)
        (rw split (order_rows-IsOrdered (keep (is_due tenant type w.clock) w.jobs))) in
    record {
      left = drop n rows;
      size =
          length-take n rows
          ∙ ap (min n) (length-order_rows (keep (is_due tenant type w.clock) w.jobs));
      qualified = is_due_iff tenant type w.clock;
      ordered = IsOrdered-Ordered (take n rows) sorted.0;
      complete = rw split (order_rows-perm (keep (is_due tenant type w.clock) w.jobs));
      first = all_first-Before (take n rows) (drop n rows) sorted.1;
    }
