-- ===== src/Job/Repository/Due.antt =====
-- What the conditions and the order of the poll for pending jobs say of rows.
use cherry_wiki.Base.{
  ℕ, ◌≤◌, ◌<◌, String, ◌≡◌, ◌↔◌, ◌⊎◌, inl, inr, refl, ap, ◌∙◌, true, false, Option, none, some,
  List, [], ◌∷◌, All, arith, eq_iff, ltb, Bool-cases, if◌then◌else◌,
}
use cherry_wiki.Base.Text.{trim, is_blank}
use cherry_wiki.Job.Data.{JobRow, pending}
use cherry_wiki.Job.Machine.Table.{status_eq_iff}
use cherry_wiki.Job.Repository.{for_tenant, due, is_due, runs_before}

-- A smaller number comes first, and of equal ones the older job.
abbrev pub Before : JobRow → JobRow → Type 0
Before a b = (a.priority < b.priority) ⊎ ((a.priority ≡ b.priority) × (a.created_at ≤ b.created_at))

-- Each row before all that follow it.
abbrev pub Ordered : List JobRow → Type 0
Ordered [] = Unit
Ordered (a ∷ rows) = All (Before a) rows × Ordered rows

-- A pending job of the type and of the tenant, if one is named, that need not wait any longer.
pub record IsWaiting (tenant : Option String) (type : String) (now : ℕ) (row : JobRow)
    : Type 0 where
  pub of_tenant : (t : String) → tenant ≡ some t → is_blank t ≡ false → row.tenant_id ≡ trim t
  pub of_type : row.type ≡ type
  pub status_is : row.status ≡ pending
  pub in_time : (run_at : ℕ) → row.next_run_at ≡ some run_at → run_at ≤ now

runs_before-Before : (a b : JobRow) → runs_before a b ≡ true → Before a b
runs_before-Before a b h = elim (Bool-cases (ltb a.priority b.priority)) [
  | inl less ↦ inl (ground arith)
  | inr not_less ↦ inr (ground arith, ground arith)
]

pub all-Before :
    (a : JobRow) (rows : List JobRow) → All (λ b. runs_before a b ≡ true) rows → All (Before a) rows
all-Before a [] h = tt
all-Before a (b ∷ rows) (e, h) = (runs_before-Before a b e, all-Before a rows h)

for_tenant_iff :
    (tenant : Option String) (row : JobRow)
    → (for_tenant tenant row ≡ true)
      ↔ ((t : String) → tenant ≡ some t → is_blank t ≡ false → row.tenant_id ≡ trim t)
for_tenant_iff none row = (λ h t e some_text. absurd (cc e), λ h. refl)
for_tenant_iff (some s) row = elim (Bool-cases (is_blank s)) [
  | inl blank ↦
      (λ h t e some_text. absurd (cc (blank, some_text, e)), λ h. rw (blank, if◌then◌else◌) refl)
  | inr text ↦ (
    λ h t e some_text.
        let same : s ≡ t = cc e in
        (eq_iff row.tenant_id (trim s)).0 (rw (text, if◌then◌else◌) at h) ∙ ap trim same,
    λ h. rw (text, if◌then◌else◌) ((eq_iff row.tenant_id (trim s)).1 (h s refl text)),
  )
]

due_iff :
    (o : Option ℕ) (now : ℕ) → (due o now ≡ true) ↔ ((run_at : ℕ) → o ≡ some run_at → run_at ≤ now)
due_iff none now = (λ h n e. absurd (cc e), λ h. refl)
due_iff (some n) now = (λ h m e. ground (arith, e), λ h. ground (arith, h n refl))

-- The conditions of the query.
pub is_due_iff :
    (tenant : Option String) (type : String) (now : ℕ) (row : JobRow)
    → (is_due tenant type now row ≡ true) ↔ IsWaiting tenant type now row
is_due_iff tenant type now row = (
  λ h. record {
    of_tenant = (for_tenant_iff tenant row).0 (ground arith);
    of_type = (eq_iff row.type type).0 (ground arith);
    status_is = (status_eq_iff row.status pending).0 (ground arith);
    in_time = (due_iff row.next_run_at now).0 (ground arith);
  },
  λ h.
      let a = (for_tenant_iff tenant row).1 h.of_tenant in
      let b = (eq_iff row.type type).1 h.of_type in
      let c = (status_eq_iff row.status pending).1 h.status_is in
      let d = (due_iff row.next_run_at now).1 h.in_time in rw (a, b, c, d) refl,
)
