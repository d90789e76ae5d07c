-- ===== src/Wiki/Lifecycle.antt =====
-- The life of a page: what its methods allow, in any order of calls.
use cherry_wiki.Base.{ℕ, String, ◌≡◌, refl, sym, inl, inr, ◌=ₛ◌, eq_iff, Bool-cases, arith, ◌↔◌}
use cherry_wiki.Wiki.{
  status, publish, unpublish, archive, can_publish, can_unpublish, can_archive, rollback,
}

-- The methods; a rollback is given a version's content and the greatest version number.
pub data Method : Type 0 where
  publishes unpublishes archives : Method
  rolls_back : String → ℕ → Method

-- A page that is published, taken back or archived, or that gets an older content again.
pub data Step : Method → String → String → Type 0 where
  published : Step publishes "draft" "published"
  taken_back : Step unpublishes "published" "draft"
  archived : Step archives "published" "archived"
  rolled_back : (content : String) (n : ℕ) (s : String) → Step (rolls_back content n) s "published"

-- The method answers the status `t` for a page of the status `s`; a rollback does not look at it.
abbrev pub Answers : Method → String → String → Type 0
Answers publishes s t = publish s ≡ status t
Answers unpublishes s t = unpublish s ≡ status t
Answers archives s t = archive s ≡ status t
Answers (rolls_back content n) s t = (rollback content n).status ≡ t

along : (m : Method) (s t a b : String) → s ≡ a → t ≡ b → Step m a b → Step m s t
along m s t a b e f x = rw (e, f) x

publish_step : (s t : String) → publish s ≡ status t → (s ≡ "draft") × (t ≡ "published")
unfolding publish can_publish
publish_step s t h = elim (Bool-cases (s =ₛ "draft")) [
  | inl d ↦ ((eq_iff s "draft").0 d, ground arith)
  | inr d ↦ elim (Bool-cases (s =ₛ "published")) [
    | inl p ↦ absurd (ground arith)
    | inr p ↦ absurd (ground arith)
  ]
]

unpublish_step : (s t : String) → unpublish s ≡ status t → (s ≡ "published") × (t ≡ "draft")
unfolding unpublish can_unpublish
unpublish_step s t h = elim (Bool-cases (s =ₛ "published")) [
  | inl d ↦ ((eq_iff s "published").0 d, ground arith)
  | inr d ↦ elim (Bool-cases (s =ₛ "draft")) [
    | inl p ↦ absurd (ground arith)
    | inr p ↦ absurd (ground arith)
  ]
]

archive_step : (s t : String) → archive s ≡ status t → (s ≡ "published") × (t ≡ "archived")
unfolding archive can_archive
archive_step s t h = elim (Bool-cases (s =ₛ "published")) [
  | inl d ↦ ((eq_iff s "published").0 d, ground arith)
  | inr d ↦ absurd (ground arith)
]

Answers-Step : (m : Method) (s t : String) → Answers m s t → Step m s t
unfolding rollback
Answers-Step publishes s t h =
    let (e, f) = publish_step s t h in along publishes s t "draft" "published" e f published
Answers-Step unpublishes s t h =
    let (e, f) = unpublish_step s t h in along unpublishes s t "published" "draft" e f taken_back
Answers-Step archives s t h =
    let (e, f) = archive_step s t h in along archives s t "published" "archived" e f archived
Answers-Step (rolls_back content n) s t h =
    along (rolls_back content n) s t s "published" refl (sym h) (rolled_back content n s)

Step-Answers : (m : Method) (s t : String) → Step m s t → Answers m s t
unfolding publish unpublish archive can_publish can_unpublish can_archive rollback
Step-Answers m s t published = refl
Step-Answers m s t taken_back = refl
Step-Answers m s t archived = refl
Step-Answers m s t (rolled_back content n x) = refl

-- Each method answers a status exactly for its moves of a page's life: publishing takes a draft to published, unpublishing a published page to draft and archiving a published page to archived, and a rollback takes a page of any status, an archived one too, to published.
pub Answers-iff : (m : Method) (s t : String) → Answers m s t ↔ Step m s t
Answers-iff m s t = (Answers-Step m s t, Step-Answers m s t)
