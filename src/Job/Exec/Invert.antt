-- ===== src/Job/Exec/Invert.antt =====
-- Inversion: what a chain of calls that ended well went through.
use cherry_wiki.Base.{◌≡◌, ◌≢◌, refl}
use cherry_wiki.Job.Data.{Thrown}
use cherry_wiki.Job.Exec.{World, Result, M, ok, err, next, caught}

pub next-eq-ok {ℓ κ} :
    {A : Type ℓ} {B : Type κ} (r : Result A × World) (f : A → M B) (b : B) (w' : World)
    → next r f ≡ (ok b, w')
    → (a : A) × (u : World) × (r ≡ (ok a, u)) × (f a u ≡ (ok b, w'))
next-eq-ok (ok a, u) f b w' h = (a, u, refl, h)
next-eq-ok (err e, u) f b w' h = cc

-- A handler that always throws again.
pub caught-eq-ok {ℓ} :
    {A : Type ℓ} (r : Result A × World) (h : Thrown → M A) (a : A) (w' : World)
    → ((e : Thrown) (u : World) → h e u ≢ (ok a, w'))
    → caught r h ≡ (ok a, w')
    → r ≡ (ok a, w')
caught-eq-ok (ok a', u) h a w' rethrows p = p
caught-eq-ok (err e, u) h a w' rethrows p = absurd (rethrows e u p)
