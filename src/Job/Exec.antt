-- ===== src/Job/Exec.antt =====
-- What a job operation acts on, and the way its calls are chained: `await` and `throw`, `try`,
-- `finally`. Postgres, Redis, the clock and the UUIDs are fields of one world.
pub mod Invert
use cherry_wiki.Base.{
  ℕ, suc, ◌+◌, ◌≡◌, refl, ◌⊎◌, inl, inr, String, Bool, true, false, Option, none, some, List, arith,
  if◌then◌else◌,
}
use cherry_wiki.Job.Data.{JobRow, JobEventRow, Thrown}

-- A Redis string with its time to live.
pub record Lease : Type 0 where
  pub holder : String
  pub expires_at : ℕ

-- `jobs` has at most one row of an id that a query sees, the first. `events` is in the order of
-- insertion. `clock` is read by `new Date()`, by `now()` in SQL and by Redis, in milliseconds.
-- `uuid` is the sequence that `randomUUID` draws from, and `drawn` how many are gone.
pub record World : Type 0 where
  pub jobs : List JobRow
  pub events : List JobEventRow
  pub leases : String → Option Lease
  pub clock : ℕ
  pub uuid : ℕ → String
  pub drawn : ℕ

pub data Result {ℓ} (A : Type ℓ) : Type ℓ where
  ok : A → Result A
  err : Thrown → Result A

abbrev pub M {ℓ} : Type ℓ → Type ℓ
M A = World → Result A × World

abbrev pub pure {ℓ} : {A : Type ℓ} → A → M A
pure a w = (ok a, w)

abbrev pub throw {ℓ} : {A : Type ℓ} → Thrown → M A
throw e w = (err e, w)

abbrev pub next {ℓ κ} : {A : Type ℓ} {B : Type κ} → Result A × World → (A → M B) → Result B × World
next (ok a, w) f = f a w
next (err e, w) f = (err e, w)

infixl 5 ◌>>=◌ ◌>>◌
abbrev pub ◌>>=◌ {ℓ κ} : {A : Type ℓ} {B : Type κ} → M A → (A → M B) → M B
◌>>=◌ m f w = next (m w) f

abbrev pub ◌>>◌ {ℓ} : {B : Type ℓ} → M (Unit {0}) → M B → M B
m >> k = m >>= λ _. k

-- `catch (error)` with a handler that may itself throw.
abbrev pub caught {ℓ} : {A : Type ℓ} → Result A × World → (Thrown → M A) → Result A × World
caught (ok a, w) h = (ok a, w)
caught (err e, w) h = h e w

abbrev pub try {ℓ} : {A : Type ℓ} → M A → (Thrown → M A) → M A
try m h w = caught (m w) h

-- `finally { cleanup }`, with a cleanup that does not throw.
abbrev pub after {ℓ} : {A : Type ℓ} → Result A × World → (World → World) → Result A × World
after (r, w) cleanup = (r, cleanup w)

abbrev pub finally {ℓ} : {A : Type ℓ} → M A → (World → World) → M A
finally m cleanup w = after (m w) cleanup

abbrev pub read_clock : M ℕ
read_clock w = (ok w.clock, w)

-- `randomUUID()`.
abbrev pub random_uuid : M String
random_uuid w = (ok (w.uuid w.drawn), record w { drawn = suc w.drawn })
