-- ===== src/Agent/Mutex/Invariant.antt =====
-- How the tickets of a key follow one another.
use cherry_wiki.Base.{ℕ, ◌≤◌, ◌<◌, String, true, false, some, ◌≡◌, refl, arith}
use cherry_wiki.Agent.Mutex.{SessionMutex, nobody, fresh}

-- An earlier ticket of the key of `j` that is not released.
pub record Ahead (m : SessionMutex) (i j : ℕ) : Type 0 where
  pub earlier : i < j
  pub known : j < m.count
  pub same_key : (m.tickets i).key ≡ (m.tickets j).key
  pub unreleased : (m.tickets i).released ≡ false

-- A ticket that `i` may wait for.
pub record Link (m : SessionMutex) (key : String) (i b : ℕ) : Type 0 where
  pub from : i ≤ b
  pub made : b < m.count
  pub same_key : (m.tickets b).key ≡ key

pub record Inv (m : SessionMutex) : Type 0 where
  -- No ticket is let in before an earlier one of its key is released.
  pub ordered : (i j : ℕ) → Ahead m i j → (m.tickets j).entered ≡ false
  -- A ticket waits for another of its key, at least as late as any that is not released.
  pub chained :
      (i j : ℕ) → Ahead m i j → (b : ℕ) × ((m.tickets j).before ≡ some b) × (i ≤ b) × (b < j)
  -- The map has a ticket of the key that is at least as late.
  pub latest :
      (i : ℕ)
      → i < m.count
      → (m.tickets i).released ≡ false
      → (l : ℕ) × (m.locks (m.tickets i).key ≡ some l) × (i ≤ l)
  -- The map names unreleased tickets of its keys, and a ticket an earlier one of its key.
  pub locked :
      (k : String) (l : ℕ)
      → m.locks k ≡ some l
      → (l < m.count) × ((m.tickets l).key ≡ k) × ((m.tickets l).released ≡ false)
  pub waited :
      (j b : ℕ)
      → j < m.count
      → (m.tickets j).before ≡ some b
      → (b < j) × ((m.tickets b).key ≡ (m.tickets j).key)
  pub let_in : (i : ℕ) → (m.tickets i).released ≡ true → (m.tickets i).entered ≡ true
  pub unmade : (i : ℕ) → m.count ≤ i → m.tickets i ≡ nobody

pub fresh-Inv : Inv fresh
fresh-Inv = record {
  ordered = λ i j a. refl;
  chained = λ i j a. absurd (omega (arith, a.known));
  latest = λ i lt u. absurd (omega arith);
  locked = λ k l e. absurd (cc);
  waited = λ j b lt e. absurd (omega arith);
  let_in = λ i e. absurd (cc);
  unmade = λ i le. refl;
}
