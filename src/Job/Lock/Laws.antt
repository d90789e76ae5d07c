-- ===== src/Job/Lock/Laws.antt =====
-- What a worker may conclude from the answers of the lock.
use cherry_wiki.Base.{
  ℕ, ◌+◌, ◌<◌, ◌≤◌, ◌≡◌, ◌≢◌, ◌↔◌, ◌⊎◌, inl, inr, String, true, false, Option, none, some, ◌=ₛ◌,
  arith, eq_iff, eq_refl, Bool-cases,
}
use text.Mathlib.TextLemmas.{append_cancel_left}
use cherry_wiki.Job.Exec.{World, Lease}
use cherry_wiki.Job.Lock.{key, redis_get, holder_is, acquire, renew, release}

pub key-injective : (i j : String) → key i ≡ key j → i ≡ j
unfolding key
key-injective i j h = append_cancel_left "job:lock:" i j h

-- Who holds the lock of a job now.
unfoldable pub holder : String → World → Option String
unfolding redis_get
holder job_id w = redis_get (key job_id) w

key-ne : (i j : String) → (i =ₛ j) ≡ false → (key i =ₛ key j) ≡ false
key-ne i j h = ground (arith, eq_iff i j, eq_iff (key i) (key j), key-injective i j)

holder_is_iff :
    (o : Option String) (worker : String) → (holder_is o worker ≡ true) ↔ (o ≡ some worker)
holder_is_iff none worker = ground arith
holder_is_iff (some x) worker = ground (arith, eq_iff x worker)

module _ (id worker : String) (w : World) where
  -- The lock is granted exactly when nobody holds it; the new holder then holds it.
  pub acquire-holder :
      (ttl : ℕ)
      → 0 < ttl
      → ((acquire id worker ttl w).0 ≡ true
          → (holder id w ≡ none) × (holder id (acquire id worker ttl w).1 ≡ some worker))
        × ((acquire id worker ttl w).0 ≡ false
            → (holder id w ≢ none) × ((acquire id worker ttl w).1 ≡ w))
  unfolding acquire holder
  acquire-holder ttl pos = ground (arith, eq_refl (key id))

  pub acquire_other :
      (ttl : ℕ) (j : String) → (id =ₛ j) ≡ false → holder j (acquire id worker ttl w).1 ≡ holder j w
  unfolding acquire holder
  acquire_other ttl j d = ground (arith, key-ne id j d)

  -- A lock is released, and renewed, exactly when its worker is the one that holds it.
  pub release-holder :
      ((release id worker w).0 ≡ true
        → (holder id w ≡ some worker) × (holder id (release id worker w).1 ≡ none))
      × ((release id worker w).0 ≡ false
          → (holder id w ≢ some worker) × ((release id worker w).1 ≡ w))
  unfolding release holder
  release-holder = ground (arith, eq_refl (key id), holder_is_iff (redis_get (key id) w) worker)

  pub renew-holder :
      (ttl : ℕ)
      → 0 < ttl
      → ((renew id worker ttl w).0 ≡ true
          → (holder id w ≡ some worker) × (holder id (renew id worker ttl w).1 ≡ some worker))
        × ((renew id worker ttl w).0 ≡ false
            → (holder id w ≢ some worker) × ((renew id worker ttl w).1 ≡ w))
  unfolding renew holder
  renew-holder ttl pos =
      ground (arith, eq_refl (key id), holder_is_iff (redis_get (key id) w) worker)

-- What the workers other than `me` do with the locks of any jobs, while time passes.
pub data Others (me : String) : World → World → Type 0 where
  acquires :
      (job other : String) (ttl : ℕ) (w : World)
      → other ≢ me
      → Others me w (acquire job other ttl w).1
  renews :
      (job other : String) (ttl : ℕ) (w : World)
      → other ≢ me
      → Others me w (renew job other ttl w).1
  releases : (job other : String) (w : World) → other ≢ me → Others me w (release job other w).1
  waits : (n : ℕ) (w : World) → Others me w (record w { clock = w.clock + n })

pub data Interleaving (me : String) : World → World → Type 0 where
  stop : {w : World} → Interleaving me w w
  then : {w w' w'' : World} → Others me w w' → Interleaving me w' w'' → Interleaving me w w''

Others-clock : {me : String} {w w' : World} → Others me w w' → w.clock ≤ w'.clock
unfolding acquire renew release
Others-clock (acquires j other ttl w d) = ground arith
Others-clock (renews j other ttl w d) = ground arith
Others-clock (releases j other w d) = ground arith
Others-clock (waits n w) = ground arith

Interleaving-clock : {me : String} {w w' : World} → Interleaving me w w' → w.clock ≤ w'.clock
Interleaving-clock stop = omega arith
Interleaving-clock (then s r) = omega (arith, Others-clock s, Interleaving-clock r)

module _ (id : String) (l : Lease) where
  abbrev Undisturbed : World → World → Type 0
  Undisturbed w w' =
      (w.clock ≤ w'.clock) × ((w'.leases (key id) ≡ some l) ⊎ (l.expires_at ≤ w'.clock))

  Others-Undisturbed :
      {w w' : World} → Others l.holder w w' → w.leases (key id) ≡ some l → Undisturbed w w'
  unfolding acquire renew release
  Others-Undisturbed (acquires j other ttl w d) h = ground (arith, eq_iff (key j) (key id))
  Others-Undisturbed (renews j other ttl w d) h =
      ground (arith, eq_iff (key j) (key id), holder_is_iff (redis_get (key j) w) other)
  Others-Undisturbed (releases j other w d) h =
      ground (arith, eq_iff (key j) (key id), holder_is_iff (redis_get (key j) w) other)
  Others-Undisturbed (waits n w) h = ground arith

  -- While the lease of a lock has not expired, no interleaving of the other workers' operations
  -- changes it: the holder still holds the lock.
  lease_at_end :
      {w w' : World}
      → Interleaving l.holder w w'
      → w.leases (key id) ≡ some l
      → w'.clock < l.expires_at
      → w'.leases (key id) ≡ some l
  lease_at_end stop h t = h
  lease_at_end (then s r) h t = elim (Others-Undisturbed s h).1 [
    | inl same ↦ lease_at_end r same t
    | inr late ↦ absurd (omega (arith, Interleaving-clock r))
  ]

-- A lock whose lease has not run out is still held by its worker after any interleaving of the
-- other workers' acquisitions, renewals and releases of any jobs' locks with the passing of time.
pub lock_exclusive :
    (id : String) (l : Lease) (w w' : World)
    → w.leases (key id) ≡ some l
    → Interleaving l.holder w w'
    → w'.clock < l.expires_at
    → holder id w' ≡ some l.holder
unfolding holder
lock_exclusive id l w w' h r t = rw (lease_at_end id l r h t) (ground arith)

pub jobs-release : (id worker : String) (w : World) → (release id worker w).1.jobs ≡ w.jobs
unfolding release
jobs-release id worker w = ground arith

pub jobs-renew :
    (id worker : String) (ttl : ℕ) (w : World) → (renew id worker ttl w).1.jobs ≡ w.jobs
unfolding renew
jobs-renew id worker ttl w = ground arith

pub jobs-acquire :
    (id worker : String) (ttl : ℕ) (w : World) → (acquire id worker ttl w).1.jobs ≡ w.jobs
unfolding acquire
jobs-acquire id worker ttl w = ground arith

-- After a release the worker does not hold the lock, whoever did before.
pub release_not_held :
    (id worker : String) (w : World) → holder id (release id worker w).1 ≢ some worker
release_not_held id worker w = elim (Bool-cases (release id worker w).0) [
  | inl t ↦ λ e. cc (((release-holder id worker w).0 t).1)
  | inr f ↦
      λ e. ((release-holder id worker w).1 f).0 (rw (← ((release-holder id worker w).1 f).1) e)
]

pub clock-renew :
    (id worker : String) (ttl : ℕ) (w : World) → (renew id worker ttl w).1.clock ≡ w.clock
unfolding renew
clock-renew id worker ttl w = ground arith

pub clock-release : (id worker : String) (w : World) → (release id worker w).1.clock ≡ w.clock
unfolding release
clock-release id worker w = ground arith
