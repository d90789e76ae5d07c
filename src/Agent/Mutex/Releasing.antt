-- ===== src/Agent/Mutex/Releasing.antt =====
-- A release keeps the invariant.
use cherry_wiki.Base.{
  ℕ, ◌≤◌, ◌<◌, String, true, false, none, some, ◌=ₛ◌, ◌==◌, ◌≡◌, ◌≢◌, sym, ap, arith, eq_iff,
  if◌then◌else◌, inl, inr, Bool-cases,
}
use cherry_wiki.Agent.Mutex.{SessionMutex, set_lock, set_ticket, release, is_own}
use cherry_wiki.Agent.Mutex.Invariant.{Ahead, Inv}

module _ (m : SessionMutex) (v : Inv m) (n : ℕ) where
  abbrev freed : SessionMutex
  freed = record m {
    tickets = set_ticket n (record (m.tickets n) { released = true }) m.tickets;
    locks =
        if is_own (m.locks (m.tickets n).key) n
        then set_lock (m.tickets n).key none m.locks
        else m.locks;
  }

  freed-Ahead : (i j : ℕ) → Ahead freed i j → Ahead m i j
  freed-Ahead i j a = record {
    earlier = a.earlier;
    known = a.known;
    same_key = ground (arith, a.same_key);
    unreleased = ground (arith, a.unreleased);
  }

  freed-latest :
      (m.tickets n).entered ≡ true
      → (i : ℕ) → i < m.count
      → (freed.tickets i).released ≡ false
      → (l : ℕ) × (freed.locks (freed.tickets i).key ≡ some l) × (i ≤ l)
  freed-latest inside i lt u =
      let (l, e, le) = v.latest i lt (ground arith) in
      elim (Bool-cases (is_own (m.locks (m.tickets n).key) n)) [
        | inr kept ↦ (l, ground arith, le)
        | inl own ↦ elim (Bool-cases ((m.tickets n).key =ₛ (m.tickets i).key)) [
          | inr other ↦ (l, ground arith, le)
          | inl same ↦
              let same' : (m.tickets n).key ≡ (m.tickets i).key = (eq_iff _ _).0 same in
              let last : l ≡ n = ground (arith, ap m.locks same') in
              let apart : i ≢ n = λ at. ground (arith, at) in
              let shut : (m.tickets n).entered ≡ false = v.ordered i n (record {
                earlier = omega arith;
                known = (v.locked (m.tickets i).key n (rw last at e)).0;
                same_key = sym same';
                unreleased = ground arith;
              }) in
              absurd (cc)
        ]
      ]

  freed-locked :
      (k : String) (l : ℕ)
      → freed.locks k ≡ some l
      → (l < m.count) × ((freed.tickets l).key ≡ k) × ((freed.tickets l).released ≡ false)
  freed-locked k l e = elim (Bool-cases (n == l)) [
    | inr other ↦ ground (arith, v.locked k l)
    | inl own ↦
        let at : n ≡ l = ground arith in ground (arith, v.locked k l, eq_iff (m.tickets n).key k)
  ]

  pub release-Inv : (m.tickets n).entered ≡ true → Inv (release n m)
  unfolding release
  release-Inv inside = elim (Bool-cases (m.tickets n).released) [
    | inl gone ↦ rw (gone, if◌then◌else◌) v
    | inr there ↦
        rw (there, if◌then◌else◌)
          (record {
            ordered = λ i j a. ground (arith, v.ordered i j (freed-Ahead i j a));
            chained = λ i j a.
                let (b, e, le, lt) = v.chained i j (freed-Ahead i j a) in (b, ground arith, le, lt);
            latest = freed-latest inside;
            locked = freed-locked;
            waited = λ j b lt e. ground (arith, v.waited j b);
            let_in = λ i e. ground (arith, v.let_in i);
            unmade = λ i le. ground (arith, v.unmade i);
          })
  ]
