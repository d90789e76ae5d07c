-- ===== src/Agent/Mutex/Joining.antt =====
-- A new ticket keeps the invariant.
use cherry_wiki.Base.{
  ℕ, ◌≤◌, ◌<◌, String, true, false, none, some, ◌=ₛ◌, ◌==◌, ◌≡◌, refl, sym, arith, eq_iff, eq_refl,
  ◌⊎◌, inl, inr, Bool-cases, Option-cases,
}
use cherry_wiki.Agent.Mutex.{Ticket, SessionMutex, nobody, add, acquire, try_acquire}
use cherry_wiki.Agent.Mutex.Invariant.{Ahead, Inv}

module _ (m : SessionMutex) (v : Inv m) where
  -- A new ticket waits for the one that the map has, and is let in at once only if there is none.
  module _ (t : Ticket) (waits : t.before ≡ m.locks t.key) (new : t.released ≡ false)
      (polite : (t.entered ≡ false) ⊎ (m.locks t.key ≡ none)) where
    old-Ahead : (i j : ℕ) → (m.count == j) ≡ false → Ahead (add t m) i j → Ahead m i j
    old-Ahead i j d a = record {
      earlier = a.earlier;
      known = ground (arith, a.known);
      same_key = ground (arith, a.known, a.earlier, a.same_key);
      unreleased = ground (arith, a.known, a.earlier, a.unreleased);
    }

    -- An unreleased ticket before the new one, with its key: the map has a later one.
    taken :
        (i : ℕ)
        → Ahead (add t m) i m.count
        → (l : ℕ) × (m.locks t.key ≡ some l) × (i ≤ l) × (l < m.count)
    taken i a =
        let same : (m.tickets i).key ≡ t.key = ground (arith, a.same_key, a.earlier) in
        let (l, e, le) = v.latest i (a.earlier) (ground (arith, a.unreleased, a.earlier)) in
        let e' : m.locks t.key ≡ some l = rw same at e in (l, e', le, (v.locked t.key l e').0)

    add-ordered : (i j : ℕ) → Ahead (add t m) i j → ((add t m).tickets j).entered ≡ false
    add-ordered i j a = elim (Bool-cases (m.count == j)) [
      | inr old ↦ ground (arith, v.ordered i j (old-Ahead i j old a))
      | inl is_new ↦
          let e : m.count ≡ j = ground arith in
          let (l, e', _, _) = taken i (rw (← e) at a) in ground arith
    ]

    add-chained :
        (i j : ℕ)
        → Ahead (add t m) i j
        → (b : ℕ) × (((add t m).tickets j).before ≡ some b) × (i ≤ b) × (b < j)
    add-chained i j a = elim (Bool-cases (m.count == j)) [
      | inr old ↦
          let (b, e, le, lt) = v.chained i j (old-Ahead i j old a) in (b, ground arith, le, lt)
      | inl is_new ↦
          let e : m.count ≡ j = ground arith in
          let (l, e', le, lt) = taken i (rw (← e) at a) in (l, ground arith, le, omega arith)
    ]

    add-latest :
        (i : ℕ)
        → i < (add t m).count
        → ((add t m).tickets i).released ≡ false
        → (l : ℕ) × ((add t m).locks ((add t m).tickets i).key ≡ some l) × (i ≤ l)
    add-latest i lt u = elim (Bool-cases (m.count == i)) [
      | inl is_new ↦ (m.count, ground (arith, eq_refl t.key), ground arith)
      | inr old ↦
          let lt' : i < m.count = ground arith in
          let (l, e, le) = v.latest i lt' (ground arith) in
          elim (Bool-cases (t.key =ₛ (m.tickets i).key)) [
            | inl same ↦ (m.count, ground arith, omega arith)
            | inr other ↦ (l, ground arith, le)
          ]
    ]

    add-locked :
        (k : String) (l : ℕ)
        → (add t m).locks k ≡ some l
        → (l < (add t m).count)
          × (((add t m).tickets l).key ≡ k)
          × (((add t m).tickets l).released ≡ false)
    add-locked k l e = elim (Bool-cases (t.key =ₛ k)) [
      | inl same ↦ ground (arith, eq_iff t.key k)
      | inr other ↦ ground (arith, v.locked k l)
    ]

    add-waited :
        (j b : ℕ)
        → j < (add t m).count
        → ((add t m).tickets j).before ≡ some b
        → (b < j) × (((add t m).tickets b).key ≡ ((add t m).tickets j).key)
    add-waited j b lt e = elim (Bool-cases (m.count == j)) [
      | inl is_new ↦ ground (arith, v.locked t.key b)
      | inr old ↦ ground (arith, v.waited j b)
    ]

    add-let_in :
        (i : ℕ) → ((add t m).tickets i).released ≡ true → ((add t m).tickets i).entered ≡ true
    add-let_in i e = ground (arith, v.let_in i)

    add-unmade : (i : ℕ) → (add t m).count ≤ i → (add t m).tickets i ≡ nobody
    add-unmade i le = ground (arith, v.unmade i)

    add-Inv : Inv (add t m)
    add-Inv = record {
      ordered = add-ordered;
      chained = add-chained;
      latest = add-latest;
      locked = add-locked;
      waited = add-waited;
      let_in = add-let_in;
      unmade = add-unmade;
    }

  pub acquire-Inv : (k : String) → Inv (acquire k m)
  unfolding acquire
  acquire-Inv k =
      add-Inv (record { key = k; before = m.locks k; entered = false; released = false }) refl refl
        (inl refl)

  pub try_acquire-Inv : (k : String) → Inv (try_acquire k m)
  unfolding try_acquire
  try_acquire-Inv k = elim (Option-cases (m.locks k)) [
    | inr (l, e) ↦ rw e v
    | inl e ↦ rw e (
        add-Inv (record { key = k; before = none; entered = true; released = false }) (sym e) refl
          (inr e))
  ]
