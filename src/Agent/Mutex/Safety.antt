-- ===== src/Agent/Mutex/Safety.antt =====
-- What the callers of the mutex may rely on, in every reachable state.
use cherry_wiki.Base.{
  ℕ, zero, suc, ◌≤◌, ◌<◌, String, true, false, ◌≡◌, ◌↔◌, refl, sym, ap, ◌∙◌, arith, ◌⊎◌, inl, inr,
  Bool-cases, Option-cases, ltb,
}
use cherry_wiki.Agent.Mutex.{SessionMutex, Reach, is_resolved, is_locked}
use cherry_wiki.Agent.Mutex.Invariant.{Inv}
use cherry_wiki.Agent.Mutex.Reachable.{Reach-Inv}

-- The caller of a ticket is between its `acquire` and its release.
abbrev pub IsInside : SessionMutex → ℕ → Type 0
IsInside m i = ((m.tickets i).entered ≡ true) × ((m.tickets i).released ≡ false)

made_of : (m : SessionMutex) → Inv m → (i : ℕ) → (m.tickets i).entered ≡ true → i < m.count
made_of m v i e = elim (Bool-cases (ltb i m.count)) [
  | inl lt ↦ ground arith
  | inr ge ↦ absurd (ground (arith, v.unmade i))
]

-- Whatever order the calls, the event loop and the releases take, a caller is let in only when every earlier caller of the same key has released the lock.
pub first_come :
    {m : SessionMutex}
    → Reach m
    → (i j : ℕ) → i < j
    → (m.tickets i).key ≡ (m.tickets j).key
    → (m.tickets j).entered ≡ true
    → (m.tickets i).released ≡ true
first_come {m} r i j lt same inside = elim (Bool-cases (m.tickets i).released) [
  | inl gone ↦ gone
  | inr there ↦
      let v = Reach-Inv r in
      let shut = v.ordered i j (record {
        earlier = lt;
        known = made_of m v j inside;
        same_key = same;
        unreleased = there;
      }) in
      absurd (cc)
]

-- Two callers that are inside with the same key are the same caller, in every reachable state.
pub mutual_exclusion :
    {m : SessionMutex}
    → Reach m
    → (i j : ℕ) → IsInside m i
    → IsInside m j
    → (m.tickets i).key ≡ (m.tickets j).key
    → i ≡ j
mutual_exclusion {m} r i j (e, u) (e', u') same = elim (Bool-cases (ltb i j)) [
  | inl lt ↦ let gone = first_come r i j (ground arith) same e' in absurd (cc)
  | inr ge ↦ elim (Bool-cases (ltb j i)) [
    | inl lt ↦ let gone = first_come r j i (ground arith) (sym same) e in absurd (cc)
    | inr le ↦ ground arith
  ]
]

-- A caller of the key that is inside, or whose promise is resolved so that it can go in.
pub record Moves (m : SessionMutex) (j i : ℕ) : Type 0 where
  pub at_most : i ≤ j
  pub same_key : (m.tickets i).key ≡ (m.tickets j).key
  pub unreleased : (m.tickets i).released ≡ false
  pub can : ((m.tickets i).entered ≡ true) ⊎ (is_resolved m.tickets (m.tickets i).before ≡ true)

mover_below :
    (m : SessionMutex)
    → Inv m
    → (k j : ℕ) → j < k
    → j < m.count
    → (m.tickets j).released ≡ false
    → (i : ℕ) × Moves m j i
mover_below m v zero j lt made there = absurd (omega arith)
mover_below m v (suc k) j lt made there = elim (Option-cases (m.tickets j).before) [
  | inl first ↦ (
    j,
    record { at_most = omega arith; same_key = refl; unreleased = there; can = inr (rw first) },
  )
  | inr (b, e) ↦
      let (earlier, same) = v.waited j b made e in
      elim (Bool-cases (m.tickets b).released) [
        | inl gone ↦ (
          j,
          record {
            at_most = omega arith;
            same_key = refl;
            unreleased = there;
            can = inr (rw e gone);
          },
        )
        | inr busy ↦
            let (i, w) = mover_below m v k b (omega arith) (omega arith) busy in
            (
              i,
              record {
                at_most = omega (arith, w.at_most);
                same_key = w.same_key ∙ same;
                unreleased = w.unreleased;
                can = w.can;
              },
            )
      ]
]

-- No caller waits for ever by the mutex's fault: in every reachable state, if some caller of a key has not released the lock, then one of the key's callers, no later than it, is inside or can go in.
pub no_deadlock :
    {m : SessionMutex}
    → Reach m
    → (j : ℕ) → j < m.count
    → (m.tickets j).released ≡ false
    → (i : ℕ) × Moves m j i
no_deadlock {m} r j made there = mover_below m (Reach-Inv r) (suc j) j (omega arith) made there

-- In every reachable state the lock of a key counts as taken exactly when some caller of the key has not released it, so that the map keeps no entry for a key that is free.
pub is_locked_iff :
    {m : SessionMutex}
    → Reach m
    → (k : String)
    → (is_locked k m ≡ true)
      ↔ ((i : ℕ) × (i < m.count) × ((m.tickets i).key ≡ k) × ((m.tickets i).released ≡ false))
unfolding is_locked
is_locked_iff {m} r k =
    let v = Reach-Inv r in
    (
      λ h. elim (Option-cases (m.locks k)) [
        | inl free ↦ absurd (ground arith)
        | inr (l, e) ↦ let (made, same, there) = v.locked k l e in (l, made, same, there)
      ],
      λ (i, made, same, there).
          let (l, e, le) = v.latest i made there in ground (arith, ap m.locks same),
    )
