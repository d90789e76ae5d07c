-- ===== src/Agent/Mutex/Entering.antt =====
-- Letting a ticket in keeps the invariant.
use cherry_wiki.Base.{
  ℕ, ◌<◌, true, false, ◌==◌, ◌≡◌, sym, ◌∙◌, arith, if◌then◌else◌, inl, inr, Bool-cases,
}
use cherry_wiki.Agent.Mutex.{SessionMutex, set_ticket, enter, is_resolved}
use cherry_wiki.Agent.Mutex.Invariant.{Ahead, Inv}

module _ (m : SessionMutex) (v : Inv m) (n : ℕ) where
  abbrev let_in_one : SessionMutex
  let_in_one = record m {
    tickets = set_ticket n (record (m.tickets n) { entered = true }) m.tickets;
  }

  same-Ahead : (i j : ℕ) → Ahead let_in_one i j → Ahead m i j
  same-Ahead i j a = record {
    earlier = a.earlier;
    known = a.known;
    same_key = ground (arith, a.same_key);
    unreleased = ground (arith, a.unreleased);
  }

  -- The one whose promise is resolved has no unreleased ticket before it.
  first_of_key : is_resolved m.tickets (m.tickets n).before ≡ true → (i : ℕ) → Ahead m i n → ⊥
  first_of_key free i a =
      let (b, e, le, lt) = v.chained i n a in
      let gone : (m.tickets b).released ≡ true = rw (e, is_resolved) at free in
      let same : (m.tickets b).key ≡ (m.tickets n).key = (v.waited n b a.known e).1 in
      elim (Bool-cases (i == b)) [
        | inl at ↦ let e' : i ≡ b = ground arith in absurd (ground (arith, a.unreleased))
        | inr before ↦
            let shut : (m.tickets b).entered ≡ false = v.ordered i b (record {
              earlier = ground arith;
              known = omega (arith, a.known);
              same_key = a.same_key ∙ sym same;
              unreleased = a.unreleased;
            }) in
            absurd (ground (arith, v.let_in b))
      ]

  let_in_one-Inv : n < m.count → is_resolved m.tickets (m.tickets n).before ≡ true → Inv let_in_one
  let_in_one-Inv made free = record {
    ordered = λ i j a. elim (Bool-cases (n == j)) [
      | inl at ↦
          let e : n ≡ j = ground arith in
          absurd (first_of_key free i (rw (← e) at (same-Ahead i j a)))
      | inr other ↦ ground (arith, v.ordered i j (same-Ahead i j a))
    ];
    chained =
        λ i j a. let (b, e, le, lt) = v.chained i j (same-Ahead i j a) in (b, ground arith, le, lt);
    latest = λ i lt u. let (l, e, le) = v.latest i lt (ground arith) in (l, ground arith, le);
    locked = λ k l e. ground (arith, v.locked k l);
    waited = λ j b lt e. ground (arith, v.waited j b);
    let_in = λ i e. ground (arith, v.let_in i);
    unmade = λ i le. ground (arith, v.unmade i);
  }

  pub enter-Inv : n < m.count → Inv (enter n m)
  unfolding enter
  enter-Inv made = elim (Bool-cases (is_resolved m.tickets (m.tickets n).before)) [
    | inl free ↦ rw (free, if◌then◌else◌) (let_in_one-Inv made free)
    | inr held ↦ rw (held, if◌then◌else◌) v
  ]
