-- ===== src/Net/Idempotency/Exclusive.antt =====
-- One reservation for each key.
use cherry_wiki.Base.{
  set_key-other, set_key-same, ℕ, ◌+◌, ◌<◌, String, true, false, Option, none, some, ◌==◌, ◌≡◌, ◌≢◌,
  refl, sym, ap, ◌∙◌, arith, Bool-cases, Option-cases, ◌⊎◌, inl, inr,
}
use cherry_wiki.Net.Idempotency.{
  Server, Entry, Phase, reading, finished, running, phase_of, answer, Response, Value, processing,
  cached, live, set_nx, set_phase, processing_ttl, reserve, read, fail, finish, Step, reserves,
  reads, fails_to_reserve, fails_to_read, finishes, ends, waits, opening, Reach, start, later,
}

-- A request with a reservation that has not expired.
pub record Holds (s : Server) (i since : ℕ) : Type 0 where
  pub holding : (s.requests i).phase ≡ running true since
  pub in_time : s.now < since + processing_ttl

pub record Inv (s : Server) : Type 0 where
  pub reserved :
      (i since : ℕ)
      → Holds s i since
      → s.store (s.requests i).key
        ≡ some (record { value = processing; expires_at = since + processing_ttl })
  pub alone :
      (i j a b : ℕ) → Holds s i a → Holds s j b → (s.requests i).key ≡ (s.requests j).key → i ≡ j

opening-Inv : (keys : ℕ → String) → Inv (opening keys)
opening-Inv keys = record {
  reserved = λ i since h. absurd (ground (arith, h.holding));
  alone = λ i j a b h k e. absurd (ground (arith, h.holding));
}

pub key-set_phase :
    (i : ℕ) (p : Phase) (s : Server) (j : ℕ)
    → ((set_phase i p s).requests j).key ≡ (s.requests j).key
key-set_phase i p s j = elim (Bool-cases (i == j)) [
  | inl same ↦ ground arith
  | inr other ↦ ground arith
]

-- Who holds a reservation after a request's phase has changed.
held_before :
    (i : ℕ) (p : Phase) (s : Server) (j since : ℕ)
    → Holds (set_phase i p s) j since
    → ((i ≢ j) × Holds s j since) ⊎ ((i ≡ j) × (p ≡ running true since))
held_before i p s j since h = elim (Bool-cases (i == j)) [
  | inl same ↦ inr (ground arith, ground (arith, h.holding))
  | inr other ↦
      inl (ground arith, record { holding = ground (arith, h.holding); in_time = h.in_time })
]

waits-Inv : (t : ℕ) (s : Server) → Inv s → Inv (record s { now = s.now + t })
waits-Inv t s v = record {
  reserved = λ i since h.
      v.reserved i since (record { holding = h.holding; in_time = omega (arith, h.in_time) });
  alone = λ i j a b h k e.
      v.alone i j a b (record { holding = h.holding; in_time = omega (arith, h.in_time) })
        (record { holding = k.holding; in_time = omega (arith, k.in_time) }) e;
}

-- A step that leaves one request fewer with a reservation, and the entries of the others.
fewer-Inv :
    (s s' : Server)
    → ((j : ℕ) → (s'.requests j).key ≡ (s.requests j).key)
    → ((j since : ℕ)
        → Holds s' j since
        → Holds s j since × (s'.store (s.requests j).key ≡ s.store (s.requests j).key))
    → Inv s
    → Inv s'
fewer-Inv s s' keys before v = record {
  reserved = λ j since h.
      let (h', entry) = before j since h in ap s'.store (keys j) ∙ (entry ∙ v.reserved j since h');
  alone = λ i j a b h k e.
      v.alone i j a b (before i a h).0 (before j b k).0 (sym (keys i) ∙ (e ∙ keys j));
}

phase-Inv :
    (i : ℕ) (p : Phase) (s : Server)
    → ((since : ℕ) → p ≢ running true since)
    → Inv s
    → Inv (set_phase i p s)
phase-Inv i p s ne v =
    fewer-Inv s (set_phase i p s) (key-set_phase i p s)
      (λ j since h. elim (held_before i p s j since h) [
        | inl (other, h') ↦ (h', refl)
        | inr (same, e) ↦ absurd (ne since e)
      ])
      v

finish-Inv :
    (i since : ℕ) (r : Response) (s : Server)
    → (s.requests i).phase ≡ running true since
    → s.now < since + processing_ttl
    → Inv s
    → Inv (finish i r s)
unfolding finish
finish-Inv i since r s holding in_time v =
    fewer-Inv s (finish i r s) (key-set_phase i finished s)
      (λ j b h.
        elim (held_before i finished s j b (record { holding = h.holding; in_time = h.in_time })) [
          | inl (other, h') ↦ (
            h',
            set_key-other (s.requests i).key (s.requests j).key _ s.store (λ same.
                other
                  (v.alone i j since b (record { holding = holding; in_time = in_time }) h' same)),
          )
          | inr (same, e) ↦ absurd (ground (arith, e))
        ])
      v

answer-lem : (w : Value) (since : ℕ) → answer w ≢ running true since
answer-lem processing since e = absurd (cc)
answer-lem (cached r) since e = absurd (cc)

never_reserves : (o : Option Entry) (now since : ℕ) → phase_of o now ≢ running true since
never_reserves none now since e = absurd (cc)
never_reserves (some e) now since q = answer-lem e.value since q

-- Nobody holds a reservation of a key that is free.
unheld :
    (k : String) (s : Server)
    → Inv s
    → live s.now (s.store k) ≡ none
    → (j since : ℕ) → Holds s j since
    → k ≢ (s.requests j).key
unheld k s v free j since h same =
    let entry = ap s.store same ∙ v.reserved j since h in absurd (ground (arith, h.in_time))

granted-Inv :
    (i : ℕ) (s : Server)
    → Inv s
    → live s.now (s.store (s.requests i).key) ≡ none
    → Inv (set_nx none i s)
granted-Inv i s v free =
    let k = (s.requests i).key in
    let s' = set_nx none i s in
    let apart : (j since : ℕ) → Holds s j since → k ≢ (s.requests j).key = unheld k s v free in
    let keys = key-set_phase i (running true s.now) s in
    let before : (j since : ℕ)
        → Holds s' j since
        → ((i ≢ j) × Holds s j since) ⊎ ((i ≡ j) × (running true s.now ≡ running true since)) =
      λ j since h.
        held_before i (running true s.now) s j since
          (record { holding = h.holding; in_time = h.in_time }) in
    record {
      reserved = λ j since h. ap s'.store (keys j) ∙ elim (before j since h) [
        | inl (other, h') ↦
            set_key-other k (s.requests j).key _ s.store (apart j since h') ∙ v.reserved j since h'
        | inr (same, e) ↦
            ap s'.store (ap (λ n. (s.requests n).key) (sym same)) ∙ (set_key-same k _ s.store ∙ cc)
      ];
      alone = λ j l a b h h' e.
          let same = sym (keys j) ∙ (e ∙ keys l) in
          elim (before j a h) [
            | inl (other, held) ↦ elim (before l b h') [
              | inl (other', held') ↦ v.alone j l a b held held' same
              | inr (me, e') ↦ absurd (apart j a held (ap (λ n. (s.requests n).key) me ∙ sym same))
            ]
            | inr (me, e') ↦ elim (before l b h') [
              | inl (other', held') ↦
                  absurd (apart l b held' (ap (λ n. (s.requests n).key) me ∙ same))
              | inr (me', e'') ↦ sym me ∙ me'
            ]
          ];
    }

reserve-Inv : (i : ℕ) (s : Server) → Inv s → Inv (reserve i s)
unfolding reserve
reserve-Inv i s v = elim (Option-cases (live s.now (s.store (s.requests i).key))) [
  | inl free ↦ rw free (granted-Inv i s v free)
  | inr (e, taken) ↦ rw taken (phase-Inv i reading s (λ since q. absurd (cc)) v)
]

fail-Inv : (i : ℕ) (s : Server) → Inv s → Inv (fail i s)
unfolding fail
fail-Inv i s v = phase-Inv i (running false s.now) s (λ since e. absurd (cc)) v

read-Inv : (i : ℕ) (s : Server) → Inv s → Inv (read i s)
unfolding read
read-Inv i s v =
    let o = live s.now (s.store (s.requests i).key) in
    phase-Inv i (phase_of o s.now) s (never_reserves o s.now) v

pub Step-Inv : {s s' : Server} → Step s s' → Inv s → Inv s'
Step-Inv {s} (reserves i e) v = reserve-Inv i s v
Step-Inv {s} (reads i e) v = read-Inv i s v
Step-Inv {s} (fails_to_reserve i e) v = fail-Inv i s v
Step-Inv {s} (fails_to_read i e) v = fail-Inv i s v
Step-Inv {s} (finishes i since r holding in_time) v = finish-Inv i since r s holding in_time v
Step-Inv {s} (ends i since b e) v = phase-Inv i finished s (λ a q. absurd (cc)) v
Step-Inv {s} (waits t) v = waits-Inv t s v

pub Reach-Inv : {keys : ℕ → String} {s : Server} → Reach keys s → Inv s
Reach-Inv {keys} start = opening-Inv keys
Reach-Inv (later r step) = Step-Inv step (Reach-Inv r)

-- Whatever order requests, time and failing commands of Redis take, at most one request of a key is being handled with a reservation less than 300 seconds old, as long as no handler that has a reservation ends after this has expired.
pub reservation_exclusive :
    {keys : ℕ → String} {s : Server}
    → Reach keys s
    → (i j a b : ℕ) → Holds s i a
    → Holds s j b
    → (s.requests i).key ≡ (s.requests j).key
    → i ≡ j
reservation_exclusive r i j a b = (Reach-Inv r).alone i j a b
