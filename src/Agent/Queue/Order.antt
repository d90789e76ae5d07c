-- ===== src/Agent/Queue/Order.antt =====
-- Any interleaving of a producer, a consumer and those who dispose of the queue: which events the
-- consumer gets, and in which order.
use cherry_wiki.Base.{
  ℕ, Bool, true, false, Option, none, some, List, [], ◌∷◌, ◌++◌, ◌≡◌, refl, arith, if◌then◌else◌,
  Bool-cases, ◌⊎◌, inl, inr, ◌||◌,
}
use mathlib.Core.List.{append-nil, append_assoc}
use cherry_wiki.Agent.Queue.{
  TurnEventQueue, Wait, no_wait, waiting, resolved, rejected, Reader, awaiting, ended, Outcome,
  yielded, fresh, enqueue, complete, error, dispose, wait_until_settled, iterator, next, stop,
  is_some,
}

-- What is done to a queue.
pub data Action (E X : Type 0) : Type 0 where
  pushes : E → Action E X
  completes : Action E X
  fails : X → Action E X
  disposes : Action E X
  waits : ℕ → Action E X
  iterates : Action E X
  takes : Action E X
  stops : Action E X

-- A queue with the events that it accepted and those that its consumers got, oldest first.
pub record Run (E X : Type 0) : Type 0 where
  pub queue : TurnEventQueue E X
  pub accepted : List E
  pub delivered : List E

accept_at_end :
    {E : Type 0} (d i b : List E) (event : E)
    → (d ++ (i ++ (b ++ []))) ++ event ∷ [] ≡ d ++ (i ++ ((b ++ event ∷ []) ++ []))
accept_at_end d i b event = simp (append_assoc, append-nil)

accept_to_wait : {E : Type 0} (d : List E) (event : E) → (d ++ []) ++ event ∷ [] ≡ d ++ event ∷ []
accept_to_wait d event = simp append-nil

-- The event that a resolved promise carries to the consumer.
abbrev pub in_flight : {E X : Type 0} → Wait E X → List E
in_flight (resolved (some event)) = event ∷ []
in_flight _ = []

abbrev pub is_rejected : {E X : Type 0} → Wait E X → Bool
is_rejected (rejected x) = true
is_rejected _ = false

abbrev pub is_asked : {E X : Type 0} → Wait E X → Bool
is_asked no_wait = false
is_asked _ = true

abbrev pub is_awaiting : Reader → Bool
is_awaiting awaiting = true
is_awaiting _ = false

List-cases : {A : Type 0} (xs : List A) → (xs ≡ []) ⊎ ((x : A) × (rest : List A) × (xs ≡ x ∷ rest))
List-cases [] = inl refl
List-cases (x ∷ rest) = inr (x, rest, refl)

-- What a resolved promise brings, if it brings an event.
brought : {E X : Type 0} (w : Wait E X) → (in_flight w ≡ []) ⊎ ((e : E) × (w ≡ resolved (some e)))
brought no_wait = inl refl
brought waiting = inl refl
brought (resolved none) = inl refl
brought (resolved (some e)) = inr (e, refl)
brought (rejected x) = inl refl

module _ {E X : Type 0} where
  abbrev pub start : Run E X
  start = record { queue = fresh; accepted = []; delivered = [] }

  abbrev accept : E → Bool × TurnEventQueue E X → Run E X → Run E X
  accept event (true, q) r = record r { queue = q; accepted = r.accepted ++ event ∷ [] }
  accept event (false, q) r = record r { queue = q }

  abbrev got : Outcome E X → List E
  got (yielded event) = event ∷ []
  got _ = []

  abbrev or_same : Option (TurnEventQueue E X) → TurnEventQueue E X → TurnEventQueue E X
  or_same none q = q
  or_same (some q') q = q'

  unfoldable pub act : Action E X → Run E X → Run E X
  act (pushes event) r = accept event (enqueue event r.queue) r
  act completes r = record r { queue = complete r.queue }
  act (fails e) r = record r { queue = error e r.queue }
  act disposes r = record r { queue = dispose r.queue }
  act (waits id) r = record r { queue = wait_until_settled id r.queue }
  act iterates r = record r { queue = or_same (iterator r.queue) r.queue }
  act takes r = record r {
    queue = (next r.queue).1;
    delivered = r.delivered ++ got (next r.queue).0;
  }
  act stops r = record r { queue = stop r.queue }

  unfoldable pub run : List (Action E X) → Run E X → Run E X
  unfolding act
  run [] r = r
  run (a ∷ actions) r = run actions (act a r)

  -- Nothing is buffered while the consumer waits or its promise carries no event, the promise is
  -- the one of the consumer's await and is rejected only by a failure, and the accepted events are those delivered, then the one in
  -- flight, then the buffer, but for those that a disposal dropped.
  pub record Faithful (r : Run E X) : Type 0 where
    pub lost : List E
    pub all : r.accepted ≡ r.delivered ++ (in_flight r.queue.wait ++ (r.queue.buffer ++ lost))
    pub kept : r.queue.disposed ≡ false → lost ≡ []
    pub idle : r.queue.wait ≡ waiting → r.queue.buffer ≡ []
    pub over : r.queue.disposed ≡ true → r.queue.done ≡ true
    pub busy : (r.queue.reader ≡ ended) ⊎ (r.queue.iterating ≡ true)
    pub blame :
        is_rejected r.queue.wait ≡ true → (is_some r.queue.failure || r.queue.disposed) ≡ true
    pub asked :
        ((r.queue.reader ≡ awaiting) × (is_asked r.queue.wait ≡ true))
        ⊎ ((is_awaiting r.queue.reader ≡ false) × (r.queue.wait ≡ no_wait))

  pub start-Faithful : Faithful start
  start-Faithful = record {
    lost = [];
    all = refl;
    kept = λ d. refl;
    idle = λ e. refl;
    over = λ d. cc;
    busy = inl refl;
    blame = λ e. cc;
    asked = inr (refl, refl);
  }

  pushes-Faithful : (event : E) (r : Run E X) → Faithful r → Faithful (act (pushes event) r)
  unfolding act enqueue
  pushes-Faithful event r f = record {
    lost = f.lost;
    all = ground (
      arith,
      accept_at_end r.delivered (in_flight r.queue.wait) r.queue.buffer event,
      accept_to_wait r.delivered event,
    );
    kept = ground arith;
    idle = ground arith;
    over = ground arith;
    busy = ground arith;
    blame = ground arith;
    asked = ground arith;
  }

  takes-Faithful : (r : Run E X) → Faithful r → Faithful (act takes r)
  unfolding act next
  takes-Faithful r f = record {
    lost = f.lost;
    all = elim (brought r.queue.wait) [
      | inr (e, w) ↦ ground (arith, append_assoc r.delivered (e ∷ []) (r.queue.buffer ++ f.lost))
      | inl no_event ↦ elim (List-cases r.queue.buffer) [
        | inl empty ↦ ground (arith, append-nil r.delivered)
        | inr (e, rest, full) ↦
            ground
              (arith, append_assoc r.delivered (e ∷ []) (rest ++ f.lost), append-nil r.delivered)
      ]
    ];
    kept = ground arith;
    idle = ground arith;
    over = ground arith;
    busy = ground arith;
    blame = ground arith;
    asked = ground arith;
  }

  completes-Faithful : (r : Run E X) → Faithful r → Faithful (act completes r)
  unfolding act complete
  completes-Faithful r f = ground arith

  disposes-Faithful : (r : Run E X) → Faithful r → Faithful (act disposes r)
  unfolding act dispose
  disposes-Faithful r f = record {
    lost = if r.queue.disposed then f.lost else r.queue.buffer ++ f.lost;
    all = ground arith;
    kept = ground arith;
    idle = ground arith;
    over = ground arith;
    busy = ground arith;
    blame = ground arith;
    asked = ground arith;
  }

  fails-Faithful : (e : X) (r : Run E X) → Faithful r → Faithful (act (fails e) r)
  unfolding act error
  fails-Faithful e r f = ground arith

  waits-Faithful : (id : ℕ) (r : Run E X) → Faithful r → Faithful (act (waits id) r)
  unfolding act wait_until_settled
  waits-Faithful id r f = ground arith

  iterates-Faithful : (r : Run E X) → Faithful r → Faithful (act iterates r)
  unfolding act iterator
  iterates-Faithful r f = ground arith

  stops-Faithful : (r : Run E X) → Faithful r → Faithful (act stops r)
  unfolding act stop
  stops-Faithful r f = ground arith

  pub act-Faithful : (a : Action E X) (r : Run E X) → Faithful r → Faithful (act a r)
  act-Faithful (pushes event) = pushes-Faithful event
  act-Faithful completes = completes-Faithful
  act-Faithful (fails e) = fails-Faithful e
  act-Faithful disposes = disposes-Faithful
  act-Faithful (waits id) = waits-Faithful id
  act-Faithful iterates = iterates-Faithful
  act-Faithful takes = takes-Faithful
  act-Faithful stops = stops-Faithful

  pub run-Faithful :
      (actions : List (Action E X)) (r : Run E X) → Faithful r → Faithful (run actions r)
  unfolding run
  run-Faithful [] r f = f
  run-Faithful (a ∷ actions) r f = run-Faithful actions (act a r) (act-Faithful a r f)

  -- After any interleaving of pushes, completions, failures, disposals and a consumer's calls, the events that the consumer got are the first ones that the queue accepted, each once and in their order; and unless the queue was disposed of, the others are on their way to the consumer or in the buffer, in their order.
  pub events_in_order :
      (actions : List (Action E X))
      → (rest : List E) × ((run actions start).accepted ≡ (run actions start).delivered ++ rest)
        × (((run actions start).queue.disposed ≡ true)
            ⊎ (rest ≡ in_flight (run actions start).queue.wait ++ (run actions start).queue.buffer))
  events_in_order actions =
      let r = run actions start in
      let f = run-Faithful actions start start-Faithful in
      (
        in_flight r.queue.wait ++ (r.queue.buffer ++ f.lost),
        f.all,
        elim (Bool-cases r.queue.disposed) [
          | inl gone ↦ inl gone
          | inr there ↦ inr (ground (arith, f.kept there, append-nil r.queue.buffer))
        ],
      )
