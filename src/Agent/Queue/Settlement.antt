-- ===== src/Agent/Queue/Settlement.antt =====
-- The promises of waitUntilSettled.
use cherry_wiki.Base.{
  ℕ, Bool, true, Option, none, some, List, [], ◌∷◌, ◌++◌, ◌≡◌, refl, sym, ap, ◌∙◌, arith, ◌||◌,
  Option-cases, inl, inr,
}
use mathlib.Core.List.{append-nil, append_assoc}
use cherry_wiki.Agent.Queue.{
  TurnEventQueue, enqueue, complete, error, dispose, wait_until_settled, iterator, next, stop,
  is_some, settle,
}
use cherry_wiki.Agent.Queue.Order.{
  Action, pushes, completes, fails, disposes, waits, iterates, takes, stops, Run, start, run, act,
}

unfoldable pub ids : {X : Type 0} → List (ℕ × Option X) → List ℕ
ids [] = []
ids ((id, outcome) ∷ rest) = id ∷ ids rest

ids-append : {X : Type 0} (xs ys : List (ℕ × Option X)) → ids (xs ++ ys) ≡ ids xs ++ ids ys
unfolding ids
ids-append [] ys = refl
ids-append ((id, outcome) ∷ xs) ys = ap (λ l. id ∷ l) (ids-append xs ys)

ids-settle : {X : Type 0} (outcome : Option X) (xs : List ℕ) → ids (settle outcome xs) ≡ xs
unfolding ids
ids-settle outcome [] = refl
ids-settle outcome (x ∷ xs) = ap (λ l. x ∷ l) (ids-settle outcome xs)

settled_one :
    {X : Type 0} (outcome : Option X) (id : ℕ) (done : List (ℕ × Option X))
    → ids (done ++ (id, outcome) ∷ []) ++ [] ≡ ids done ++ id ∷ []
unfolding ids
settled_one outcome id done =
    append-nil (ids (done ++ (id, outcome) ∷ [])) ∙ ids-append done ((id, outcome) ∷ [])

abbrev pub requested_by : {E X : Type 0} → Action E X → List ℕ
requested_by (waits id) = id ∷ []
requested_by _ = []

-- The promises that a sequence of actions asks for, in order.
abbrev pub requested : {E X : Type 0} → List (Action E X) → List ℕ
requested [] = []
requested (a ∷ actions) = requested_by a ++ requested actions

module _ {E X : Type 0} where
  -- The promises of a queue: those that are over, then those that wait.
  pub promises : TurnEventQueue E X → List ℕ
  promises q = ids q.settled ++ q.settlement_waiters

  abbrev pub is_over : TurnEventQueue E X → Bool
  is_over q = is_some q.failure || q.done || q.disposed

  abbrev NoneLeft : TurnEventQueue E X → Type 0
  NoneLeft q = is_over q ≡ true → q.settlement_waiters ≡ []

  settled_all :
      (outcome : Option X) (q : TurnEventQueue E X)
      → ids (q.settled ++ settle outcome q.settlement_waiters) ++ []
        ≡ ids q.settled ++ q.settlement_waiters
  settled_all outcome q =
      append-nil (ids (q.settled ++ settle outcome q.settlement_waiters))
      ∙ ids-append q.settled (settle outcome q.settlement_waiters)
      ∙ ap (λ l. ids q.settled ++ l) (ids-settle outcome q.settlement_waiters)

  waits_one :
      (id : ℕ) (q : TurnEventQueue E X)
      → NoneLeft q
      → (promises (wait_until_settled id q) ≡ promises q ++ id ∷ [])
        × NoneLeft (wait_until_settled id q)
  unfolding promises wait_until_settled ids
  waits_one id q left = elim (Option-cases q.failure) [
    | inl fine ↦ ground (
      arith,
      append_assoc (ids q.settled) q.settlement_waiters (id ∷ []),
      settled_one none id q.settled,
      append-nil (ids q.settled),
    )
    | inr (e, failed) ↦ ground (
      arith,
      settled_one none id q.settled,
      settled_one (some e) id q.settled,
      append-nil (ids q.settled),
    )
  ]

  same :
      (a : Action E X) (r : Run E X)
      → requested_by a ≡ []
      → NoneLeft r.queue
      → (promises (act a r).queue ≡ promises r.queue) × NoneLeft (act a r).queue
  unfolding promises act
  same (pushes event) r none_asked left = unfold enqueue in ground arith
  same completes r none_asked left = unfold complete in ground (arith, settled_all none r.queue)
  same (fails e) r none_asked left = unfold error in ground (arith, settled_all (some e) r.queue)
  same disposes r none_asked left = unfold dispose in ground (arith, settled_all none r.queue)
  same (waits id) r none_asked left = absurd (cc)
  same iterates r none_asked left = unfold iterator in ground arith
  same takes r none_asked left = unfold next in ground arith
  same stops r none_asked left = unfold stop in ground arith

  unchanged :
      (a : Action E X) (r : Run E X)
      → requested_by a ≡ []
      → NoneLeft r.queue
      → (promises (act a r).queue ≡ promises r.queue ++ requested_by a) × NoneLeft (act a r).queue
  unchanged a r none_asked left =
      let (kept, left') = same a r none_asked left in
      (
        kept
            ∙ sym (append-nil (promises r.queue))
            ∙ ap (λ l. promises r.queue ++ l) (sym none_asked),
        left',
      )

  act-promises :
      (a : Action E X) (r : Run E X)
      → NoneLeft r.queue
      → (promises (act a r).queue ≡ promises r.queue ++ requested_by a) × NoneLeft (act a r).queue
  act-promises (waits id) r left = unfold act in waits_one id r.queue left
  act-promises (pushes event) r left = unchanged (pushes event) r refl left
  act-promises completes r left = unchanged completes r refl left
  act-promises (fails e) r left = unchanged (fails e) r refl left
  act-promises disposes r left = unchanged disposes r refl left
  act-promises iterates r left = unchanged iterates r refl left
  act-promises takes r left = unchanged takes r refl left
  act-promises stops r left = unchanged stops r refl left

  promises-run :
      (actions : List (Action E X)) (r : Run E X)
      → NoneLeft r.queue
      → (promises (run actions r).queue ≡ promises r.queue ++ requested actions)
        × NoneLeft (run actions r).queue
  unfolding run
  promises-run [] r left = (sym (append-nil (promises r.queue)), left)
  promises-run (a ∷ actions) r left =
      let (one, left') = act-promises a r left in
      let (rest, left'') = promises-run actions (act a r) left' in
      (
        rest
            ∙ ap (λ l. l ++ requested actions) one
            ∙ append_assoc (promises r.queue) (requested_by a) (requested actions),
        left'',
      )

  -- Once a turn is completed, failed or disposed of, the promises of waitUntilSettled that are over are those that were asked for, before or since, each once and in their order: none still waits.
  pub settled_when_over :
      (actions : List (Action E X))
      → is_over (run actions start).queue ≡ true
      → ids (run actions start).queue.settled ≡ requested actions
  unfolding promises ids
  settled_when_over actions over =
      let (all, left) = promises-run actions start (λ e. refl) in
      sym (append-nil (ids (run actions start).queue.settled))
      ∙ ap (λ l. ids (run actions start).queue.settled ++ l) (sym (left over))
      ∙ all
