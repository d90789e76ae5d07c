-- ===== src/Agent/Queue/Drain.antt =====
-- After the end of a turn the consumer gets what is left, and its loop ends.
use cherry_wiki.Base.{
  ℕ, zero, suc, true, false, none, List, [], ◌∷◌, ◌++◌, ◌≡◌, ◌≢◌, refl, sym, ap, ◌∙◌, arith, length,
}
use mathlib.Core.List.{append-nil, append_assoc}
use cherry_wiki.Agent.Queue.{TurnEventQueue, waiting, ended, returned, complete, next}
use cherry_wiki.Agent.Queue.Order.{
  Action, takes, completes, Run, start, run, act, in_flight, Faithful, run-Faithful, act-Faithful,
  start-Faithful,
}

abbrev pub times : {A : Type 0} → ℕ → A → List A
times zero a = []
times (suc n) a = a ∷ times n a

module _ {E X : Type 0} where
  -- What the consumer has still to get.
  abbrev pub held : TurnEventQueue E X → List E
  held q = in_flight q.wait ++ q.buffer

  -- A completed queue with a consumer.
  record IsClosing (q : TurnEventQueue E X) : Type 0 where
    closed : q.done ≡ true
    open_still : q.disposed ≡ false
    no_failure : q.failure ≡ none
    read : q.reader ≢ ended
    woken : q.wait ≢ waiting

  takes-IsClosing :
      (r : Run E X) (e : E) (rest : List E)
      → Faithful r
      → IsClosing r.queue
      → held r.queue ≡ e ∷ rest
      → IsClosing (act takes r).queue
        × (held (act takes r).queue ≡ rest)
        × ((act takes r).delivered ≡ r.delivered ++ e ∷ [])
  unfolding act next
  takes-IsClosing r e rest f c h = ground arith

  takes_returned :
      (r : Run E X)
      → Faithful r
      → IsClosing r.queue
      → held r.queue ≡ []
      → (next r.queue).0 ≡ returned
  unfolding next
  takes_returned r f c h = ground arith

  drain :
      (rest : List E) (r : Run E X)
      → Faithful r
      → IsClosing r.queue
      → held r.queue ≡ rest
      → ((run (times (length rest) takes) r).delivered ≡ r.delivered ++ rest)
        × ((next (run (times (length rest) takes) r).queue).0 ≡ returned)
  unfolding run
  drain [] r f c h = (sym (append-nil r.delivered), takes_returned r f c h)
  drain (e ∷ rest) r f c h =
      let (c', h', d) = takes-IsClosing r e rest f c h in
      let (all, over) = drain rest (act takes r) (act-Faithful takes r f) c' h' in
      (all ∙ ap (λ d. d ++ rest) d ∙ append_assoc r.delivered (e ∷ []) rest, over)

  completes-IsClosing :
      (r : Run E X)
      → Faithful r
      → r.queue.disposed ≡ false
      → r.queue.failure ≡ none
      → r.queue.reader ≢ ended
      → r.queue.done ≡ false
      → IsClosing (act completes r).queue
        × (held (act completes r).queue ≡ held r.queue)
        × (r.accepted ≡ r.delivered ++ held r.queue)
  unfolding act complete
  completes-IsClosing r f open_still no_failure read running = (
    ground arith,
    ground arith,
    f.all
        ∙ ap (λ (xs : List E). r.delivered ++ (in_flight r.queue.wait ++ xs))
            (ap (λ (xs : List E). r.queue.buffer ++ xs) (f.kept open_still)
              ∙ append-nil r.queue.buffer),
  )

  -- When a turn is completed that was not disposed of and has not failed, its consumer gets every accepted event that it has not yet got, in as many calls of `next` as there are such events, and the call after these ends its loop.
  pub completed_drains :
      (actions : List (Action E X))
      → (run actions start).queue.disposed ≡ false
      → (run actions start).queue.failure ≡ none
      → (run actions start).queue.reader ≢ ended
      → (run actions start).queue.done ≡ false
      → (n : ℕ) × (n ≡ length (held (run actions start).queue))
        × ((run (times n takes) (act completes (run actions start))).delivered
            ≡ (run actions start).accepted)
        × ((next (run (times n takes) (act completes (run actions start))).queue).0 ≡ returned)
  unfolding act
  completed_drains actions open_still no_failure read running =
      let r = run actions start in
      let f = run-Faithful actions start start-Faithful in
      let (c, h, all) = completes-IsClosing r f open_still no_failure read running in
      let (got, over) = drain (held r.queue) (act completes r) (act-Faithful completes r f) c h in
      (length (held r.queue), refl, got ∙ sym all, over)
