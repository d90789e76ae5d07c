-- ===== src/Examples/Queueing.antt =====
-- The event queue of a turn at concrete runs.
use cherry_wiki.Base.{ℕ, true, List, [], ◌∷◌, ◌++◌, length, ◌≡◌, ◌⊎◌, refl}
use cherry_wiki.Agent.Queue.{
  returned, enqueue, resolve_pending, resolve_settlement, complete, wait_until_settled, iterator,
  round, next,
}
use cherry_wiki.Agent.Queue.Order.{
  Action, pushes, completes, takes, iterates, waits, start, run, act, in_flight, events_in_order,
}
use cherry_wiki.Agent.Queue.Drain.{held, times, completed_drains}
use cherry_wiki.Agent.Queue.Settlement.{ids, requested, settled_when_over}

-- The consumer waits for the first event; two more come before it runs again.
abbrev actions : List (Action ℕ ℕ)
actions = iterates ∷ takes ∷ waits 7 ∷ pushes 1 ∷ pushes 2 ∷ pushes 3 ∷ takes ∷ []

events_in_order_example :
    (rest : List ℕ) × ((run actions start).accepted ≡ (run actions start).delivered ++ rest)
    × (((run actions start).queue.disposed ≡ true)
        ⊎ (rest ≡ in_flight (run actions start).queue.wait ++ (run actions start).queue.buffer))
events_in_order_example = events_in_order actions

completed_drains_example :
    (n : ℕ) × (n ≡ length (held (run actions start).queue))
    × ((run (times n takes) (act completes (run actions start))).delivered
        ≡ (run actions start).accepted)
    × ((next (run (times n takes) (act completes (run actions start))).queue).0 ≡ returned)
unfolding run act enqueue complete wait_until_settled iterator round next resolve_pending
    resolve_settlement
completed_drains_example = completed_drains actions refl refl (λ e. absurd (cc)) refl

abbrev over : List (Action ℕ ℕ)
over = waits 7 ∷ pushes 1 ∷ waits 8 ∷ completes ∷ waits 9 ∷ []

settled_when_over_example : ids (run over start).queue.settled ≡ requested over
unfolding run act enqueue complete wait_until_settled iterator round next resolve_pending
    resolve_settlement
settled_when_over_example = settled_when_over over refl

drains_all :
    (run (takes ∷ takes ∷ completes ∷ takes ∷ []) (run actions start)).delivered ≡ 1 ∷ 2 ∷ 3 ∷ []
unfolding run act enqueue complete wait_until_settled iterator round next resolve_pending
    resolve_settlement
drains_all = refl
