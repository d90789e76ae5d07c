-- ===== src/Agent/Queue.antt =====
-- apps/api/src/agent/turn-event-queue.ts: the events of a turn, from the producer that pushes them
-- to the one consumer that iterates. A promise is a value that its resolution fills in; what runs
-- between two awaits is one step.
pub mod Order
pub mod Drain
pub mod Settlement
use cherry_wiki.Base.{
  ℕ, Bool, true, false, ◌||◌, Option, none, some, List, [], ◌∷◌, ◌++◌, map, if◌then◌else◌,
}

-- The promise that the consumer awaits. `waiting`: the field `pending` is set; the two others: its
-- `resolve` or `reject` has been called, and the consumer has not run since.
pub data Wait (E X : Type 0) : Type 0 where
  no_wait : Wait E X
  waiting : Wait E X
  resolved : Option E → Wait E X
  rejected : X → Wait E X

-- Where the generator of `iterate` stands: not called yet, at a `yield`, at its `await`, or over.
pub data Reader : Type 0 where
  created yielding awaiting ended : Reader

pub record TurnEventQueue (E X : Type 0) : Type 0 where
  pub buffer : List E
  pub wait : Wait E X
  pub done : Bool
  pub disposed : Bool
  pub failure : Option X
  pub iterating : Bool
  pub reader : Reader
  pub settlement_waiters : List ℕ
  pub settled : List (ℕ × Option X)  -- the promises of waitUntilSettled that are over, and how

-- What a call of the generator's `next` comes to.
pub data Outcome (E X : Type 0) : Type 0 where
  yielded : E → Outcome E X
  returned : Outcome E X
  threw : X → Outcome E X
  blocked : Outcome E X

abbrev pub is_some : {A : Type 0} → Option A → Bool
is_some none = false
is_some (some a) = true

abbrev pub settle : {X : Type 0} → Option X → List ℕ → List (ℕ × Option X)
settle outcome = map (λ id. (id, outcome))

module _ {E X : Type 0} where
  abbrev pub fresh : TurnEventQueue E X
  fresh = record {
    buffer = [];
    wait = no_wait;
    done = false;
    disposed = false;
    failure = none;
    iterating = false;
    reader = ended;
    settlement_waiters = [];
    settled = [];
  }

  abbrev hand_over : Wait E X → E → TurnEventQueue E X → TurnEventQueue E X
  hand_over waiting event q = record q { wait = resolved (some event) }
  hand_over _ event q = record q { buffer = q.buffer ++ event ∷ [] }

  -- `enqueue`, and so `push` and `inject`.
  unfoldable pub enqueue : E → TurnEventQueue E X → Bool × TurnEventQueue E X
  enqueue event q =
      if q.done || q.disposed || is_some q.failure
      then (false, q)
      else (true, hand_over q.wait event q)

  abbrev after_resolve : Option E → Wait E X → Wait E X
  after_resolve event waiting = resolved event
  after_resolve event other = other

  abbrev after_reject : X → Wait E X → Wait E X
  after_reject e waiting = rejected e
  after_reject e other = other

  unfoldable pub resolve_pending : Option E → TurnEventQueue E X → TurnEventQueue E X
  resolve_pending event q = record q { wait = after_resolve event q.wait }

  unfoldable pub resolve_settlement : TurnEventQueue E X → TurnEventQueue E X
  resolve_settlement q = record q {
    settlement_waiters = [];
    settled = q.settled ++ settle none q.settlement_waiters;
  }

  unfoldable pub reject_settlement : X → TurnEventQueue E X → TurnEventQueue E X
  reject_settlement e q = record q {
    settlement_waiters = [];
    settled = q.settled ++ settle (some e) q.settlement_waiters;
  }

  unfoldable pub complete : TurnEventQueue E X → TurnEventQueue E X
  unfolding resolve_pending resolve_settlement
  complete q =
      if q.done || q.disposed
      then q
      else resolve_settlement (resolve_pending none (record q { done = true }))

  unfoldable pub error : X → TurnEventQueue E X → TurnEventQueue E X
  unfolding reject_settlement
  error e q =
      if q.done || q.disposed
      then q
      else reject_settlement e (record q { failure = some e; wait = after_reject e q.wait })

  unfoldable pub dispose : TurnEventQueue E X → TurnEventQueue E X
  unfolding resolve_pending resolve_settlement
  dispose q =
      if q.disposed
      then q
      else resolve_settlement (
          resolve_pending none
            (record q { disposed = true; done = true; failure = none; buffer = [] }))

  abbrev settle_now : Option X → ℕ → TurnEventQueue E X → TurnEventQueue E X
  settle_now outcome id q = record q { settled = q.settled ++ (id, outcome) ∷ [] }

  abbrev wait_or_fail : Option X → ℕ → TurnEventQueue E X → TurnEventQueue E X
  wait_or_fail none id q = record q { settlement_waiters = q.settlement_waiters ++ id ∷ [] }
  wait_or_fail (some e) id q = settle_now (some e) id q

  -- `waitUntilSettled`, whose promise is known by `id`.
  unfoldable pub wait_until_settled : ℕ → TurnEventQueue E X → TurnEventQueue E X
  wait_until_settled id q =
      if q.done || q.disposed then settle_now none id q else wait_or_fail q.failure id q

  -- `[Symbol.asyncIterator]`; none: it throws, since there is a consumer already.
  unfoldable pub iterator : TurnEventQueue E X → Option (TurnEventQueue E X)
  iterator q = if q.iterating then none else some (record q { iterating = true; reader = created })

  -- The generator's `finally`.
  abbrev over : TurnEventQueue E X → TurnEventQueue E X
  over q = record q { iterating = false; reader = ended; wait = no_wait }

  abbrev yield : E → TurnEventQueue E X → Outcome E X × TurnEventQueue E X
  yield event q = (yielded event, record q { reader = yielding; wait = no_wait })

  abbrev throw_or_wait : Option X → TurnEventQueue E X → Outcome E X × TurnEventQueue E X
  throw_or_wait (some e) q = (threw e, over q)
  throw_or_wait none q =
      if q.done || q.disposed
      then (returned, over q)
      else (blocked, record q { reader = awaiting; wait = waiting })

  abbrev shift : List E → TurnEventQueue E X → Outcome E X × TurnEventQueue E X
  shift (event ∷ rest) q = yield event (record q { buffer = rest })
  shift [] q = throw_or_wait q.failure q

  -- One round of the loop of `iterate`, up to its `yield`, `await` or end.
  unfoldable pub round : TurnEventQueue E X → Outcome E X × TurnEventQueue E X
  round q = shift q.buffer q

  abbrev resume : Wait E X → TurnEventQueue E X → Outcome E X × TurnEventQueue E X
  resume (resolved (some event)) q = yield event q
  resume (resolved none) q = round q
  resume (rejected e) q = (threw e, over q)
  resume _ q = (blocked, q)

  -- The consumer runs, if it can: a call of `next`, or the rest of one whose await is over.
  abbrev advance : Reader → TurnEventQueue E X → Outcome E X × TurnEventQueue E X
  advance created q = round q
  advance yielding q = round q
  advance awaiting q = resume q.wait q
  advance ended q = (returned, q)

  unfoldable pub next : TurnEventQueue E X → Outcome E X × TurnEventQueue E X
  unfolding round
  next q = advance q.reader q

  abbrev leave : Reader → TurnEventQueue E X → TurnEventQueue E X
  leave yielding q = over q
  leave created q = record q { reader = ended }
  leave _ q = q

  -- The consumer leaves its loop at a `yield`, or before its first call. In the latter case the
  -- `finally` is not run.
  unfoldable pub stop : TurnEventQueue E X → TurnEventQueue E X
  stop q = leave q.reader q
