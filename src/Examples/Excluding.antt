-- ===== src/Examples/Excluding.antt =====
-- The mutex with two callers of one key.
use cherry_wiki.Base.{ℕ, ◌≡◌, refl, arith}
use cherry_wiki.Agent.Mutex.{
  SessionMutex, fresh, acquire, enter, release, Reach, acquires, enters, releases,
}
use cherry_wiki.Agent.Mutex.Safety.{Moves, mutual_exclusion, no_deadlock}

-- The first is in and the second waits; then the first releases and the second is let in.
abbrev waiting : SessionMutex
waiting = acquire "s" (enter 0 (acquire "s" fresh))

abbrev handed : SessionMutex
handed = enter 1 (release 0 waiting)

waiting-Reach : Reach waiting
unfolding acquire
waiting-Reach =
    Reach.later (Reach.later (Reach.later Reach.start (acquires "s")) (enters 0 (omega arith)))
      (acquires "s")

handed-Reach : Reach handed
unfolding acquire enter release
handed-Reach = Reach.later (Reach.later waiting-Reach (releases 0 refl)) (enters 1 (omega arith))

mutual_exclusion_example : ◌≡◌ {A = ℕ} 1 1
unfolding acquire enter release
mutual_exclusion_example = mutual_exclusion handed-Reach 1 1 (refl, refl) (refl, refl) refl

no_deadlock_example : (i : ℕ) × Moves waiting 1 i
unfolding acquire enter
no_deadlock_example = no_deadlock waiting-Reach 1 (omega arith) refl
