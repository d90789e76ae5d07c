-- ===== src/Agent/Mutex/Reachable.antt =====
-- Every reachable state has the invariant.
use cherry_wiki.Agent.Mutex.{
  SessionMutex, Step, acquires, tries, enters, releases, Reach, start, later,
}
use cherry_wiki.Agent.Mutex.Invariant.{Inv, fresh-Inv}
use cherry_wiki.Agent.Mutex.Joining.{acquire-Inv, try_acquire-Inv}
use cherry_wiki.Agent.Mutex.Entering.{enter-Inv}
use cherry_wiki.Agent.Mutex.Releasing.{release-Inv}

Step-Inv : {m m' : SessionMutex} → Step m m' → Inv m → Inv m'
Step-Inv {m} (acquires k) v = acquire-Inv m v k
Step-Inv {m} (tries k) v = try_acquire-Inv m v k
Step-Inv {m} (enters i made) v = enter-Inv m v i made
Step-Inv {m} (releases i inside) v = release-Inv m v i inside

pub Reach-Inv : {m : SessionMutex} → Reach m → Inv m
Reach-Inv start = fresh-Inv
Reach-Inv (later r s) = Step-Inv s (Reach-Inv r)
