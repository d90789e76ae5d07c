-- ===== src/Job/Lock.antt =====
-- packages/job-core/src/lock.ts: the per-job lock in Redis. The SET of `setIf` and the two Lua
-- scripts are single Redis commands; a key lives until its time to live has passed.
pub mod Laws
use cherry_wiki.Base.{
  ℕ, ◌+◌, ◌*◌, ◌<◌, String, Bool, true, false, Option, none, some, ltb, ◌=ₛ◌, if◌then◌else◌,
}
use Prim.Native.String.{◌++◌ as ◌+++◌}
use cherry_wiki.Job.Exec.{World, Lease, M, pure, ◌>>=◌}

-- RedisJobLock.key.
unfoldable pub key : String → String
key job_id = "job:lock:" +++ job_id

abbrev pub live_holder : ℕ → Option Lease → Option String
live_holder now none = none
live_holder now (some l) = if ltb now l.expires_at then some l.holder else none

-- What `get` answers.
unfoldable pub redis_get : String → World → Option String
redis_get k w = live_holder w.clock (w.leases k)

abbrev pub update_lease : String → Option Lease → (String → Option Lease) → String → Option Lease
update_lease k l leases j = if k =ₛ j then l else leases j

abbrev pub set_lease : String → Option Lease → World → World
set_lease k l w = record w { leases = update_lease k l w.leases }

abbrev pub lease_for : String → ℕ → World → Option Lease
lease_for worker ttl_seconds w =
    some (record { holder = worker; expires_at = w.clock + ttl_seconds * 1000 })

abbrev set_unless : Option String → Option Lease → String → World → Bool × World
set_unless none l k w = (true, set_lease k l w)
set_unless (some holder) l k w = (false, w)

-- `acquire`: SET key worker EX ttl NX, and whether the answer is 'OK'.
unfoldable pub acquire : String → String → ℕ → World → Bool × World
unfolding redis_get key
acquire job_id worker ttl w =
    set_unless (redis_get (key job_id) w) (lease_for worker ttl w) (key job_id) w

abbrev pub holder_is : Option String → String → Bool
holder_is none worker = false
holder_is (some holder) worker = holder =ₛ worker

-- `renew`: the script sets the value again, with a new time to live, where it is the worker's own.
unfoldable pub renew : String → String → ℕ → World → Bool × World
unfolding redis_get key
renew job_id worker ttl w =
    if holder_is (redis_get (key job_id) w) worker
    then (true, set_lease (key job_id) (lease_for worker ttl w) w)
    else (false, w)

-- `release`: the script deletes the key where the value is the worker's own; the count is 1 or 0.
unfoldable pub release : String → String → World → Bool × World
unfolding redis_get key
release job_id worker w =
    if holder_is (redis_get (key job_id) w) worker
    then (true, set_lease (key job_id) none w)
    else (false, w)

-- A lock operation as a step of a job operation.
abbrev pub answered : Bool × World → M Bool
answered (b, w') w = pure b w'

abbrev pub locking : (World → Bool × World) → M Bool
locking f w = answered (f w) w
