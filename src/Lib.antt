-- ===== src/Lib.antt =====
-- CherryGraph Studio: the parts of the server that decide which background job runs, who may do
-- what and how often, which request is handled and which gets an earlier answer, how the events of a
-- turn reach their reader, how a page is published and cut into chunks, how search results are
-- fused, how a knowledge graph is imported, and what goes into a prompt.
--
-- The parts and how they interact.
-- - Job/: packages/job-core, and the cancellation of apps/api/src/jobs/jobs.service.ts. A job is a
--   row in a database. A worker that gets the job's id from a queue takes the job's lock in Redis,
--   moves the row through the state machine, processes the job and writes its result or its failure;
--   the scanner fails jobs that run too long; clients cancel them.
--   Data (status.ts, the tables jobs and job_events of packages/shared/src/schema/core.ts), Store
--   (the reads and writes of repository.ts and event-repository.ts), Machine (JobStateMachine of
--   state-machine.ts), Lock (RedisJobLock of lock.ts), Worker (handleBullMQJob and handleFailure of
--   worker-base.ts), Repository (create and findPendingByType of repository.ts), Scanner
--   (TimeoutScanner of timeout-scanner.ts), Cancel (cancelJob of jobs.service.ts, with its
--   check of access in Cancel/Accessible).
-- - Access/: packages/auth-core/src/constants.ts (Roles) and rbac.guard.ts (Value and Request: the
--   validation of what a request carries; Guard: canActivate and the functions that it calls).
-- - Access/Sessions: apps/api/src/auth/session.service.ts and the table sessions (Sessions:
--   createSession; Sessions/Owned: the other methods).
-- - Access/Groups: apps/api/src/groups/group.service.ts and the tables that it changes (Groups: rows,
--   maps and differences of permissions; Groups/Service: the steps of a transaction and
--   replaceSpacePermissions; Groups/Admin: createGroup, updateGroup and deleteGroup). A group gives its
--   members permissions on spaces; a change counts up the permission versions of what it concerns and
--   is published, so that caches of permissions are dropped.
-- - Rag/: packages/rag-core/src/chunker.ts (Chunk, and Chunk/Page for
--   chunkPage), rrf-fusion.ts (Fusion) and context-packer.ts (Pack).
-- - Wiki/: packages/wiki-core/src/state-machine.ts and version.ts: the publishing of a page.
-- - Graph/: packages/graph-core/src, the import of a knowledge graph (Parse: parser.ts; Validate:
--   validator.ts; Communities: communities.ts; Import: import-service.ts; Data: types.ts, confidence.ts,
--   normalize-label.ts and stable-key.ts). The parsed graph is validated, its nodes are put into
--   communities by label propagation, and the result is the operation that is persisted.
-- - Agent/: apps/api/src/agent/turn-event-queue.ts (Queue: the events of a turn, from the agent to
--   the stream of a response) and session-mutex.ts (Mutex: one turn of a session at a time).
-- - Net/: common/guards/rate-limit.guard.ts, bridge/bridge-rate-limit.guard.ts and
--   mcp/mcp-rate-limit.ts of apps/api/src (RateLimit: the scripts that Redis runs; RateLimit/Guards:
--   the guard of the bridge, which asks for three limits in turn); and
--   common/middleware/idempotency.middleware.ts of the same (Idempotency: the reservation of a key and
--   the replay of its response; Capture: what is kept of a response while it is written).
-- - Base and its children hold what these share; Examples holds concrete inputs and tests.
--
-- How the code is modelled.
-- A transaction of Access/Groups is one step; what it writes is kept only if it is not refused, and
-- the bridge queue and Redis are there. The state of the job code is a World: the rows, the events,
-- the leases of the locks, the clock in milliseconds and the sequence of new ids. An operation maps
-- a world to a result and a world; a thrown error is a result, and the world keeps what was written
-- before it. The name of a function is the source's in snake case (handleBullMQJob is
-- handle_bull_job); the branches of a long function are functions of their own, composed as the
-- source composes them. Between two awaits an operation runs alone, except where its own correctness
-- is about the others: the processing of a job may change the world in any way (the field `process`
-- of Worker), and so may other clients between the steps of a cancellation and while it waits for an
-- answer about permissions (the argument Meanwhile); and what follows a creation under a key is any
-- sequence of changes (Changes of Job/Repository).
-- The laws of the state machine and of the lock are stated for any world, so also one that such
-- steps led to; that of the lock is stated for a step relation of the other workers. What the code
-- is handed is an argument: the permission resolver, the token counter and the order of scores, the
-- arithmetic of the scores that fusion computes and of the numbers in a graph, JSON.parse, SHA-256,
-- the processing of a job, and the sequence of random ids.
--
-- In Agent a promise is a value that its resolution fills in, and what an operation does between two
-- awaits is one step; the orders of the steps are the sequences of actions, or the paths of a step
-- relation, that the theorems range over. In Net the clocks of the API and of Redis are one, and a
-- sorted set is the list of its scores, as its members are told apart by random ids.
--
-- Bounds and fuel. The retries of a cancellation are the source's own MAX_CANCELLATION_RETRIES. The
-- loop that splits a text has fuel for one turn more than the text has units, which is enough, since
-- each turn moves on by one unit at least. Label propagation makes the source's own 20 passes at
-- most. Every other loop is recursion on a list. Numbers are naturals; a difference is either not
-- below 0 where the source takes it, or its maximum with a number that is not is taken next.
--
-- What is not modelled. Failures of the connections to the database and to Redis (but in Net a
-- command of Redis may fail), violated foreign keys and colliding random ids; the queue's own
-- redelivery of jobs; numbers of JSON that are no naturals; properties of arrays that are not named
-- by numbers. In Access a text is a sequence of code points, and lower case is that of the ASCII
-- letters; in Rag/Chunk a text is a sequence of UTF-16 units. Rows that a query orders equally keep
-- the order of the table. In Graph texts are ordered by code points, and the guard against shrinking
-- compares counts, which is what its doubles do below 2 ^ 48. In Rag/Pack scores are compared only.
-- In Net/Idempotency the parsing of headers, paths and JSON is left out. The queries of the graph,
-- the conflict annotations of the packer, the lists that GroupService only reads, the listing of
-- jobs, the web frontend, the other services of the API and the Python workers are left out.
pub mod Base
pub mod Job
pub mod Access
pub mod Rag
pub mod Wiki
pub mod Graph
pub mod Agent
pub mod Net
pub mod Examples
