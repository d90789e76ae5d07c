-- ===== src/Agent.antt =====
-- The agent sessions of apps/api/src/agent: the queue of a turn's events and the mutex of a session.
pub mod Queue
pub mod Mutex
