-- ===== src/Net.antt =====
-- What stands between the network and the services: apps/api/src/common, bridge and mcp.
pub mod RateLimit
pub mod Capture
pub mod Idempotency
