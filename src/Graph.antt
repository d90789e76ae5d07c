-- ===== src/Graph.antt =====
-- The import of an extracted knowledge graph: packages/graph-core.
pub mod Data
pub mod Parse
pub mod Validate
pub mod Communities
pub mod Import
