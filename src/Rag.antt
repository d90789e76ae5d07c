-- ===== src/Rag.antt =====
-- Retrieval: packages/rag-core.
pub mod Amount
pub mod Pack
pub mod Fusion
pub mod Chunk
