-- ===== src/Ingestion.antt =====
-- Ingestion: app/ingestion.
pub mod Metadata
pub mod Chunker
pub mod Indexer
pub mod Pipeline
