-- ===== src/Retrieval.antt =====
-- Retrieval: app/retrieval.
pub mod Similarity
pub mod Filters
pub mod Base
pub mod Query
pub mod Chroma
pub mod Compressors
pub mod Factory
pub mod Vector
pub mod Hybrid
pub mod Compression
pub mod Diversity
pub mod Fusion
