-- ===== src/Memory.antt =====
-- app/memory: what a conversation remembers, and the store that holds it.
pub mod Models
pub mod Store
