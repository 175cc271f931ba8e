-- ===== src/Agents.antt =====
-- The agent: app/agents.
pub mod Models
pub mod State
pub mod Context
pub mod Services
pub mod Nodes
pub mod Graph
pub mod Rag
