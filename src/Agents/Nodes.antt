-- ===== src/Agents/Nodes.antt =====
-- app/agents/nodes: the nodes that read and analyse, plan and search.
pub mod Memory
pub mod Planning
pub mod Tools
pub mod Answering
