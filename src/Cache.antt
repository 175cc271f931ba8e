-- ===== src/Cache.antt =====
-- app/cache: the answer cache. Contracts, backends, versions, keys, counters, the gateway that
-- decides hit, miss or store, and the agent that the gateway stands in front of.
pub mod Memory
pub mod Metrics
pub mod Keys
pub mod Base
pub mod Versions
pub mod Gateway
pub mod Agent
