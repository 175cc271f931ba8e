-- ===== src/Core.antt =====
-- app/core: errors, retries, the request timeout and the in-process caches.
pub mod Errors
pub mod Exec
pub mod TtlCache
pub mod Retry
pub mod Timeout
