-- ===== src/Services.antt =====
-- Services: app/services.
pub mod Embeddings
pub mod Chat
use agentic_rag.Prelude.{Bool, false}
use agentic_rag.Core.Errors.{Exc, configuration_error, dependency_error}
use agentic_rag.Core.Exec.{Exec, pure, fail}

-- the handler of a `probe`: a service that cannot be reached is not ready, and other errors go on
abbrev pub not_reached : {World : Type 0} → Exc → Exec World Bool
not_reached dependency_error = pure false
not_reached configuration_error = pure false
not_reached x = fail x
