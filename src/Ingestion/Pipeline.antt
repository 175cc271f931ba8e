-- ===== src/Ingestion/Pipeline.antt =====
-- app/ingestion/pipeline.py: read, chunk, index, and announce the change. The loader, which reads the
-- file, is a parameter that may raise.
pub mod Announced
pub mod Outdated
use agentic_rag.Prelude.{ℕ, zero, suc, String, Bool, true, false, Option, none, some, List, [], ◌∷◌}
use agentic_rag.Core.Errors.{Exc, Result, ok, raise}
use agentic_rag.Core.Exec.{lifted, Exec, pure, fail, attempt, ◌>>=◌, ◌>>◌}
use agentic_rag.Retrieval.Base.{Document}

-- the stages and the versioner, if there is one
pub record Pipeline (World : Type 0) : Type 0 where
  pub read : String → Exec World (List Document)
  pub chunk : List Document → Result (List Document)
  pub index : List Document → Exec World ℕ
  pub bump : Option (String → Exec World String)

module _ {World : Type 0} (p : Pipeline World) where
  -- `_chunk`: nothing is chunked when nothing was read
  unfoldable pub chunked : List Document → Exec World (List Document)
  chunked [] = pure []
  chunked (d ∷ ds) = lifted (p.chunk (d ∷ ds))

  -- the `try` of `_announce`, whose handler only logs
  abbrev pub quietly : Exec World String → Exec World (Unit {0})
  quietly m = attempt (m >> pure tt) (λ x. pure tt)

  abbrev pub announce_to : Option (String → Exec World String) → String → ℕ → Exec World (Unit {0})
  announce_to none uri indexed = pure tt
  announce_to (some bump) uri zero = pure tt
  announce_to (some bump) uri (suc n) = quietly (bump uri)

  -- `_announce`
  unfoldable pub announce : String → ℕ → Exec World (Unit {0})
  announce uri indexed = announce_to p.bump uri indexed

  -- `ingest`
  unfoldable pub ingest : String → Exec World ℕ
  unfolding chunked announce
  ingest uri = do
    documents ← p.read uri
    chunks ← chunked documents
    indexed ← p.index chunks
    announce uri indexed
    pure indexed
