-- ===== src/Ingestion/Indexer.antt =====
-- app/ingestion/indexer.py: chunks are written in batches. The batches run concurrently in the source;
-- here they run in their order, and the first that raises ends the run.
pub mod Batches
use agentic_rag.Prelude.{ℕ, zero, suc, List, [], ◌∷◌, length, take, drop, is_empty, if◌then◌else◌}
use agentic_rag.Core.Exec.{Exec, pure, ◌>>=◌, ◌>>◌}
use agentic_rag.Retrieval.Base.{Document}

-- `_batched`, with one round for each document at most
unfoldable pub batches_of : {A : Type 0} → ℕ → ℕ → List A → List (List A)
batches_of zero size documents = []
batches_of (suc rounds) size [] = []
batches_of (suc rounds) size (d ∷ ds) =
    take size (d ∷ ds) ∷ batches_of rounds size (drop size (d ∷ ds))

unfoldable pub batched : {A : Type 0} → ℕ → List A → List (List A)
unfolding batches_of
batched size documents = batches_of (length documents) size documents

module _ {World : Type 0} (upsert : List Document → Exec World (Unit {0})) where
  -- the task group
  unfoldable pub write_all : List (List Document) → Exec World (Unit {0})
  write_all [] = pure tt
  write_all (batch ∷ batches) = upsert batch >> write_all batches

  -- `index`
  unfoldable pub index : ℕ → List Document → Exec World ℕ
  unfolding write_all batched
  index size [] = pure 0
  index size (c ∷ cs) = write_all (batched size (c ∷ cs)) >> pure (length (c ∷ cs))
