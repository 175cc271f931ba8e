-- ===== src/Ingestion/Pipeline/Announced.antt =====
-- When an ingestion of app/ingestion/pipeline.py announces a new knowledge base, and what a failed
-- announcement changes.
use agentic_rag.Prelude.{ℕ, zero, suc, ◌≡◌, refl, ap, String, Option, none, some, List}
use agentic_rag.Core.Errors.{Result, ok, raise}
use agentic_rag.Core.Exec.{Exec, pure, attempt, continue, ◌>>=◌, ◌>>◌}
use agentic_rag.Retrieval.Base.{Document}
use agentic_rag.Ingestion.Pipeline.{Pipeline, chunked, quietly, announce_to, announce, ingest}

module _ {World : Type 0} (p : Pipeline World) (bump : String → Exec World String) where
  -- the same stages with nobody to tell
  abbrev pub unannounced : Pipeline World
  unannounced = record p { bump = none }

  abbrev pub announcing : Pipeline World
  announcing = record p { bump = some bump }

  -- what an announcement makes of the outcome of the stages: after one chunk or more the version is
  -- advanced, and the outcome stays
  abbrev pub announced : String → Result ℕ × World → Result ℕ × World
  announced uri (ok (suc n), w) = (ok (suc n), (bump uri w).1)
  announced uri (ok zero, w) = (ok zero, w)
  announced uri (raise x, w) = (raise x, w)

  quietly_lem : (m : Exec World String) (w : World) → quietly p m w ≡ (ok tt, (m w).1)
  quietly_lem m w = ended (m w).0 (m w).1
    where
      ended :
          (r : Result String) (v : World)
          → attempt (λ u. continue r (λ a. pure tt) v) (λ x. pure tt) w ≡ (ok tt, v)
      ended (ok a) v = refl
      ended (raise x) v = refl

  -- what follows the indexing, with and without a versioner
  abbrev told : Option (String → Exec World String) → String → ℕ → Exec World ℕ
  told versioner uri n = announce_to p versioner uri n >> pure n

  module _ (uri : String) where
    told-announced :
        (r : Result ℕ) (w : World)
        → continue r (told (some bump) uri) w ≡ announced uri (continue r (told none uri) w)
    told-announced (ok zero) w = refl
    told-announced (ok (suc n)) w =
        ap (λ (o : Result (Unit {0}) × World). continue o.0 (λ _. pure (suc n)) o.1)
          (quietly_lem (bump uri) w)
    told-announced (raise x) w = refl

    abbrev indexed : Option (String → Exec World String) → List Document → Exec World ℕ
    indexed versioner chunks = p.index chunks >>= told versioner uri

    indexed-announced :
        (r : Result (List Document)) (w : World)
        → continue r (indexed (some bump)) w ≡ announced uri (continue r (indexed none) w)
    indexed-announced (ok chunks) w = told-announced (p.index chunks w).0 (p.index chunks w).1
    indexed-announced (raise x) w = refl

    abbrev loaded : Option (String → Exec World String) → List Document → Exec World ℕ
    loaded versioner documents = chunked p documents >>= indexed versioner

    loaded-announced :
        (r : Result (List Document)) (w : World)
        → continue r (loaded (some bump)) w ≡ announced uri (continue r (loaded none) w)
    loaded-announced (ok documents) w =
        indexed-announced (chunked p documents w).0 (chunked p documents w).1
    loaded-announced (raise x) w = refl

    -- An ingestion with a versioner is that without one, after which the version is advanced once if a
    -- chunk was indexed: an error of any stage and an empty run advance nothing, and an error of the
    -- announcement changes neither the outcome nor anything but what the announcement itself wrote.
    pub ingest-announced :
        (w : World) → ingest announcing uri w ≡ announced uri (ingest unannounced uri w)
    unfolding ingest announce chunked
    ingest-announced w = loaded-announced (p.read uri w).0 (p.read uri w).1
