-- ===== src/Tests/Ingestions.antt =====
-- Tests of app/ingestion.
use Prim.Native.Char.{code}
use agentic_rag.Prelude.{
  ◌-◌, ℕ, ◌+◌, ◌≡◌, refl, String, false, Option, none, some, List, [], ◌∷◌, All,
}
use agentic_rag.Prelude.Text.{strip, decimal}
use agentic_rag.Core.Errors.{Result, ok}
use agentic_rag.Core.Exec.{pure}
use agentic_rag.Retrieval.Base.{Document, stripped}
use agentic_rag.Cache.Base.{matches}
use agentic_rag.Cache.Versions.{Shared, current}
use agentic_rag.Ingestion.Metadata.{
  Formats, PageMetadata, ChunkMetadata, page_mapping, chunk_mapping, from_mapping,
}
use agentic_rag.Ingestion.Metadata.Mapping.{IsReadable, from_mapping-roundtrip}
use agentic_rag.Ingestion.Chunker.{chunk}
use agentic_rag.Ingestion.Chunker.Pages.{IsCutFrom, chunk-IsCutFrom}
use agentic_rag.Ingestion.Pipeline.{Pipeline, ingest}
use agentic_rag.Ingestion.Pipeline.Announced.{announcing, unannounced, announced, ingest-announced}
use agentic_rag.Ingestion.Pipeline.Outdated.{version_bump, ingest-outdates}
use agentic_rag.Tests.Samples.{backend, leave_answer}
use agentic_rag.Tests.Answers.{unary, shared, current_example, bumped_example}

-- instants are numbers, and a text of one digit is read
abbrev read_digit : String → Option ℕ
read_digit (String.◌∷◌ c String.[]) = some (code c - 48)
read_digit _ = none

abbrev formats : Formats
formats = record {
  Instant = ℕ;
  lower = λ s. s;
  sha256_hex = λ s. s;
  isoformat = decimal;
  read_instant = read_digit;
  read_int = read_digit;
}

abbrev first_page : PageMetadata formats
first_page = record { filename = "leave.pdf"; page = 1; created_at = 2; source = "uploads" }

first_page-IsReadable : IsReadable formats first_page
unfolding strip decimal
first_page-IsReadable = record { filename = refl; source = refl; page = refl; created_at = refl }

abbrev first_chunk : ChunkMetadata formats
first_chunk = record { on_page = first_page; chunk = 0 }

from_mapping-roundtrip_example :
    (from_mapping formats (page_mapping formats first_page) ≡ ok first_page)
    × (from_mapping formats (chunk_mapping formats first_chunk) ≡ ok first_page)
from_mapping-roundtrip_example = from_mapping-roundtrip formats first_chunk first_page-IsReadable

abbrev loaded : Document
loaded = record {
  id = "leave-p0001";
  content = "21 days";
  metadata = stripped [] (page_mapping formats first_page);
}

-- a splitter that leaves a blank piece at the end
abbrev halves : String → List String
halves text = text ∷ " " ∷ []

chunk-IsCutFrom_example :
    (chunks : List Document) × (chunk formats halves (loaded ∷ []) ≡ ok chunks)
    × All (IsCutFrom formats halves (loaded ∷ [])) chunks
chunk-IsCutFrom_example =
    chunk-IsCutFrom formats halves (loaded ∷ [])
      (record { page = first_page; described = refl; readable = first_page-IsReadable }, tt)

-- a world that counts what was indexed, beside the shared backend
abbrev Stage : Type 0
Stage = ℕ × Shared backend

abbrev stages : Pipeline Stage
stages = record {
  read = λ uri. pure (loaded ∷ []);
  chunk = λ ds. ok ds;
  index = λ chunks w. (ok 1, (w.0 + 1, w.1));
  bump = none;
}

abbrev before : Stage
before = (0, shared)

ingest-announced_example :
    ingest (announcing stages (version_bump backend unary "kb" stages)) "leave.pdf" before
    ≡ announced stages
        (version_bump backend unary "kb" stages)
        "leave.pdf"
        (ingest (unannounced stages (version_bump backend unary "kb" stages)) "leave.pdf" before)
ingest-announced_example =
    ingest-announced stages (version_bump backend unary "kb" stages) "leave.pdf" before

abbrev after : Result ℕ × Stage
after = ingest (announcing stages (version_bump backend unary "kb" stages)) "leave.pdf" before

ingest-outdates_example :
    (after.0 ≡ ok 1)
    × (after.1.1.last_known ≡ "ii")
    × ((current backend "kb" after.1.1).0 ≡ ok "ii")
    × (matches leave_answer
          (record { knowledge_base_version = "ii"; model_version = "m"; prompt_version = "p" })
        ≡ false)
unfolding ingest current agentic_rag.Cache.Memory.Interface.local_get agentic_rag.Dict.get
    agentic_rag.Cache.Memory.Interface.local_set agentic_rag.Dict.trim agentic_rag.Dict.put_last
    agentic_rag.Cache.Memory.init agentic_rag.Prelude.Text.string_discrete
ingest-outdates_example =
    ingest-outdates backend unary "kb" stages "leave.pdf" before 0 "0" "ii" leave_answer "m" "p"
      refl refl current_example bumped_example (λ v h. refl)
