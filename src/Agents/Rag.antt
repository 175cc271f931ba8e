-- ===== src/Agents/Rag.antt =====
-- app/agents/rag.py: the summary of a run for its caller, which the answer cache reads.
pub mod Ungrounded
use mathlib.Core.Option
use agentic_rag.Prelude.{ℕ, suc, String, Option, none, some, List, [], ◌∷◌, map}
use agentic_rag.Prelude.Text.{string_discrete}
use agentic_rag.Dict.{get}
use agentic_rag.Retrieval.Base.{ScoredDocument}
use agentic_rag.Cache.Base.{ToolEntry}
use agentic_rag.Cache.Gateway.{Metadata, CritiqueEntry}
use agentic_rag.Agents.Models.{Critique}
use agentic_rag.Agents.State.{RagState, ToolResult}

pub record Citation (Float : Type 0) : Type 0 where
  pub marker : ℕ
  pub id : String
  pub filename : String
  pub page : String
  pub score : Float

-- the entry of one tool call
abbrev pub tool_entry : ToolResult → ToolEntry
tool_entry r = record { tool = r.tool; input = r.input; ok = some r.ok; error = r.error }

module _ {Float : Type 0} where
  -- `_citation`
  unfoldable pub citation : ℕ → ScoredDocument Float → Citation Float
  unfolding get
  citation index d = record {
    marker = index;
    id = d.document.id;
    filename = Option.get_or (get string_discrete "filename" d.document.metadata) "";
    page = Option.get_or (get string_discrete "page" d.document.metadata) "";
    score = d.score;
  }

  -- `enumerate(documents, start=…)`
  unfoldable pub citations_from : ℕ → List (ScoredDocument Float) → List (Citation Float)
  unfolding citation
  citations_from index [] = []
  citations_from index (d ∷ ds) = citation index d ∷ citations_from (suc index) ds

  -- `_critique_summary`
  unfoldable pub critique_summary : Option (Critique Float) → Option (CritiqueEntry Float)
  critique_summary none = none
  critique_summary (some c) = some (record {
    sufficient_context = some c.sufficient_context;
    grounded = some c.grounded;
    confidence = some c.confidence;
  })

  -- `_metadata`, without the plan, which the cache does not read
  unfoldable pub metadata : RagState Float → Metadata Float (Citation Float)
  unfolding citations_from critique_summary
  metadata state = record {
    critique = critique_summary state.critique;
    citations = citations_from 1 state.documents;
    tools = map tool_entry state.tool_results;
    trace = state.trace;
    revisions = state.revisions;
  }
