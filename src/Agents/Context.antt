-- ===== src/Agents/Context.antt =====
-- app/agents/context.py: documents and tool outcomes as prompt text.
use mathlib.Core.Option
use agentic_rag.Prelude.{ℕ, suc, String, List, [], ◌∷◌, map, take, if◌then◌else◌}
use agentic_rag.Prelude.Text.{is_blank, join, decimal, string_discrete, ◌<>◌}
use agentic_rag.Dict.{get}
use agentic_rag.Retrieval.Base.{Document, ScoredDocument}
use agentic_rag.Agents.State.{ToolResult, describe_result}

abbrev pub attribution_of : String → String → String
attribution_of source page = if is_blank page then source else source <> ", page " <> page

-- `metadata.get("filename", id)`, `metadata.get("page")`: a missing page counts as a blank one
unfoldable pub attribution : Document → String
unfolding get
attribution d =
    attribution_of (Option.get_or (get string_discrete "filename" d.metadata) d.id)
      (Option.get_or (get string_discrete "page" d.metadata) "")

module _ {Float : Type 0} where
  -- the numbered blocks, from a position on
  unfoldable pub blocks_from : ℕ → List (ScoredDocument Float) → List String
  unfolding attribution decimal
  blocks_from position [] = []
  blocks_from position (d ∷ ds) =
      ("[" <> decimal position <> "] (" <> attribution d.document <> ")\n" <> d.document.content)
      ∷ blocks_from (suc position) ds

  unfoldable pub format_context : List (ScoredDocument Float) → ℕ → String
  unfolding blocks_from join
  format_context [] limit = "No documents were retrieved."
  format_context (d ∷ ds) limit = join "\n\n" (blocks_from 1 (take limit (d ∷ ds)))

unfoldable pub format_tool_results : List ToolResult → String
unfolding join describe_result
format_tool_results [] = "No tools were used."
format_tool_results (r ∷ rs) =
    join "\n" (map (λ (x : ToolResult). "- " <> describe_result x) (r ∷ rs))
