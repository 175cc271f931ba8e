-- ===== src/Agents/Nodes/Planning.antt =====
-- app/agents/nodes: `QueryAnalyzerNode`, `PlannerNode` and `RetrieverNode`.
use agentic_rag.Prelude.{
  ◌+◌, String, Bool, true, false, Option, none, some, List, [], ◌∷◌, ◌++◌, map, length, is_empty,
  if◌then◌else◌,
}
use agentic_rag.Prelude.Text.{is_blank, strip, or_else, join, decimal, bool_text, ◌<>◌}
use agentic_rag.Core.Errors.{Result, ok, raise}
use agentic_rag.Core.Exec.{Exec, pure, fail, ◌>>=◌}
use agentic_rag.Memory.Models.{MemorySnapshot, describe_memory}
use agentic_rag.Retrieval.Base.{ScoredDocument, RetrievalQuery, search_type_text, retrieval_query}
use agentic_rag.Agents.Models.{
  QueryIntent, factual, comparative, summarisation, procedural, conversational, QueryAnalysis,
  RetrievalPlan, Critique, default_analysis, search_text_of, fallback_plan, to_metadata_filters,
}
use agentic_rag.Agents.State.{RagState}
use agentic_rag.Agents.Services.{Services, System, Tool, outside, rescue}

abbrev pub describe_or_absent : Option MemorySnapshot → String
describe_or_absent none = "No prior conversation."
describe_or_absent (some m) = describe_memory m

abbrev pub intent_text : QueryIntent → String
intent_text factual = "factual"
intent_text comparative = "comparative"
intent_text summarisation = "summarisation"
intent_text procedural = "procedural"
intent_text conversational = "conversational"

-- `_describe` of the planner
unfoldable pub describe_analysis : QueryAnalysis → String
unfolding join bool_text
describe_analysis a =
    "intent: "
    <> intent_text a.intent
    <> "\nnormalised query: "
    <> a.normalised_query
    <> "\nkeywords: "
    <> or_else (join ", " a.keywords) "none"
    <> "\nambiguous: "
    <> bool_text a.is_ambiguous

abbrev pub is_retry : {A : Type 0} → Option A → Bool
is_retry none = false
is_retry (some c) = true

module _ (V : Services) where
  abbrev pub State : Type 0
  State = RagState V.floats.Float

  -- `_describe_feedback`
  unfoldable pub describe_feedback : Option (Critique V.floats.Float) → String
  unfolding join bool_text
  describe_feedback none = "This is the first attempt."
  describe_feedback (some c) =
      "A previous attempt was judged inadequate. Plan differently — do not repeat the same search. Critic feedback:"
      <> "\nsufficient context: "
      <> bool_text c.sufficient_context
      <> "\ngrounded: "
      <> bool_text c.grounded
      <> "\nunsupported claims: "
      <> or_else (join "; " c.unsupported_claims) "none listed"
      <> "\nguidance: "
      <> or_else c.feedback "none given"

  abbrev pub catalogue_of : List (String × Tool V.World) → List String
  catalogue_of = map (λ t. t.1.catalogue_line)

  -- `_tool_catalogue`
  unfoldable pub tool_catalogue : String
  unfolding join
  tool_catalogue =
      if is_empty V.tools then "No tools are available." else join "\n" (catalogue_of V.tools)

  abbrev pub analysed : State → QueryAnalysis → String → State
  analysed state a step = record state {
    analysis = some a;
    trace = state.trace ++ ("query_analyzer:" <> step) ∷ [];
  }

  -- `QueryAnalyzerNode.__call__`
  unfoldable pub analyzer : State → Exec (System V) State
  unfolding default_analysis
  analyzer state =
      rescue
        (outside V (
            V.analysis
              (V.render "query_analyzer"
                (("query", state.query) ∷ ("memory", describe_or_absent state.memory) ∷ []))
              state.query)
          >>= λ a. pure (analysed state a (intent_text a.intent)))
        (pure (analysed state (default_analysis state.query) "fallback"))

  -- `state.get("analysis") or QueryAnalysis(normalised_query=query)`
  unfoldable pub analysis_in : State → QueryAnalysis
  unfolding default_analysis
  analysis_in state = elim state.analysis [ none ↦ default_analysis state.query | some a ↦ a ]

  -- `_ensure_search_text`
  unfoldable pub ensure_search_text : RetrievalPlan → QueryAnalysis → String → RetrievalPlan
  unfolding strip search_text_of
  ensure_search_text plan analysis query =
      if is_blank (strip plan.search_text)
      then record plan { search_text = search_text_of analysis query }
      else plan

  unfoldable pub planner_prompt : State → String
  unfolding analysis_in describe_analysis tool_catalogue describe_feedback
  planner_prompt state = V.render "planner" (
      ("query", state.query)
      ∷ ("analysis", describe_analysis (analysis_in state))
      ∷ ("memory", describe_or_absent state.memory)
      ∷ ("tools", tool_catalogue)
      ∷ ("feedback", describe_feedback state.critique)
      ∷ [])

  unfoldable pub planned : State → RetrievalPlan → State
  unfolding analysis_in ensure_search_text search_type_text
  planned state proposal =
      let plan = ensure_search_text proposal (analysis_in state) state.query in
      record state {
        plan = some plan;
        revisions = if is_retry state.critique then state.revisions + 1 else state.revisions;
        trace =
            state.trace
            ++ ("planner:"
                <> (if is_retry state.critique then "replan" else "plan")
                <> ":"
                <> search_type_text plan.search_type)
              ∷ [];
      }

  -- `PlannerNode.__call__`
  unfoldable pub planner : State → Exec (System V) State
  unfolding planner_prompt planned fallback_plan analysis_in search_text_of
  planner state =
      rescue (outside V (V.plan (planner_prompt state) state.query))
        (pure (fallback_plan (search_text_of (analysis_in state) state.query)))
      >>= λ proposal. pure (planned state proposal)

  abbrev pub retrieved : State → List (ScoredDocument V.floats.Float) → String → State
  retrieved state documents step = record state {
    documents = documents;
    trace = state.trace ++ ("retriever:" <> step) ∷ [];
  }

  -- a value that is built before the `try`, or the error that building it raises
  abbrev pub built : {A : Type 0} → Result A → Exec (System V) A
  built (ok a) = pure a
  built (raise x) = fail x

  -- the query of the plan
  unfoldable pub query_of : State → RetrievalPlan → Result (RetrievalQuery V.floats.Float)
  unfolding to_metadata_filters retrieval_query
  query_of state plan = elim (to_metadata_filters plan) [
    | raise x ↦ raise x
    | ok filters ↦
        retrieval_query (or_else plan.search_text state.query) plan.top_k plan.search_type filters
  ]

  unfoldable pub search_with : State → RetrievalQuery V.floats.Float → Exec (System V) State
  unfolding decimal
  search_with state query =
      rescue
        (outside V (V.search query) >>= λ result. pure (
          retrieved state result.documents
            (result.retriever <> ":" <> decimal (length result.documents))))
        (pure (retrieved state [] "failed"))

  -- `RetrieverNode.__call__`, given the plan
  unfoldable pub retrieve : State → Option RetrievalPlan → Exec (System V) State
  unfolding query_of search_with
  retrieve state none = pure (retrieved state [] "skipped")
  retrieve state (some plan) =
      if plan.retrieval_needed
      then built (query_of state plan) >>= search_with state
      else pure (retrieved state [] "skipped")

  unfoldable pub retriever : State → Exec (System V) State
  unfolding retrieve
  retriever state = retrieve state state.plan
