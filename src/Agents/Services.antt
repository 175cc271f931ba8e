-- ===== src/Agents/Services.antt =====
-- What the nodes of app/agents are built with: their settings, the chat model, the prompt
-- templates, the retrievers and the tools. Whatever leaves the process is a parameter that may raise.
pub mod Dependable
use agentic_rag.Prelude.{ℕ, String, Bool, List}
use agentic_rag.Prelude.Floats.{Floats}
use agentic_rag.Dict.{Dict}
use agentic_rag.Core.Errors.{Exc, raise, dependency_error}
use agentic_rag.Core.Exec.{Exec, attempt, inside}
use agentic_rag.Memory.Models.{UserFact}
use agentic_rag.Memory.Store.{StoreSettings, Sessions}
use agentic_rag.Retrieval.Base.{RetrievalQuery, RetrievalResult}
use agentic_rag.Agents.Models.{QueryAnalysis, RetrievalPlan, Critique}

-- `AgentSettings`, `ToolSettings` and `MemorySettings`
pub record Settings (Float : Type 0) : Type 0 where
  pub max_revisions : ℕ
  pub max_context_documents : ℕ
  pub min_confidence : Float
  pub tools_enabled : Bool
  pub max_calls_per_turn : ℕ
  pub memory_enabled : Bool
  pub summary_after_turns : ℕ
  pub extract_user_context : Bool
  pub store : StoreSettings

-- a registered tool: its name, its line of the catalogue and its `run`
pub record Tool (World : Type 0) : Type 0 where
  pub name : String
  pub catalogue_line : String
  pub execute : String → Exec World String

-- `chat.structured` once for each schema, `chat.complete`, `registry.render`, the search of the
-- retriever that the factory picks for a query, and the texts `str(exc)` and `type(exc).__name__`
pub record Services : Type 1 where
  pub floats : Floats
  pub World : Type 0
  pub analysis : String → String → Exec World QueryAnalysis
  pub plan : String → String → Exec World RetrievalPlan
  pub critique : String → String → Exec World (Critique floats.Float)
  pub user_context : String → String → Exec World (List UserFact)
  pub complete : String → String → Exec World String
  pub render : String → Dict String String → String
  pub search : RetrievalQuery floats.Float → Exec World (RetrievalResult floats.Float)
  pub tools : Dict String (Tool World)
  pub error_text : Exc → String
  pub error_name : Exc → String
  pub settings : Settings floats.Float

-- the conversation memory and the world outside the process
pub record System (V : Services) : Type 0 where
  pub sessions : Sessions
  pub world : V.World

abbrev pub outside : (V : Services) {A : Type 0} → Exec V.World A → Exec (System V) A
outside V m = inside (λ s. s.world) (λ s w. record s { world = w }) m

-- the handler of `except DependencyError`
abbrev pub on_dependency : {S A : Type 0} → Exec S A → Exc → Exec S A
on_dependency fallback dependency_error s = fallback s
on_dependency fallback x s = (raise x, s)

-- `try: m except DependencyError: fallback`
abbrev pub rescue : {S A : Type 0} → Exec S A → Exec S A → Exec S A
rescue m fallback = attempt m (on_dependency fallback)
