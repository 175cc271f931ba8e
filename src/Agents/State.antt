-- ===== src/Agents/State.antt =====
-- app/agents/state.py and `ToolResult` of app/tools/common.py: what the nodes share.
use agentic_rag.Prelude.{ℕ, String, Bool, true, false, Option, none, List, []}
use agentic_rag.Prelude.Text.{◌<>◌}
use agentic_rag.Memory.Models.{MemorySnapshot}
use agentic_rag.Retrieval.Base.{ScoredDocument}
use agentic_rag.Agents.Models.{QueryAnalysis, RetrievalPlan, Critique}

pub record ToolResult : Type 0 where
  pub tool : String
  pub input : String
  pub output : String
  pub ok : Bool
  pub error : String

-- `ToolResult.describe`
unfoldable pub describe_result : ToolResult → String
describe_result r = describe_ok r.ok
  where
    describe_ok : Bool → String
    describe_ok true = r.tool <> "(" <> r.input <> ") = " <> r.output
    describe_ok false = r.tool <> "(" <> r.input <> ") failed: " <> r.error

pub record RagState (Float : Type 0) : Type 0 where
  pub session_id : String
  pub query : String
  pub memory : Option MemorySnapshot
  pub analysis : Option QueryAnalysis
  pub plan : Option RetrievalPlan
  pub tool_results : List ToolResult
  pub documents : List (ScoredDocument Float)
  pub answer : String
  pub critique : Option (Critique Float)
  pub revisions : ℕ
  pub trace : List String

unfoldable pub initial_state : {Float : Type 0} → String → String → RagState Float
initial_state session_id query = record {
  session_id = session_id;
  query = query;
  memory = none;
  analysis = none;
  plan = none;
  tool_results = [];
  documents = [];
  answer = "";
  critique = none;
  revisions = 0;
  trace = [];
}
