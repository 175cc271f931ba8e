-- ===== src/Tests/Ungrounded.antt =====
-- A test run of app/agents that finds nothing.
use agentic_rag.Prelude.{ℕ, ◌≡◌, refl, true, false, some, [], ◌∷◌, arith}
use agentic_rag.Core.Errors.{ok, dependency_error}
use agentic_rag.Core.Exec.{pure, fail}
use agentic_rag.Memory.Models.{empty_snapshot}
use agentic_rag.Retrieval.Base.{similarity}
use agentic_rag.Cache.Gateway.{insufficient_context, refuse}
use agentic_rag.Agents.Models.{RetrievalPlan, default_analysis}
use agentic_rag.Agents.State.{initial_state}
use agentic_rag.Agents.Services.{Services, System}
use agentic_rag.Agents.Nodes.Planning.{State}
use agentic_rag.Agents.Nodes.Answering.{has_no_grounds, no_context_answer, no_context_critique}
use agentic_rag.Agents.Graph.{invoke_graph}
use agentic_rag.Agents.Rag.{metadata}
use agentic_rag.Agents.Rag.Ungrounded.{ungrounded_run-refused}
use agentic_rag.Tests.Samples.{whole}

abbrev search_plan : RetrievalPlan
search_plan = record {
  retrieval_needed = true;
  search_type = similarity;
  top_k = 5;
  filters = [];
  search_text = "leave";
  tools_needed = false;
  tool_calls = [];
  reasoning = "";
}

-- services without a store to search, without memory and without revisions
abbrev blind : Services
blind = record {
  floats = whole;
  World = ℕ;
  analysis = λ prompt query. fail dependency_error;
  plan = λ prompt query. pure search_plan;
  critique = λ prompt query. fail dependency_error;
  user_context = λ prompt query. pure [];
  complete = λ prompt query. pure "21 days";
  render = λ template values. template;
  search = λ query. fail dependency_error;
  tools = [];
  error_text = λ x. "error";
  error_name = λ x. "Exception";
  settings = record {
    max_revisions = 0;
    max_context_documents = 8;
    min_confidence = 5;
    tools_enabled = true;
    max_calls_per_turn = 2;
    memory_enabled = false;
    summary_after_turns = 6;
    extract_user_context = false;
    store = record { short_term_turns = 6; max_user_facts = 20; max_sessions = 10 };
  };
}

abbrev before : System blind
before = record { sessions = []; world = 0 }

abbrev last_state : State blind
last_state = record (initial_state "a" "leave") {
  memory = some empty_snapshot;
  analysis = some (default_analysis "leave");
  plan = some search_plan;
  answer = no_context_answer blind;
  critique = some (no_context_critique blind);
  trace =
      "memory_loader:disabled" ∷ "query_analyzer:fallback" ∷ "planner:plan:similarity"
      ∷ "retriever:failed" ∷ "generator:no_context" ∷ "critic:no_context" ∷ "memory_writer:disabled"
      ∷ [];
}

blind_run : (invoke_graph blind 8 "a" "leave" before).0 ≡ ok (some last_state)
unfolding invoke_graph
blind_run = refl

blind_bare : has_no_grounds blind last_state ≡ true
unfolding has_no_grounds initial_state
blind_bare = refl

ungrounded_run-refused_example :
    refuse whole 5 last_state.answer (metadata last_state) ≡ some insufficient_context
ungrounded_run-refused_example =
    ungrounded_run-refused blind 8 "a" "leave" before last_state 5 (omega arith) blind_run
      blind_bare
