-- ===== src/Tests/Runs.antt =====
-- Tests of the agent: app/agents.
use agentic_rag.Prelude.{true, ◌⊎◌, ℕ, true, false, some, [], ◌∷◌, arith}
use agentic_rag.Core.Errors.{ok, dependency_error}
use agentic_rag.Core.Exec.{pure, fail}
use agentic_rag.Core.Exec.Ensures.{Ensures}
use agentic_rag.Core.Exec.Returns.{Returns}
use agentic_rag.Retrieval.Base.{similarity}
use agentic_rag.Agents.Models.{RetrievalPlan, PlannedToolCall, default_analysis}
use agentic_rag.Agents.State.{initial_state}
use agentic_rag.Agents.Services.{System, Services, Tool}
use agentic_rag.Agents.Nodes.Planning.{State}
use agentic_rag.Agents.Nodes.Tools.{with_results, tool_node}
use agentic_rag.Agents.Nodes.Tools.Outcomes.{Outcomes, tool_node-Returns}
use agentic_rag.Agents.Graph.{invoke_graph}
use agentic_rag.Agents.Graph.Policy.{Finishes, invoke_graph-Finishes}
use agentic_rag.Agents.Models.Filters.{HasStripped, to_metadata_filters-ok}
use agentic_rag.Agents.Models.{to_metadata_filters}
use agentic_rag.Agents.Services.Dependable.{IsDependable, Anything}
use agentic_rag.Agents.Graph.Outage.{IsStripped, AreDependable, invoke_graph-survives}
use agentic_rag.Retrieval.Filters.{MetadataFilters, op_in}
use agentic_rag.Prelude.{◌≡◌, refl, false, inl, inr, Option}
use agentic_rag.Prelude.Text.{is_blank, is_space, strip}
use agentic_rag.Tests.Samples.{whole}

abbrev clock_call : PlannedToolCall
clock_call = record { tool = "clock"; input = "now" }

abbrev wild_call : PlannedToolCall
wild_call = record { tool = "wild"; input = "x" }

abbrev a_plan : RetrievalPlan
a_plan = record {
  retrieval_needed = true;
  search_type = similarity;
  top_k = 5;
  filters = [];
  search_text = "leave days";
  tools_needed = true;
  tool_calls = clock_call ∷ wild_call ∷ clock_call ∷ [];
  reasoning = "";
}

abbrev clock : Tool ℕ
clock = record { name = "clock"; catalogue_line = "- clock"; execute = λ text. pure "noon" }

-- the chat model plans and answers, and the search finds nothing
abbrev services : Services
services = record {
  floats = whole;
  World = ℕ;
  analysis = λ prompt query. pure (default_analysis query);
  plan = λ prompt query. pure a_plan;
  critique = λ prompt query. fail dependency_error;
  user_context = λ prompt query. pure [];
  complete = λ prompt query. pure "21 days";
  render = λ template values. template;
  search = λ query. fail dependency_error;
  tools = ("clock", clock) ∷ [];
  error_text = λ x. "error";
  error_name = λ x. "Exception";
  settings = record {
    max_revisions = 2;
    max_context_documents = 8;
    min_confidence = 5;
    tools_enabled = true;
    max_calls_per_turn = 2;
    memory_enabled = true;
    summary_after_turns = 6;
    extract_user_context = false;
    store = record { short_term_turns = 6; max_user_facts = 20; max_sessions = 10 };
  };
}

invoke_graph-Finishes_example :
    Ensures (Finishes services) (invoke_graph services 25 "a" "Leave days?")
invoke_graph-Finishes_example = invoke_graph-Finishes services 25 "a" "Leave days?" (omega arith)

abbrev planned_state : State services
planned_state = record (initial_state "a" "Leave days?") { plan = some a_plan }

tool_node-Returns_example :
    Returns (Outcomes services planned_state) (tool_node services planned_state)
    × ((services.settings.tools_enabled ≡ true)
        ⊎ ((s : System services)
            → tool_node services planned_state s
              ≡ (ok (with_results services planned_state [] "skipped"), s)))
tool_node-Returns_example = tool_node-Returns services planned_state

gone : {A : Type 0} {P : A → Type 0} → IsDependable {S = ℕ} P (fail dependency_error)
gone = record { outcome = λ s. inr refl }

there : {A : Type 0} (P : A → Type 0) (a : A) → P a → IsDependable {S = ℕ} P (pure a)
there P a p = record { outcome = λ s. inl (a, refl, p) }

services-AreDependable : AreDependable services
services-AreDependable = record {
  analysis = λ prompt query. there Anything _ tt;
  plan = λ prompt query. there IsStripped a_plan tt;
  critique = λ prompt query. gone;
  complete = λ prompt query. there Anything _ tt;
  search = λ query. gone;
}

asked_example : is_blank (strip "Leave days?") ≡ false
unfolding strip is_space
asked_example = refl

invoke_graph-survives_example :
    Returns (Finishes services) (invoke_graph services 25 "a" "Leave days?")
invoke_graph-survives_example =
    invoke_graph-survives services services-AreDependable 25 "a" "Leave days?" asked_example
      (omega arith)

wide_plan :
    HasStripped
      (record a_plan {
        filters = record { field = "page"; operator = op_in; values = "1" ∷ "2" ∷ [] } ∷ [];
      }).filters
unfolding strip is_space
wide_plan = (refl, tt)

to_metadata_filters-ok_example :
    (o : Option MetadataFilters) × (to_metadata_filters (record a_plan {
      filters = record { field = "page"; operator = op_in; values = "1" ∷ "2" ∷ [] } ∷ [];
    })
      ≡ ok o)
to_metadata_filters-ok_example =
    to_metadata_filters-ok
      (record a_plan {
        filters = record { field = "page"; operator = op_in; values = "1" ∷ "2" ∷ [] } ∷ [];
      })
      wide_plan
