-- ===== src/Agents/Nodes/Tools.antt =====
-- app/agents/nodes/tools.py: `ToolNode`, over the registry of app/tools/base.py.
pub mod Outcomes
use agentic_rag.Prelude.{
  ℕ, String, Bool, true, false, not, ◌||◌, Option, none, some, List, [], ◌∷◌, ◌++◌, length,
  is_empty, take, select, if◌then◌else◌,
}
use agentic_rag.Prelude.Text.{string_discrete, strip, decimal, ◌<>◌}
use agentic_rag.Dict.{get}
use agentic_rag.Core.Errors.{Exc, Result, ok, raise, timeout_error, tool_error, not_found_error}
use agentic_rag.Core.Exec.{Exec, pure, fail, attempt, ◌>>=◌}
use agentic_rag.Agents.Models.{PlannedToolCall, RetrievalPlan}
use agentic_rag.Agents.State.{RagState, ToolResult}
use agentic_rag.Agents.Services.{Services, System, Tool, outside}
use agentic_rag.Agents.Nodes.Planning.{State}

-- `ToolResult(tool=…, input=…, ok=False, error=…)`
unfoldable pub failed_result : PlannedToolCall → String → ToolResult
unfolding strip
failed_result call error = record {
  tool = strip call.tool;
  input = strip call.input;
  output = "";
  ok = false;
  error = strip error;
}

unfoldable pub good_result : PlannedToolCall → String → ToolResult
unfolding strip
good_result call output = record {
  tool = strip call.tool;
  input = strip call.input;
  output = strip output;
  ok = true;
  error = "";
}

abbrev pub calls_of : Option RetrievalPlan → List PlannedToolCall
calls_of none = []
calls_of (some plan) = plan.tool_calls

abbrev pub is_ok : ToolResult → Bool
is_ok r = r.ok

module _ (V : Services) where
  -- the three handlers of the run, in order
  unfoldable pub error_of_run : Exc → String
  error_of_run timeout_error = "Tool did not finish in time"
  error_of_run tool_error = V.error_text tool_error
  error_of_run x = V.error_name x <> ": " <> V.error_text x

  -- `ToolRegistry.get`
  unfoldable pub registry_get : String → Result (Tool V.World)
  unfolding get
  registry_get name = elim (get string_discrete name V.tools) [
    | none ↦ raise not_found_error
    | some tool ↦ ok tool
  ]

  unfoldable pub run_tool : PlannedToolCall → Tool V.World → Exec (System V) ToolResult
  unfolding failed_result good_result error_of_run
  run_tool call tool =
      attempt (outside V (tool.execute call.input) >>= λ output. pure (good_result call output))
        (λ x. pure (failed_result call (error_of_run x)))

  -- `_invoke`, given what the registry returned
  unfoldable pub invoke_found : PlannedToolCall → Result (Tool V.World) → Exec (System V) ToolResult
  unfolding run_tool failed_result
  invoke_found call (raise x) = pure (failed_result call ("Unknown tool: " <> call.tool))
  invoke_found call (ok tool) = run_tool call tool

  unfoldable pub invoke_tool : PlannedToolCall → Exec (System V) ToolResult
  unfolding registry_get invoke_found
  invoke_tool call = invoke_found call (registry_get call.tool)

  unfoldable pub invoke_all : List PlannedToolCall → Exec (System V) (List ToolResult)
  unfolding invoke_tool
  invoke_all [] = pure []
  invoke_all (call ∷ calls) =
      invoke_tool call >>= λ result. (invoke_all calls >>= λ results. pure (result ∷ results))

  abbrev pub with_results : State V → List ToolResult → String → State V
  with_results state results step = record state {
    tool_results = results;
    trace = state.trace ++ ("tools:" <> step) ∷ [];
  }

  -- `ToolNode.__call__`
  unfoldable pub tool_node : State V → Exec (System V) (State V)
  unfolding invoke_all decimal
  tool_node state =
      let calls = calls_of state.plan in
      if not V.settings.tools_enabled || is_empty calls
      then pure (with_results state [] "skipped")
      else invoke_all (take V.settings.max_calls_per_turn calls) >>= λ results. pure (
          with_results state results
            (decimal (length (select is_ok results)) <> "/" <> decimal (length results)))
