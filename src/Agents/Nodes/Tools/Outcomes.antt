-- ===== src/Agents/Nodes/Tools/Outcomes.antt =====
-- No failure escapes the tool node: app/agents/nodes/tools.py.
use agentic_rag.Prelude.{
  ◌⊎◌, inl, inr, Bool-cases, ℕ, zero, suc, ◌≤◌, ◌≡◌, refl, ap, String, Bool, true, false, not, ◌||◌,
  List, [], ◌∷◌, map, length, is_empty, take, length-take, length-map, arith,
}
use agentic_rag.Prelude.Text.{strip, ◌<>◌}
use agentic_rag.Core.Errors.{Result, ok, raise}
use agentic_rag.Core.Exec.{Exec, pure, ◌>>=◌}
use agentic_rag.Core.Exec.Ensures.{Ensures, Ensures-pure, Ensures-after}
use agentic_rag.Core.Exec.Returns.{Returns, Returns-pure, Returns-if, Returns-bind, Returns-attempt}
use agentic_rag.Agents.Models.{PlannedToolCall}
use agentic_rag.Agents.State.{ToolResult}
use agentic_rag.Agents.Services.{Services, System, Tool}
use agentic_rag.Agents.Nodes.Planning.{State}
use agentic_rag.Agents.Nodes.Tools.{
  calls_of, good_result, failed_result, registry_get, run_tool, invoke_found, invoke_tool,
  invoke_all, tool_node, with_results,
}

abbrev pub called : ToolResult → String
called r = r.tool

abbrev pub wanted : PlannedToolCall → String
wanted call = strip call.tool

module _ (V : Services) where
  -- the result names the tool of the call
  abbrev pub Reports : PlannedToolCall → ToolResult → Type 0
  Reports call r = called r ≡ wanted call

  Reports-good :
      (call : PlannedToolCall) (output : String)
      → Ensures {S = System V} (Reports call) (pure (good_result call output))
  unfolding good_result
  Reports-good call output = Ensures-pure _ refl

  Reports-failed :
      (call : PlannedToolCall) (error : String)
      → Returns {S = System V} (Reports call) (pure (failed_result call error))
  unfolding failed_result
  Reports-failed call error = Returns-pure _ refl

  run_tool-Returns :
      (call : PlannedToolCall) (tool : Tool V.World) → Returns (Reports call) (run_tool V call tool)
  unfolding run_tool
  run_tool-Returns call tool = search (Returns-attempt, Ensures-after, Reports-good, Reports-failed)

  invoke_found-Returns :
      (call : PlannedToolCall) (r : Result (Tool V.World))
      → Returns (Reports call) (invoke_found V call r)
  unfolding invoke_found
  invoke_found-Returns call (raise x) = Reports-failed call ("Unknown tool: " <> call.tool)
  invoke_found-Returns call (ok tool) = run_tool-Returns call tool

  invoke_tool-Returns : (call : PlannedToolCall) → Returns (Reports call) (invoke_tool V call)
  unfolding invoke_tool
  invoke_tool-Returns call = invoke_found-Returns call (registry_get V call.tool)

  abbrev pub NamesAll : List PlannedToolCall → List ToolResult → Type 0
  NamesAll calls results = map called results ≡ map wanted calls

  Reports-more :
      (call : PlannedToolCall) (calls : List PlannedToolCall) (r : ToolResult)
      (rs : List ToolResult)
      → Reports call r
      → NamesAll calls rs
      → Returns {S = System V} (NamesAll (call ∷ calls)) (pure (r ∷ rs))
  Reports-more call calls r rs named named_all = Returns-pure _ (cc (named, named_all))

  invoke_all-Returns :
      (calls : List PlannedToolCall) → Returns (NamesAll calls) (invoke_all V calls)
  unfolding invoke_all
  invoke_all-Returns [] = Returns-pure _ refl
  invoke_all-Returns (call ∷ calls) =
      Returns-bind (Reports call) (invoke_tool V call)
        (λ result. (invoke_all V calls >>= λ results. pure (result ∷ results)))
        (invoke_tool-Returns call)
        (λ r named.
          Returns-bind (NamesAll calls) (invoke_all V calls) (λ results. pure (r ∷ results))
            (invoke_all-Returns calls)
            (λ rs named_all. Reports-more call calls r rs named named_all))

  abbrev pub Outcomes : State V → State V → Type 0
  Outcomes state after =
      (length after.tool_results ≤ V.settings.max_calls_per_turn)
      × (V.settings.tools_enabled ≡ true
          → map called after.tool_results
            ≡ map wanted (take V.settings.max_calls_per_turn (calls_of state.plan)))

  skipped :
      (enabled : Bool) (n : ℕ) (calls : List PlannedToolCall)
      → (not enabled || is_empty calls) ≡ true
      → enabled ≡ true
      → [] ≡ map wanted (take n calls)
  skipped true n (call ∷ calls) skip on = absurd (cc skip)
  skipped true zero [] skip on = refl
  skipped true (suc n) [] skip on = refl
  skipped false n calls skip on = absurd (cc on)

  within :
      (n : ℕ) (calls : List PlannedToolCall) (results : List ToolResult)
      → map called results ≡ map wanted (take n calls)
      → length results ≤ n
  within n calls results named = omega (
    arith,
    length-map called results,
    length-map wanted (take n calls),
    ap length named,
    length-take n calls,
  )

  leave :
      (state : State V) (step : String)
      → (not V.settings.tools_enabled || is_empty (calls_of state.plan)) ≡ true
      → Returns {S = System V} (Outcomes state) (pure (with_results V state [] step))
  leave state step skip = Returns-pure _ (
    omega arith,
    skipped V.settings.tools_enabled V.settings.max_calls_per_turn (calls_of state.plan) skip,
  )

  keep :
      (state : State V) (results : List ToolResult) (step : String)
      → NamesAll (take V.settings.max_calls_per_turn (calls_of state.plan)) results
      → Returns {S = System V} (Outcomes state) (pure (with_results V state results step))
  keep state results step named =
      Returns-pure _
        (within V.settings.max_calls_per_turn (calls_of state.plan) results named, λ on. named)

  after_all :
      {B : Type 0} {Q : B → Type 0} (calls : List PlannedToolCall)
      (f : List ToolResult → Exec (System V) B)
      → ((results : List ToolResult) → NamesAll calls results → Returns Q (f results))
      → Returns Q (invoke_all V calls >>= f)
  after_all calls f h =
      Returns-bind (NamesAll calls) (invoke_all V calls) f (invoke_all-Returns calls) h

  node-Returns : (state : State V) → Returns (Outcomes state) (tool_node V state)
  unfolding tool_node
  node-Returns state = search (Returns-if, leave, keep, after_all) depth 9

  -- The tool node never raises, whatever a tool does. With tools on it writes one result for each of
  -- the first `max_calls_per_turn` planned calls, in the order of the calls. With tools off it runs
  -- none of them: it writes no result and leaves the memory and the world as they are.
  pub tool_node-Returns :
      (state : State V)
      → Returns (Outcomes state) (tool_node V state)
        × ((V.settings.tools_enabled ≡ true)
            ⊎ ((s : System V) → tool_node V state s ≡ (ok (with_results V state [] "skipped"), s)))
  unfolding tool_node
  tool_node-Returns state = (
    node-Returns state,
    elim (Bool-cases V.settings.tools_enabled) [
      | inl on ↦ inl on
      | inr off ↦ inr (λ s. rw (off, tool_node) refl)
    ],
  )
