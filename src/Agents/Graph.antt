-- ===== src/Agents/Graph.antt =====
-- app/agents/graph.py: the compiled graph. The engine runs one node at a time, for a bounded number of steps.
pub mod Writes
pub mod Policy
pub mod Outage
use agentic_rag.Prelude.{
  ℕ, zero, suc, String, Bool, true, false, not, ◌&&◌, ◌||◌, Option, none, some, ltb, if◌then◌else◌,
}
use agentic_rag.Core.Exec.{Exec, pure, ◌>>=◌}
use agentic_rag.Agents.Models.{RetrievalPlan, Critique, wants_tools, accepts}
use agentic_rag.Agents.State.{RagState, initial_state}
use agentic_rag.Agents.Services.{Services, System}
use agentic_rag.Agents.Nodes.Planning.{State, analyzer, planner, retriever}
use agentic_rag.Agents.Nodes.Tools.{tool_node}
use agentic_rag.Agents.Nodes.Answering.{generator, critic}
use agentic_rag.Agents.Nodes.Memory.{memory_loader, memory_writer}

-- the names of the nodes, and `END`
pub data Stage : Type 0 where
  at_loader at_analyzer at_planner at_tools at_retriever at_generator at_critic at_writer at_end :
      Stage

abbrev pub is_end : Stage → Bool
is_end at_end = true
is_end _ = false

abbrev pub retrieval_stage : Bool → Stage
retrieval_stage needed = if needed then at_retriever else at_generator

-- `_plan_router`
unfoldable pub plan_router : Option RetrievalPlan → Stage
unfolding wants_tools
plan_router none = at_retriever
plan_router (some plan) =
    if wants_tools plan then at_tools else retrieval_stage plan.retrieval_needed

-- `_after_tools_router`
unfoldable pub after_tools_router : Option RetrievalPlan → Stage
after_tools_router none = at_retriever
after_tools_router (some plan) = retrieval_stage plan.retrieval_needed

module _ (V : Services) where
  -- `_critic_router`
  unfoldable pub critic_router : Option (Critique V.floats.Float) → ℕ → Stage
  unfolding accepts
  critic_router none revisions = at_writer
  critic_router (some c) revisions =
      if accepts V.floats V.settings.min_confidence c
      then at_writer
      else if not c.sufficient_context && ltb revisions V.settings.max_revisions
      then at_planner
      else at_writer

  -- the edges of `build_rag_graph`
  unfoldable pub next : Stage → State V → Stage
  unfolding plan_router after_tools_router critic_router
  next at_loader state = at_analyzer
  next at_analyzer state = at_planner
  next at_planner state = plan_router state.plan
  next at_tools state = after_tools_router state.plan
  next at_retriever state = at_generator
  next at_generator state = at_critic
  next at_critic state = critic_router state.critique state.revisions
  next at_writer state = at_end
  next at_end state = at_end

  -- the nodes of `build_rag_graph`
  unfoldable pub node : Stage → State V → Exec (System V) (State V)
  unfolding memory_loader analyzer planner tool_node retriever generator critic memory_writer
  node at_loader state = memory_loader V state
  node at_analyzer state = analyzer V state
  node at_planner state = planner V state
  node at_tools state = tool_node V state
  node at_retriever state = retriever V state
  node at_generator state = generator V state
  node at_critic state = critic V state
  node at_writer state = memory_writer V state
  node at_end state = pure state

  -- the engine's loop under a limit on the steps; `none` is its error at the limit
  unfoldable pub run : ℕ → Stage → State V → Exec (System V) (Option (State V))
  unfolding node next
  run zero stage state = pure (if is_end stage then some state else none)
  run (suc limit) stage state =
      if is_end stage
      then pure (some state)
      else node stage state >>= λ state'. run limit (next stage state') state'

  -- `graph.ainvoke(initial_state(session_id, query))`
  unfoldable pub invoke_graph : ℕ → String → String → Exec (System V) (Option (State V))
  unfolding run initial_state
  invoke_graph limit session_id query = run limit at_loader (initial_state session_id query)
