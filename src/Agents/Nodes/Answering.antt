-- ===== src/Agents/Nodes/Answering.antt =====
-- app/agents/nodes: `AnswerGeneratorNode` and `CriticNode`.
use agentic_rag.Prelude.{
  String, Bool, true, false, ◌&&◌, some, [], ◌∷◌, ◌++◌, length, is_empty, select, if◌then◌else◌,
}
use agentic_rag.Prelude.Text.{strip, decimal, ◌<>◌}
use agentic_rag.Core.Exec.{Exec, pure, ◌>>=◌}
use agentic_rag.Agents.Context.{format_context, format_tool_results}
use agentic_rag.Agents.Models.{Critique, accepts}
use agentic_rag.Agents.Services.{Services, System, outside, rescue}
use agentic_rag.Agents.Nodes.Planning.{State, describe_or_absent}
use agentic_rag.Agents.Nodes.Tools.{is_ok}

module _ (V : Services) where
  -- neither a document nor a tool call that succeeded
  unfoldable pub has_no_grounds : State V → Bool
  has_no_grounds state = is_empty state.documents && is_empty (select is_ok state.tool_results)

  abbrev pub answered : State V → String → String → State V
  answered state answer step = record state {
    answer = answer;
    trace = state.trace ++ ("generator:" <> step) ∷ [];
  }

  abbrev pub no_context_answer : String
  no_context_answer =
      "I could not find anything in the indexed documents that answers this question."

  abbrev pub failed_answer : String
  failed_answer = "The answer could not be generated because the language model was unreachable."

  unfoldable pub generator_prompt : State V → String
  unfolding format_context format_tool_results
  generator_prompt state = V.render "answer_generator" (
      ("context", format_context state.documents V.settings.max_context_documents)
      ∷ ("tools", format_tool_results state.tool_results)
      ∷ ("memory", describe_or_absent state.memory)
      ∷ ("query", state.query)
      ∷ [])

  -- `AnswerGeneratorNode.__call__`
  unfoldable pub generator : State V → Exec (System V) (State V)
  unfolding has_no_grounds generator_prompt strip decimal
  generator state =
      if has_no_grounds state
      then pure (answered state no_context_answer "no_context")
      else rescue
          (outside V (V.complete (generator_prompt state) state.query) >>= λ answer.
            pure (answered state (strip answer) (decimal (length state.documents))))
          (pure (answered state failed_answer "failed"))

  abbrev pub judged : State V → Critique V.floats.Float → String → State V
  judged state c step = record state {
    critique = some c;
    trace = state.trace ++ ("critic:" <> step) ∷ [];
  }

  -- the verdict on an answer without any grounds
  abbrev pub no_context_critique : Critique V.floats.Float
  no_context_critique = record {
    sufficient_context = false;
    grounded = true;
    confidence = V.floats.unit;
    unsupported_claims = [];
    feedback =
        "Retrieval returned nothing. Broaden the search: drop metadata filters, raise top_k, or search with different terms.";
  }

  -- the verdict when the critic cannot run
  abbrev pub unavailable_critique : Critique V.floats.Float
  unavailable_critique = record {
    sufficient_context = true;
    grounded = true;
    confidence = V.floats.nil;
    unsupported_claims = [];
    feedback = "critic unavailable";
  }

  unfoldable pub critic_prompt : State V → String
  unfolding format_context format_tool_results
  critic_prompt state = V.render "critic" (
      ("query", state.query)
      ∷ ("context", format_context state.documents V.settings.max_context_documents)
      ∷ ("tools", format_tool_results state.tool_results)
      ∷ ("answer", state.answer)
      ∷ [])

  -- `CriticNode.__call__`
  unfoldable pub critic : State V → Exec (System V) (State V)
  unfolding has_no_grounds critic_prompt accepts
  critic state =
      if has_no_grounds state
      then pure (judged state no_context_critique "no_context")
      else rescue
          (outside V (V.critique (critic_prompt state) state.query) >>= λ c.
            pure (judged state c (if accepts V.floats V.floats.nil c then "accept" else "reject")))
          (pure (judged state unavailable_critique "failed"))
