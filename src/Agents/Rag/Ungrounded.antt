-- ===== src/Agents/Rag/Ungrounded.antt =====
-- A run that found nothing is never cached: app/agents/rag.py with app/cache/gateway.py.
use agentic_rag.Prelude.{
  ℕ, ◌+◌, ◌*◌, ◌≤◌, ◌≡◌, refl, sym, ap, ◌∙◌, subst, String, true, false, some,
}
use agentic_rag.Prelude.Text.{is_blank, is_space, strip}
use agentic_rag.Core.Errors.{ok}
use agentic_rag.Cache.Gateway.{insufficient_context, refuse}
use agentic_rag.Agents.Services.{Services, System}
use agentic_rag.Agents.Nodes.Planning.{State}
use agentic_rag.Agents.Nodes.Answering.{has_no_grounds, no_context_answer, no_context_critique}
use agentic_rag.Agents.Graph.{invoke_graph}
use agentic_rag.Agents.Graph.Policy.{HasVerdict, invoke_graph-Finishes}
use agentic_rag.Agents.Rag.{critique_summary, metadata}

module _ (V : Services) where
  refusal-said : is_blank (strip (no_context_answer V)) ≡ false
  unfolding strip is_space
  refusal-said = refl

  HasVerdict-refused :
      (min_confidence : V.floats.Float) (s : State V)
      → HasVerdict V s
      → has_no_grounds V s ≡ true
      → refuse V.floats min_confidence s.answer (metadata s) ≡ some insufficient_context
  unfolding refuse metadata critique_summary
  HasVerdict-refused min_confidence s h bare =
      let verdict : s.critique ≡ some (no_context_critique V) = h.is_in ∙ ap some (h.bare bare) in
      let answer : s.answer ≡ no_context_answer V = h.refuses bare in
      rw (answer, refusal-said, verdict) refl

  -- When a run under a sufficient limit returns a state without a document and without a
  -- successful tool call, the gateway's rule refuses its answer for insufficient context,
  -- whatever the least confidence is: a failed search is never answered from the cache later.
  pub ungrounded_run-refused :
      (limit : ℕ) (session_id query : String) (before : System V) (s : State V)
      (min_confidence : V.floats.Float)
      → 8 + 5 * V.settings.max_revisions ≤ limit
      → (invoke_graph V limit session_id query before).0 ≡ ok (some s)
      → has_no_grounds V s ≡ true
      → refuse V.floats min_confidence s.answer (metadata s) ≡ some insufficient_context
  ungrounded_run-refused limit session_id query before s min_confidence enough done bare =
      let (t, e, h) =
        (invoke_graph-Finishes V limit session_id query enough).at before (some s) done in
      let same : t ≡ s = sym (cc e) in
      HasVerdict-refused min_confidence s (subst (HasVerdict V) same h) bare
