-- ===== src/Agents/Graph/Writes.antt =====
-- What each node of app/agents/nodes leaves alone and what it writes.
use agentic_rag.Prelude.{
  ℕ, ◌+◌, ◌≡◌, refl, sym, ap, String, Bool, true, false, Option, none, some, List, if◌then◌else◌,
}
use agentic_rag.Core.Errors.{Exc, dependency_error, Result, ok, raise}
use agentic_rag.Core.Exec.{Exec, pure}
use agentic_rag.Core.Exec.Ensures.{
  Ensures, Ensures-if, Ensures-pure, Ensures-after, Ensures-attempt,
}
use agentic_rag.Agents.Models.{Critique}
use agentic_rag.Agents.Services.{Services, System, on_dependency, rescue}
use agentic_rag.Agents.Nodes.Planning.{
  State, analyzer, planner, retriever, retrieve, planned, is_retry, search_with,
}
use agentic_rag.Agents.Nodes.Tools.{tool_node}
use agentic_rag.Agents.Nodes.Answering.{
  generator, critic, answered, judged, has_no_grounds, no_context_answer, no_context_critique,
}
use agentic_rag.Agents.Nodes.Memory.{memory_loader, memory_writer, wrote, write_exchange}

module _ {S A : Type 0} {P : A → Type 0} where
  on_dependency-Ensures :
      (fallback : Exec S A) (x : Exc) → Ensures P fallback → Ensures P (on_dependency fallback x)
  on_dependency-Ensures fallback x h = record { at = λ s a e. go x s a e }
    where
      go : (y : Exc) (s : S) (a : A) → (on_dependency fallback y s).0 ≡ ok a → P a
      go dependency_error s a e = h.at s a e
      go _ s a e = absurd (cc e)

  pub Ensures-rescue :
      (m fallback : Exec S A) → Ensures P m → Ensures P fallback → Ensures P (rescue m fallback)
  Ensures-rescue m fallback hm hf =
      Ensures-attempt m (on_dependency fallback) hm (λ x. on_dependency-Ensures fallback x hf)

clash : {X : Type 0} {b : Bool} → b ≡ true → b ≡ false → X
clash p q = absurd (cc (p, q))

module _ (V : Services) where
  abbrev pub Keeps : State V → State V → Type 0
  Keeps s s' = (s'.revisions ≡ s.revisions) × (s'.critique ≡ s.critique)

  pub analyzer-Keeps : (s : State V) → Ensures (Keeps s) (analyzer V s)
  unfolding analyzer
  analyzer-Keeps s = search (Ensures-rescue, Ensures-after, Ensures-pure)

  abbrev revisions_in : State V → Result (State V) → ℕ
  revisions_in s (ok a) = a.revisions
  revisions_in s (raise x) = s.revisions

  abbrev critique_in : State V → Result (State V) → Option (Critique V.floats.Float)
  critique_in s (ok a) = a.critique
  critique_in s (raise x) = s.critique

  pub memory_loader-Keeps : (s : State V) → Ensures (Keeps s) (memory_loader V s)
  unfolding memory_loader
  memory_loader-Keeps s =
      Ensures-if V.settings.memory_enabled _ _
        (λ on. record {
          at = λ t a e. (
            ap (λ (r : Result (State V)). revisions_in s r) (sym e),
            ap (λ (r : Result (State V)). critique_in s r) (sym e),
          );
        })
        (λ off. Ensures-pure _ (refl, refl))

  pub tool_node-Keeps : (s : State V) → Ensures (Keeps s) (tool_node V s)
  unfolding tool_node
  tool_node-Keeps s = search (Ensures-if, Ensures-after, Ensures-pure)

  retrieve-Keeps : (s : State V) (plan : _) → Ensures (Keeps s) (retrieve V s plan)
  unfolding retrieve search_with
  retrieve-Keeps s none = search (Ensures-pure)
  retrieve-Keeps s (some plan) =
      search (Ensures-if, Ensures-after, Ensures-pure, Ensures-rescue) depth 9

  pub retriever-Keeps : (s : State V) → Ensures (Keeps s) (retriever V s)
  unfolding retriever
  retriever-Keeps s = retrieve-Keeps s s.plan

  -- the planner counts an attempt that follows a verdict, and leaves the verdict
  pub planner-counts :
      (s : State V)
      → Ensures
          (λ s'. (s'.revisions ≡ (if is_retry s.critique then s.revisions + 1 else s.revisions)))
          (planner V s)
  unfolding planner planned
  planner-counts s = search (Ensures-after, Ensures-pure)

  -- an answer without grounds is the refusal
  abbrev pub Refuses : State V → Type 0
  Refuses s = has_no_grounds V s ≡ true → s.answer ≡ no_context_answer V

  abbrev pub Generates : State V → State V → Type 0
  Generates s s' = (s'.revisions ≡ s.revisions) × Refuses s'

  generated :
      (s : State V) (answer step : String)
      → has_no_grounds V s ≡ false
      → Ensures {S = System V} (Generates s) (pure (answered V s answer step))
  unfolding has_no_grounds
  generated s answer step grounds = Ensures-pure _ (refl, λ h. clash h grounds)

  refused :
      (s : State V) (step : String)
      → Ensures {S = System V} (Generates s) (pure (answered V s (no_context_answer V) step))
  refused s step = Ensures-pure _ (refl, λ h. refl)

  pub generator-Refuses : (s : State V) → Ensures (Generates s) (generator V s)
  unfolding generator
  generator-Refuses s =
      search (Ensures-if, Ensures-rescue, Ensures-after, generated, refused) depth 9

  -- the critic leaves the answer and writes a verdict, which is fixed where there are no grounds
  abbrev pub Judges : State V → State V → Type 0
  Judges s s' =
      (s'.revisions ≡ s.revisions)
      × (Refuses s → Refuses s')
      × ((c : Critique V.floats.Float) × (s'.critique ≡ some c)
          × (has_no_grounds V s' ≡ true → c ≡ no_context_critique V))

  judged_grounded :
      (s : State V) (c : Critique V.floats.Float) (step : String)
      → has_no_grounds V s ≡ false
      → Ensures {S = System V} (Judges s) (pure (judged V s c step))
  unfolding has_no_grounds
  judged_grounded s c step grounds = Ensures-pure _ (refl, λ r. r, (c, refl, λ h. clash h grounds))

  judged_bare :
      (s : State V) (step : String)
      → Ensures {S = System V} (Judges s) (pure (judged V s (no_context_critique V) step))
  unfolding has_no_grounds
  judged_bare s step = Ensures-pure _ (refl, λ r. r, (no_context_critique V, refl, λ h. refl))

  pub critic-Judges : (s : State V) → Ensures (Judges s) (critic V s)
  unfolding critic
  critic-Judges s =
      search (Ensures-if, Ensures-rescue, Ensures-after, judged_grounded, judged_bare) depth 9

  -- the writer changes nothing but the trace
  abbrev pub Traced : State V → State V → Type 0
  Traced s s' = (t : List String) × (s' ≡ record s { trace = t })

  written :
      (s : State V) (step : String) → Ensures {S = System V} (Traced s) (pure (wrote V s step))
  written s step = Ensures-pure _ (_, refl)

  pub memory_writer-Traced : (s : State V) → Ensures (Traced s) (memory_writer V s)
  unfolding memory_writer write_exchange
  memory_writer-Traced s = search (Ensures-if, Ensures-attempt, Ensures-after, written) depth 9
