-- ===== src/Agents/Graph/Policy.antt =====
-- The loop of app/agents/graph.py: every run ends, within a number of steps and with a verdict.
use agentic_rag.Prelude.{
  ℕ, zero, suc, ◌+◌, ◌*◌, ◌-◌, ◌≤◌, ◌<◌, ◌≡◌, ◌⊎◌, inl, inr, refl, sym, ap, ◌∙◌, subst, String,
  true, false, Option, none, some, Bool-cases, arith, ltb, if◌then◌else◌,
}
use agentic_rag.Core.Exec.Ensures.{Ensures, Ensures-pure, Ensures-bind, Ensures-weaken}
use agentic_rag.Agents.Models.{Critique, RetrievalPlan, accepts, wants_tools}
use agentic_rag.Agents.State.{initial_state}
use agentic_rag.Agents.Services.{Services}
use agentic_rag.Agents.Nodes.Planning.{State, is_retry}
use agentic_rag.Agents.Nodes.Answering.{has_no_grounds, no_context_critique}
use agentic_rag.Agents.Graph.{
  Stage, at_loader, at_analyzer, at_planner, at_tools, at_retriever, at_generator, at_critic,
  at_writer, at_end, is_end, plan_router, after_tools_router, critic_router, next, node, run,
  invoke_graph,
}
use agentic_rag.Agents.Graph.Writes.{
  Keeps, Refuses, Judges, Traced, Generates, analyzer-Keeps, memory_loader-Keeps, tool_node-Keeps,
  retriever-Keeps, planner-counts, generator-Refuses, critic-Judges, memory_writer-Traced,
}

-- the attempts that a planner's run would make it
abbrev pub attempts : {A : Type 0} → Option A → ℕ → ℕ
attempts none revisions = revisions
attempts (some c) revisions = suc revisions

counted_attempts :
    {A : Type 0} (o : Option A) (revisions : ℕ)
    → (if is_retry o then revisions + 1 else revisions) ≡ attempts o revisions
counted_attempts none revisions = refl
counted_attempts (some c) revisions = omega arith

-- the steps of a round, from each stage to the critic, and of the stages before and after
abbrev pub steps_of : Stage → ℕ
steps_of at_loader = 8
steps_of at_analyzer = 7
steps_of at_planner = 6
steps_of at_tools = 5
steps_of at_retriever = 4
steps_of at_generator = 3
steps_of at_critic = 2
steps_of at_writer = 1
steps_of at_end = 0

module _ (V : Services) where
  -- the rounds that the critic may still ask for
  abbrev pub rounds : Stage → State V → ℕ
  rounds at_planner s = V.settings.max_revisions - attempts s.critique s.revisions
  rounds at_writer s = 0
  rounds at_end s = 0
  rounds _ s = V.settings.max_revisions - s.revisions

  abbrev pub cost : Stage → State V → ℕ
  cost stage s = steps_of stage + 5 * rounds stage s

  -- the critic accepted, or the context was there, or no revision is left
  abbrev pub Settled : Critique V.floats.Float → ℕ → Type 0
  Settled c revisions =
      (accepts V.floats V.settings.min_confidence c ≡ true)
      ⊎ ((c.sufficient_context ≡ true) ⊎ (revisions ≡ V.settings.max_revisions))

  pub record HasVerdict (s : State V) : Type 0 where
    pub verdict : Critique V.floats.Float
    pub is_in : s.critique ≡ some verdict
    pub bounded : s.revisions ≤ V.settings.max_revisions
    pub settled : Settled verdict s.revisions
    pub refuses : Refuses V s
    pub bare : has_no_grounds V s ≡ true → verdict ≡ no_context_critique V

  -- what holds when the engine is about to run a stage
  abbrev pub IsReady : Stage → State V → Type 0
  IsReady at_loader s = (s.revisions ≤ V.settings.max_revisions) × (s.critique ≡ none)
  IsReady at_analyzer s = (s.revisions ≤ V.settings.max_revisions) × (s.critique ≡ none)
  IsReady at_planner s = attempts s.critique s.revisions ≤ V.settings.max_revisions
  IsReady at_critic s = (s.revisions ≤ V.settings.max_revisions) × Refuses V s
  IsReady at_writer s = HasVerdict s
  IsReady at_end s = HasVerdict s
  IsReady _ s = s.revisions ≤ V.settings.max_revisions

  -- what a step of a stage must lead to
  abbrev pub Advances : Stage → State V → State V → Type 0
  Advances stage s s' = IsReady (next V stage s') s' × (cost (next V stage s') s' < cost stage s)

  loader-Advances : (s s' : State V) → IsReady at_loader s → Keeps V s s' → Advances at_loader s s'
  unfolding next
  loader-Advances s s' (bounded, fresh) (same, kept) = (ground (arith), ground (arith))

  analyzer-Advances :
      (s s' : State V) → IsReady at_analyzer s → Keeps V s s' → Advances at_analyzer s s'
  unfolding next
  analyzer-Advances s s' (bounded, fresh) (same, kept) =
      let free : s'.critique ≡ none = kept ∙ fresh in
      let start : attempts s'.critique s'.revisions ≡ s.revisions = rw (free, attempts) same in
      (omega (arith, start, bounded), omega (arith, start, bounded))

  -- after the planner the run is somewhere before the critic
  route-Advances :
      (o : Option RetrievalPlan) (s : State V)
      → s.revisions ≤ V.settings.max_revisions
      → IsReady (plan_router o) s
        × (cost (plan_router o) s < 6 + 5 * (V.settings.max_revisions - s.revisions))
  unfolding plan_router
  route-Advances none s bounded = (bounded, omega arith)
  route-Advances (some plan) s bounded = elim (Bool-cases (wants_tools plan)) [
    | inl wanted ↦ rw (wanted, plan_router) (bounded, omega arith)
    | inr unwanted ↦ elim (Bool-cases plan.retrieval_needed) [
      | inl needed ↦ rw (unwanted, plan_router) (rw needed (bounded, omega arith))
      | inr spared ↦ rw (unwanted, plan_router) (rw spared (bounded, omega arith))
    ]
  ]

  planner-Advances :
      (s s' : State V)
      → IsReady at_planner s
      → s'.revisions ≡ (if is_retry s.critique then s.revisions + 1 else s.revisions)
      → Advances at_planner s s'
  unfolding next
  planner-Advances s s' ready counted =
      let now : s'.revisions ≡ attempts s.critique s.revisions =
        counted ∙ counted_attempts s.critique s.revisions in
      let (ready', cheaper) = route-Advances s'.plan s' (omega (arith, now, ready)) in
      (ready', omega (arith, cheaper, now, ready))

  after_tools-Advances :
      (o : Option RetrievalPlan) (s : State V)
      → s.revisions ≤ V.settings.max_revisions
      → IsReady (after_tools_router o) s
        × (cost (after_tools_router o) s < 5 + 5 * (V.settings.max_revisions - s.revisions))
  unfolding after_tools_router
  after_tools-Advances none s bounded = (bounded, omega arith)
  after_tools-Advances (some plan) s bounded = elim (Bool-cases plan.retrieval_needed) [
    | inl needed ↦ rw needed (bounded, omega arith)
    | inr spared ↦ rw spared (bounded, omega arith)
  ]

  tools-Advances : (s s' : State V) → IsReady at_tools s → Keeps V s s' → Advances at_tools s s'
  unfolding next
  tools-Advances s s' bounded (same, kept) =
      let (ready', cheaper) = after_tools-Advances s'.plan s' (omega (arith, same, bounded)) in
      (ready', omega (arith, cheaper, same))

  retriever-Advances :
      (s s' : State V) → IsReady at_retriever s → Keeps V s s' → Advances at_retriever s s'
  unfolding next
  retriever-Advances s s' bounded (same, kept) = (omega (arith, same, bounded), omega (arith, same))

  generator-Advances :
      (s s' : State V) → IsReady at_generator s → Generates V s s' → Advances at_generator s s'
  unfolding next
  generator-Advances s s' bounded (same, refuses) =
      ((omega (arith, same, bounded), refuses), omega (arith, same))

  -- the three outcomes of the router
  critic_router-Advances :
      (s : State V) (c : Critique V.floats.Float)
      → s.critique ≡ some c
      → s.revisions ≤ V.settings.max_revisions
      → Refuses V s
      → (has_no_grounds V s ≡ true → c ≡ no_context_critique V)
      → IsReady (critic_router V (some c) s.revisions) s
        × (cost (critic_router V (some c) s.revisions) s
            < 2 + 5 * (V.settings.max_revisions - s.revisions))
  unfolding critic_router
  critic_router-Advances s c is_in bounded refuses bare =
      let ending : Settled c s.revisions → HasVerdict s = λ settled. record {
        verdict = c;
        is_in = is_in;
        bounded = bounded;
        settled = settled;
        refuses = refuses;
        bare = bare;
      } in
      let again : attempts s.critique s.revisions ≡ suc s.revisions =
        ap (λ (o : Option (Critique V.floats.Float)). attempts o s.revisions) is_in in
      elim (Bool-cases (accepts V.floats V.settings.min_confidence c)) [
        | inl accepted ↦ rw (accepted, critic_router) (ending (inl accepted), omega arith)
        | inr rejected ↦ elim (Bool-cases c.sufficient_context) [
          | inl enough ↦
              rw (rejected, critic_router) (rw enough (ending (inr (inl enough)), omega arith))
          | inr scant ↦ elim (Bool-cases (ltb s.revisions V.settings.max_revisions)) [
            | inl more ↦
                rw (rejected, critic_router)
                  (rw (scant, more) (ground (arith, again, more), ground (arith, again, more)))
            | inr spent ↦
                rw (rejected, critic_router)
                  (rw (scant, spent) (ending (inr (inr (ground arith))), omega arith))
          ]
        ]
      ]

  critic-Advances : (s s' : State V) → IsReady at_critic s → Judges V s s' → Advances at_critic s s'
  unfolding next
  critic-Advances s s' (bounded, refuses) (same, kept, (c, is_in, bare)) =
      let (ready', cheaper) =
        critic_router-Advances s' c is_in (omega (arith, same, bounded)) (kept refuses) bare in
      subst
        (λ (o : Option (Critique V.floats.Float)).
          IsReady (critic_router V o s'.revisions) s'
          × (cost (critic_router V o s'.revisions) s'
              < 2 + 5 * (V.settings.max_revisions - s.revisions)))
        (sym is_in) (ready', omega (arith, cheaper, same))

  writer-Advances : (s s' : State V) → IsReady at_writer s → Traced V s s' → Advances at_writer s s'
  unfolding next has_no_grounds
  writer-Advances s s' h (t, same) =
      subst (λ (r : State V). HasVerdict r × (0 < 1)) (sym same)
        (
          record {
            verdict = h.verdict;
            is_in = h.is_in;
            bounded = h.bounded;
            settled = h.settled;
            refuses = h.refuses;
            bare = h.bare;
          },
          omega arith,
        )

  node-Advances :
      (stage : Stage) (s : State V)
      → is_end stage ≡ false
      → IsReady stage s
      → Ensures (Advances stage s) (node V stage s)
  unfolding node
  node-Advances at_loader s _ h =
      Ensures-weaken _ (memory_loader-Keeps V s) (λ s'. loader-Advances s s' h)
  node-Advances at_analyzer s _ h =
      Ensures-weaken _ (analyzer-Keeps V s) (λ s'. analyzer-Advances s s' h)
  node-Advances at_planner s _ h =
      Ensures-weaken _ (planner-counts V s) (λ s'. planner-Advances s s' h)
  node-Advances at_tools s _ h =
      Ensures-weaken _ (tool_node-Keeps V s) (λ s'. tools-Advances s s' h)
  node-Advances at_retriever s _ h =
      Ensures-weaken _ (retriever-Keeps V s) (λ s'. retriever-Advances s s' h)
  node-Advances at_generator s _ h =
      Ensures-weaken _ (generator-Refuses V s) (λ s'. generator-Advances s s' h)
  node-Advances at_critic s _ h =
      Ensures-weaken _ (critic-Judges V s) (λ s'. critic-Advances s s' h)
  node-Advances at_writer s _ h =
      Ensures-weaken _ (memory_writer-Traced V s) (λ s'. writer-Advances s s' h)
  node-Advances at_end s going h = absurd (cc going)

  -- the run came to the end, in a state with a verdict
  abbrev pub Finishes : Option (State V) → Type 0
  Finishes o = (s : State V) × (o ≡ some s) × HasVerdict s

  ready_at_end :
      (stage : Stage) (s : State V) → is_end stage ≡ true → IsReady stage s → HasVerdict s
  ready_at_end at_end s e h = h
  ready_at_end _ s e h = absurd (cc e)

  no_steps : (stage : Stage) (s : State V) → cost stage s ≤ 0 → is_end stage ≡ true
  no_steps at_end s h = refl
  no_steps _ s h = absurd (omega arith)

  run-Finishes :
      (limit : ℕ) (stage : Stage) (s : State V)
      → IsReady stage s
      → cost stage s ≤ limit
      → Ensures Finishes (run V limit stage s)
  unfolding run
  run-Finishes zero stage s h enough =
      let ended = no_steps stage s enough in
      rw (ended, run) (Ensures-pure _ (s, refl, ready_at_end stage s ended h))
  run-Finishes (suc limit) stage s h enough = elim (Bool-cases (is_end stage)) [
    | inl ended ↦ rw (ended, run) (Ensures-pure _ (s, refl, ready_at_end stage s ended h))
    | inr going ↦
        rw (going, run)
          (Ensures-bind (Advances stage s) (node V stage s) (λ s'. run V limit (next V stage s') s')
            (node-Advances stage s going h)
            (λ s' (ready', cheaper).
              run-Finishes limit (next V stage s') s' ready' (omega (arith, cheaper, enough))))
  ]

  -- A run of the graph under a limit of at least 8 + 5 * `max_revisions` steps never reaches the
  -- limit: unless a service raises an error that its node does not handle, it comes to the end with
  -- a verdict, after at most `max_revisions` revisions. The verdict is an accepting one, or one that
  -- found the context sufficient, or no revision was left. And a run that ends without a document
  -- and without a successful tool call answers with the refusal, under the verdict of insufficient context.
  pub invoke_graph-Finishes :
      (limit : ℕ) (session_id query : String)
      → 8 + 5 * V.settings.max_revisions ≤ limit
      → Ensures Finishes (invoke_graph V limit session_id query)
  unfolding invoke_graph initial_state
  invoke_graph-Finishes limit session_id query enough =
      run-Finishes limit at_loader (initial_state session_id query) (omega arith, refl)
        (omega (arith, enough))
