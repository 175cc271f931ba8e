-- ===== src/Agents/Graph/Outage.antt =====
-- An outage of the services does not end a run: app/agents/nodes and app/agents/graph.py.
use agentic_rag.Prelude.{
  ℕ, zero, suc, ◌+◌, ◌*◌, ◌≤◌, ◌≡◌, inl, inr, refl, sym, ap, subst, String, false, not, ◌||◌,
  Option, none, some, Bool-cases,
}
use agentic_rag.Prelude.Text.{is_blank, strip, or_else}
use agentic_rag.Core.Errors.{Result, ok, raise}
use agentic_rag.Core.Exec.{Exec, pure, attempt, ◌>>=◌}
use agentic_rag.Core.Exec.Ensures.{
  Ensures, Ensures-pure, Ensures-after, Ensures-any, Ensures-if, Ensures-weaken,
}
use agentic_rag.Core.Exec.Returns.{
  Returns, Returns-pure, Returns-if, Returns-bind, Returns-attempt, Returns-weaken, Returns-Ensures,
}
use agentic_rag.Retrieval.Base.{RetrievalQuery, retrieval_query}
use agentic_rag.Agents.Models.{RetrievalPlan, search_text_of, fallback_plan, QueryAnalysis}
use agentic_rag.Prelude.Strip.{strip-strip, or_else-blank, or_else-text, is_blank-strip}
use agentic_rag.Agents.Models.Filters.{HasStripped, to_metadata_filters-ok}
use agentic_rag.Agents.Nodes.Tools.Outcomes.{tool_node-Returns}
use agentic_rag.Agents.Graph.Writes.{Traced, memory_writer-Traced}
use agentic_rag.Agents.State.{initial_state}
use agentic_rag.Agents.Services.{Services, outside}
use agentic_rag.Agents.Services.Dependable.{
  IsDependable, Anything, Returns-rescue, Returns-rescue_value,
}
use agentic_rag.Agents.Nodes.Planning.{
  State, analyzer, planner, retriever, retrieve, planned, search_with, query_of, ensure_search_text,
  analysis_in, built,
}
use agentic_rag.Agents.Nodes.Tools.{tool_node}
use agentic_rag.Agents.Nodes.Answering.{generator, critic, has_no_grounds}
use agentic_rag.Agents.Nodes.Memory.{memory_loader, memory_writer, wrote, write_exchange}
use agentic_rag.Agents.Graph.Policy.{Finishes, invoke_graph-Finishes}
use agentic_rag.Agents.Graph.{
  Stage, at_loader, at_analyzer, at_planner, at_tools, at_retriever, at_generator, at_critic,
  at_writer, at_end, is_end, node, next, run, invoke_graph,
}

abbrev pub IsStripped : RetrievalPlan → Type 0
IsStripped plan = HasStripped plan.filters

-- every service returns or raises `DependencyError`, and a plan that is returned is stripped
pub record AreDependable (V : Services) : Type 0 where
  pub analysis : (prompt query : String) → IsDependable Anything (V.analysis prompt query)
  pub plan : (prompt query : String) → IsDependable IsStripped (V.plan prompt query)
  pub critique : (prompt query : String) → IsDependable Anything (V.critique prompt query)
  pub complete : (prompt query : String) → IsDependable Anything (V.complete prompt query)
  pub search : (query : RetrievalQuery V.floats.Float) → IsDependable Anything (V.search query)

module _ (V : Services) where
  outside-IsDependable :
      {A : Type 0} (P : A → Type 0) (m : Exec V.World A)
      → IsDependable P m
      → IsDependable P (outside V m)
  outside-IsDependable P m h = record { outcome = λ s. h.outcome s.world }

  -- a plan can be turned into a search
  abbrev pub IsSearchable : Option RetrievalPlan → Type 0
  IsSearchable none = Unit
  IsSearchable (some plan) = IsStripped plan × (is_blank (strip plan.search_text) ≡ false)

  -- what a run keeps: a question that is not blank, and a plan that can be searched with
  pub record IsSane (s : State V) : Type 0 where
    pub asked : is_blank (strip s.query) ≡ false
    pub searchable : IsSearchable s.plan

  module _ (h : AreDependable V) where
    analyzer-Returns : (s : State V) → IsSane s → Returns IsSane (analyzer V s)
    unfolding analyzer
    analyzer-Returns s sane =
        Returns-rescue Anything _ _ _ (outside-IsDependable Anything _ (h.analysis _ _))
          (λ a u. Returns-pure _ (record { asked = sane.asked; searchable = sane.searchable }))
          (Returns-pure _ (record { asked = sane.asked; searchable = sane.searchable }))

    -- a state with the question and the plan of another
    abbrev pub Same : State V → State V → Type 0
    Same s s' = (s'.query ≡ s.query) × (s'.plan ≡ s.plan)

    Same-IsSane : (s s' : State V) → IsSane s → Same s s' → IsSane s'
    Same-IsSane s s' sane (q, p) = record {
      asked = subst (λ (t : String). is_blank (strip t) ≡ false) (sym q) sane.asked;
      searchable = subst IsSearchable (sym p) sane.searchable;
    }

    memory_loader-Same : (s : State V) → Returns (Same s) (memory_loader V s)
    unfolding memory_loader
    memory_loader-Same s =
        Returns-if V.settings.memory_enabled _ _
          (λ on. record { at = λ t. (_, refl, (refl, refl)) }) (λ off. Returns-pure _ (refl, refl))

    generator-Same : (s : State V) → Returns (Same s) (generator V s)
    unfolding generator
    generator-Same s =
        Returns-if (has_no_grounds V s) _ _ (λ bare. Returns-pure _ (refl, refl))
          (λ grounds.
            Returns-rescue Anything _ _ _ (outside-IsDependable Anything _ (h.complete _ _))
              (λ answer u. Returns-pure _ (refl, refl)) (Returns-pure _ (refl, refl)))

    critic-Same : (s : State V) → Returns (Same s) (critic V s)
    unfolding critic
    critic-Same s =
        Returns-if (has_no_grounds V s) _ _ (λ bare. Returns-pure _ (refl, refl))
          (λ grounds.
            Returns-rescue Anything _ _ _ (outside-IsDependable Anything _ (h.critique _ _))
              (λ c u. Returns-pure _ (refl, refl)) (Returns-pure _ (refl, refl)))

    memory_writer-Returns : (s : State V) → Returns Anything (memory_writer V s)
    unfolding memory_writer
    memory_writer-Returns s =
        Returns-if (not V.settings.memory_enabled || is_blank s.session_id)
          (pure (wrote V s "disabled"))
          (attempt (write_exchange V s) (λ x. pure (wrote V s "failed")))
          (λ off. Returns-pure (wrote V s "disabled") tt)
          (λ on.
            Returns-attempt (write_exchange V s) (λ x. pure (wrote V s "failed"))
              (Ensures-any (write_exchange V s)) (λ x. Returns-pure (wrote V s "failed") tt))

    traced-Same : (s s' : State V) → Traced V s s' → Same s s'
    traced-Same s s' (t, same) =
        (ap (λ (r : State V). r.query) same, ap (λ (r : State V). r.plan) same)

    memory_writer-Same : (s : State V) → Returns (Same s) (memory_writer V s)
    memory_writer-Same s =
        Returns-Ensures _ (memory_writer-Returns s)
          (Ensures-weaken _ (memory_writer-Traced V s) (traced-Same s))

    tool_node-Ensures : (s : State V) → Ensures (Same s) (tool_node V s)
    unfolding tool_node
    tool_node-Ensures s = search (Ensures-if, Ensures-after, Ensures-pure)

    tool_node-Same : (s : State V) → Returns (Same s) (tool_node V s)
    tool_node-Same s = Returns-Ensures _ (tool_node-Returns V s).0 (tool_node-Ensures s)

    -- the planner's plan has something to search with
    or_else-said :
        (first second : String)
        → is_blank (strip second) ≡ false
        → is_blank (strip (or_else (strip first) second)) ≡ false
    or_else-said first second said = elim (Bool-cases (is_blank (strip first))) [
      | inl blank ↦ rw (or_else-blank (strip first) second blank) said
      | inr text ↦ rw (or_else-text (strip first) second text, strip-strip first) text
    ]

    ensured :
        (plan : RetrievalPlan) (a : QueryAnalysis) (query : String)
        → is_blank (strip query) ≡ false
        → IsStripped plan
        → IsSearchable (some (ensure_search_text V plan a query))
    unfolding ensure_search_text search_text_of
    ensured plan a query said stripped = elim (Bool-cases (is_blank (strip plan.search_text))) [
      | inl blank ↦
          rw (blank, ensure_search_text) (stripped, or_else-said a.normalised_query query said)
      | inr text ↦ rw (text, ensure_search_text) (stripped, text)
    ]

    planned-IsSane :
        (s : State V) (plan : RetrievalPlan)
        → IsSane s
        → IsStripped plan
        → IsSane (planned V s plan)
    unfolding planned
    planned-IsSane s plan sane stripped = record {
      asked = sane.asked;
      searchable = ensured plan (analysis_in V s) s.query sane.asked stripped;
    }

    planner-IsSane : (s : State V) → IsSane s → Returns IsSane (planner V s)
    unfolding planner fallback_plan
    planner-IsSane s sane =
        Returns-bind IsStripped _ (λ proposal. pure (planned V s proposal))
          (Returns-rescue_value _ _ (outside-IsDependable IsStripped _ (h.plan _ _))
            (Returns-pure _ tt))
          (λ plan stripped. Returns-pure (planned V s plan) (planned-IsSane s plan sane stripped))

    query_of-ok :
        (s : State V) (plan : RetrievalPlan)
        → IsSearchable (some plan)
        → (q : RetrievalQuery V.floats.Float) × (query_of V s plan ≡ ok q)
    unfolding query_of retrieval_query
    query_of-ok s plan (stripped, text) =
        let (o, made) = to_metadata_filters-ok plan stripped in
        let picked : or_else plan.search_text s.query ≡ plan.search_text =
          or_else-text plan.search_text s.query (is_blank-strip plan.search_text text) in
        rw (made, query_of, picked, text) (_, refl)

    retrieved-Same :
        (s : State V) (query : RetrievalQuery V.floats.Float)
        → Returns (Same s) (search_with V s query)
    unfolding search_with
    retrieved-Same s query =
        Returns-rescue Anything _ _ _ (outside-IsDependable Anything _ (h.search query))
          (λ result u. Returns-pure _ (refl, refl)) (Returns-pure _ (refl, refl))

    searched :
        (s : State V) (r : Result (RetrievalQuery V.floats.Float))
        (q : RetrievalQuery V.floats.Float)
        → r ≡ ok q
        → Returns (Same s) (built V r >>= search_with V s)
    searched s (ok p) q e = record { at = (retrieved-Same s p).at }
    searched s (raise x) q e = absurd (cc e)

    retrieve-Same :
        (s : State V) (o : Option RetrievalPlan)
        → IsSearchable o
        → Returns (Same s) (retrieve V s o)
    unfolding retrieve
    retrieve-Same s none t = Returns-pure _ (refl, refl)
    retrieve-Same s (some plan) sane =
        let (q, made) = query_of-ok s plan sane in
        Returns-if plan.retrieval_needed _ _ (λ needed. searched s (query_of V s plan) q made)
          (λ skip. Returns-pure _ (refl, refl))

    retriever-Same : (s : State V) → IsSane s → Returns (Same s) (retriever V s)
    unfolding retriever
    retriever-Same s sane = retrieve-Same s s.plan sane.searchable

    node-Returns : (stage : Stage) (s : State V) → IsSane s → Returns IsSane (node V stage s)
    unfolding node
    node-Returns at_loader s sane =
        Returns-weaken _ (memory_loader-Same s) (λ s'. Same-IsSane s s' sane)
    node-Returns at_analyzer s sane = analyzer-Returns s sane
    node-Returns at_planner s sane = planner-IsSane s sane
    node-Returns at_tools s sane = Returns-weaken _ (tool_node-Same s) (λ s'. Same-IsSane s s' sane)
    node-Returns at_retriever s sane =
        Returns-weaken _ (retriever-Same s sane) (λ s'. Same-IsSane s s' sane)
    node-Returns at_generator s sane =
        Returns-weaken _ (generator-Same s) (λ s'. Same-IsSane s s' sane)
    node-Returns at_critic s sane = Returns-weaken _ (critic-Same s) (λ s'. Same-IsSane s s' sane)
    node-Returns at_writer s sane =
        Returns-weaken _ (memory_writer-Same s) (λ s'. Same-IsSane s s' sane)
    node-Returns at_end s sane = Returns-pure s sane

    run-Returns :
        (limit : ℕ) (stage : Stage) (s : State V)
        → IsSane s
        → Returns Anything (run V limit stage s)
    unfolding run
    run-Returns zero stage s sane = Returns-pure _ tt
    run-Returns (suc limit) stage s sane =
        Returns-if (is_end stage) _ _ (λ ended. Returns-pure _ tt)
          (λ going.
            Returns-bind IsSane (node V stage s) (λ s'. run V limit (next V stage s') s')
              (node-Returns stage s sane)
              (λ s' sane'. run-Returns limit (next V stage s') s' sane'))

    started :
        (limit : ℕ) (session_id query : String)
        → is_blank (strip query) ≡ false
        → Returns Anything (invoke_graph V limit session_id query)
    unfolding invoke_graph initial_state
    started limit session_id query asked =
        run-Returns limit at_loader (initial_state session_id query)
          (record { asked = asked; searchable = tt })

    -- When each call of a service either returns or raises `DependencyError`, so under an outage of
    -- any or all of them, and whatever the tools raise, a run on a question that is not blank
    -- never raises: within 8 + 5 * `max_revisions` steps it returns a final state with a verdict.
    pub invoke_graph-survives :
        (limit : ℕ) (session_id query : String)
        → is_blank (strip query) ≡ false
        → 8 + 5 * V.settings.max_revisions ≤ limit
        → Returns (Finishes V) (invoke_graph V limit session_id query)
    invoke_graph-survives limit session_id query asked enough =
        Returns-Ensures _ (started limit session_id query asked)
          (invoke_graph-Finishes V limit session_id query enough)
