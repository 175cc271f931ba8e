-- ===== src/Retrieval/Compression/Pipeline.antt =====
-- The standard pipeline of app/retrieval/compression.py: what it keeps of every document, the least
-- relevance and the budget.
use agentic_rag.Prelude.{
  ℕ, ◌≤◌, ◌≡◌, String, Bool, true, false, List, [], ◌∷◌, ◌++◌, is_empty, All, arith, inl, inr,
  Bool-cases, if◌then◌else◌,
}
use agentic_rag.Prelude.Floats.{Floats}
use agentic_rag.Core.Exec.{Exec}
use agentic_rag.Core.Exec.Ensures.{Ensures, Ensures-pure, Ensures-bind, Ensures-after, Ensures-if}
use agentic_rag.Retrieval.Base.{ScoredDocument}
use agentic_rag.Retrieval.Query.{RetrievalSettings}
use agentic_rag.Retrieval.Compressors.{
  ContextCompressor, CompressionContext, replace_content, threshold_compressor,
  redundancy_compressor, sentence_compressor, budget_compressor, within_budget, above_relevance,
}
use agentic_rag.Retrieval.Compressors.Budget.{total, within_budget-IsBudgeted}
use agentic_rag.Retrieval.Compressors.Provenance.{
  IsStable, Keeps, threshold_compressor-Keeps, redundancy_compressor-Keeps,
  sentence_compressor-Keeps, budget_compressor-Keeps,
}
use agentic_rag.Retrieval.Compression.{run_stages, default_pipeline}

module _ {World Float : Type 0} where
  -- every stage keeps the properties that do not read the content
  abbrev pub AllKeep : List (ContextCompressor World Float) → Type 1
  AllKeep [] = Unit
  AllKeep (c ∷ cs) = Keeps c × AllKeep cs

  pub run_stages-All :
      (Q : ScoredDocument Float → Type 0) (stable : IsStable Q)
      (cs : List (ContextCompressor World Float)) (context : CompressionContext Float)
      (stages : List String) (current : List (ScoredDocument Float))
      → AllKeep cs
      → All Q current
      → Ensures (λ out. All Q out.0) (run_stages cs context stages current)
  unfolding run_stages
  run_stages-All Q stable [] context stages current keep h = Ensures-pure _ h
  run_stages-All Q stable (c ∷ cs) context stages current keep h =
      Ensures-bind (All Q) (c.compress context current) _ (keep.0.every Q stable context current h)
        (λ next q.
          Ensures-if (is_empty next) _ _ (λ none_left. Ensures-pure _ q)
            (λ some_left. run_stages-All Q stable cs context _ next keep.1 q))

total_of_empty :
    {Float : Type 0} (most : ℕ) (ds : List (ScoredDocument Float))
    → is_empty ds ≡ true
    → total ds ≤ most
total_of_empty most [] h = omega arith
total_of_empty most (d ∷ ds) h = absurd (cc h)

module _ {World : Type 0} (F : Floats) (most : ℕ) where
  open F use {Float}

  -- whatever runs before it, the budget is kept
  run_stages-total :
      (cs : List (ContextCompressor World Float)) (context : CompressionContext Float)
      (stages : List String) (current : List (ScoredDocument Float))
      → Ensures
          (λ out. total out.0 ≤ most)
          (run_stages (cs ++ budget_compressor F most ∷ []) context stages current)
  unfolding run_stages
  run_stages-total [] context stages current =
      let kept = within_budget most current in
      let fits = (within_budget-IsBudgeted most current).within in
      Ensures-if (is_empty kept) _ _ (λ none_left. Ensures-pure _ fits)
        (λ some_left. Ensures-pure _ fits)
  run_stages-total (c ∷ cs) context stages current =
      Ensures-after (c.compress context current) _ (λ next.
        Ensures-if (is_empty next) _ _
          (λ none_left. Ensures-pure _ (total_of_empty most next none_left))
          (λ some_left. run_stages-total cs context _ next))

module _ {World : Type 0} (F : Floats)
    (embed_texts : List String → Exec World (List (List F.Float)))
    (settings : RetrievalSettings F.Float) where
  open F use {Float, leb}

  abbrev pub Relevant : ScoredDocument Float → Type 0
  Relevant d = leb settings.compression_min_relevance d.score ≡ true

  pub Relevant-IsStable : IsStable Relevant
  unfolding replace_content
  Relevant-IsStable = record { under = λ d content h. h }

  above_relevance-All :
      (ds : List (ScoredDocument Float))
      → All Relevant (above_relevance F settings.compression_min_relevance ds)
  unfolding above_relevance
  above_relevance-All [] = tt
  above_relevance-All (d ∷ ds) =
      elim (Bool-cases (leb settings.compression_min_relevance d.score)) [
        | inl high ↦ rw high (high, above_relevance-All ds)
        | inr low ↦ rw low (above_relevance-All ds)
      ]

  after_threshold : Bool → List (ContextCompressor World Float)
  after_threshold sentence_level =
      let budget = budget_compressor F settings.compression_max_characters ∷ [] in
      redundancy_compressor F embed_texts settings.compression_redundancy_threshold
      ∷ (if sentence_level
          then sentence_compressor F embed_texts settings.compression_min_relevance ∷ budget
          else budget)

  after_threshold-AllKeep : (sentence_level : Bool) → AllKeep (after_threshold sentence_level)
  unfolding after_threshold
  after_threshold-AllKeep true = (
    redundancy_compressor-Keeps F embed_texts _,
    (sentence_compressor-Keeps F embed_texts _, (budget_compressor-Keeps F _, tt)),
  )
  after_threshold-AllKeep false =
      (redundancy_compressor-Keeps F embed_texts _, (budget_compressor-Keeps F _, tt))

  pub default_pipeline-AllKeep : AllKeep (default_pipeline F embed_texts settings)
  unfolding default_pipeline after_threshold
  default_pipeline-AllKeep =
      (threshold_compressor-Keeps F _, after_threshold-AllKeep settings.compression_sentence_level)

  module _ (context : CompressionContext Float) (stages : List String)
      (current : List (ScoredDocument Float)) where
    pub pipeline-Relevant :
        Ensures
          (λ out. All Relevant out.0)
          (run_stages (default_pipeline F embed_texts settings) context stages current)
    unfolding default_pipeline run_stages after_threshold
    pipeline-Relevant =
        let kept = above_relevance F settings.compression_min_relevance current in
        Ensures-if (is_empty kept) _ _ (λ none_left. Ensures-pure _ (above_relevance-All current))
          (λ some_left.
            run_stages-All Relevant Relevant-IsStable
              (after_threshold settings.compression_sentence_level) context _ kept
              (after_threshold-AllKeep settings.compression_sentence_level)
              (above_relevance-All current))

    pipeline_total_of :
        (sentence_level : Bool)
        → Ensures
            (λ out. total out.0 ≤ settings.compression_max_characters)
            (run_stages
              (threshold_compressor F settings.compression_min_relevance
                ∷ after_threshold sentence_level)
              context
              stages
              current)
    unfolding after_threshold
    pipeline_total_of true =
        run_stages-total F settings.compression_max_characters
          (threshold_compressor F settings.compression_min_relevance
            ∷ redundancy_compressor F embed_texts settings.compression_redundancy_threshold
            ∷ sentence_compressor F embed_texts settings.compression_min_relevance
            ∷ [])
          context stages current
    pipeline_total_of false =
        run_stages-total F settings.compression_max_characters
          (threshold_compressor F settings.compression_min_relevance
            ∷ redundancy_compressor F embed_texts settings.compression_redundancy_threshold
            ∷ [])
          context stages current

    pub pipeline-total :
        Ensures
          (λ out. total out.0 ≤ settings.compression_max_characters)
          (run_stages (default_pipeline F embed_texts settings) context stages current)
    unfolding default_pipeline after_threshold
    pipeline-total = pipeline_total_of settings.compression_sentence_level
