-- ===== src/Retrieval/Compression.antt =====
-- app/retrieval/compression.py: the retriever that fetches wide and compresses.
pub mod Pipeline
pub mod Bounds
use agentic_rag.Prelude.{
  ℕ, ◌*◌, String, Bool, true, false, Option, none, some, List, [], ◌∷◌, ◌++◌, length, is_empty,
  take, ◌||◌, if◌then◌else◌,
}
use agentic_rag.Prelude.Text.{◌<>◌, decimal}
use agentic_rag.Prelude.Floats.{Floats}
use agentic_rag.Core.Exec.{Exec, pure, ◌>>=◌}
use agentic_rag.Retrieval.Base.{ScoredDocument, RetrievalQuery, RetrievalResult, with_stage}
use agentic_rag.Retrieval.Query.{RetrievalSettings, RetrieverCapabilities, Retriever, or_number}
use agentic_rag.Retrieval.Compressors.{
  ContextCompressor, CompressionContext, threshold_compressor, redundancy_compressor,
  sentence_compressor, budget_compressor,
}

-- `f"compress:{compressor.name}:{before}->{len(current)}"`
unfoldable pub stage_text : String → ℕ → ℕ → String
unfolding decimal
stage_text name before after = "compress:" <> name <> ":" <> decimal before <> "->" <> decimal after

-- `query.compress is False`
abbrev pub opts_out : Option Bool → Bool
opts_out (some false) = true
opts_out _ = false

module _ {World Float : Type 0} where
  -- `CompressionRetriever._run_pipeline`, from the stages already run
  unfoldable pub run_stages :
      List (ContextCompressor World Float)
      → CompressionContext Float
      → List String
      → List (ScoredDocument Float)
      → Exec World (List (ScoredDocument Float) × List String)
  unfolding stage_text
  run_stages [] context stages current = pure (current, stages)
  run_stages (c ∷ compressors) context stages current = do
    next ← c.compress context current
    let traced = stages ++ stage_text c.name (length current) (length next) ∷ []
    let rest = run_stages compressors context traced next
    if is_empty next then pure (next, traced) else rest

  module _ (settings : RetrievalSettings Float) (base : Retriever World Float)
      (embed_text : String → Exec World (List Float))
      (compressors : List (ContextCompressor World Float)) where
    -- `CompressionRetriever.capabilities`
    unfoldable pub compressed_capabilities : RetrieverCapabilities
    compressed_capabilities = record base.capabilities {
      name = "compression(" <> base.name <> ")";
      compresses = true;
    }

    -- the page that the caller gets
    unfoldable pub page_of : RetrievalQuery Float → ℕ
    unfolding or_number
    page_of query = or_number query.top_k settings.top_k

    -- the query that the base retriever gets
    abbrev pub widened : RetrievalQuery Float → RetrievalQuery Float
    widened query = record query {
      top_k = some (page_of query * settings.compression_fetch_multiplier);
    }

    abbrev pub compressed_result :
        RetrievalResult Float
        → ℕ
        → List (ScoredDocument Float)
        → List String
        → RetrievalResult Float
    compressed_result result top_k documents stages = record result {
      documents = take top_k documents;
      retriever = "compression(" <> result.retriever <> ")";
      stages = result.stages ++ stages;
    }

    -- the compression of a result with documents
    unfoldable pub compress_result :
        RetrievalQuery Float → RetrievalResult Float → Exec World (RetrievalResult Float)
    unfolding run_stages page_of
    compress_result query result = do
      embedding ← embed_text query.text
      out ←
          run_stages compressors (record { query = query.text; embedding = embedding }) []
            result.documents
      pure (compressed_result result (page_of query) (out.0) (out.1))

    -- `CompressionRetriever.search`
    unfoldable pub compressed_search : RetrievalQuery Float → Exec World (RetrievalResult Float)
    unfolding compress_result page_of
    compressed_search query =
        if opts_out query.compress || is_empty compressors
        then base.search query
        else base.search (widened query) >>= λ result.
            if is_empty result.documents
            then pure (with_stage "compress:empty" result)
            else compress_result query result

    unfoldable pub compression_retriever : Retriever World Float
    unfolding compressed_capabilities compressed_search
    compression_retriever = record {
      name = "compression";
      capabilities = compressed_capabilities;
      search = compressed_search;
    }

module _ (F : Floats) {World : Type 0}
    (embed_texts : List String → Exec World (List (List F.Float))) where
  -- `default_pipeline`
  unfoldable pub default_pipeline :
      RetrievalSettings F.Float → List (ContextCompressor World F.Float)
  default_pipeline settings =
      let budget = budget_compressor F settings.compression_max_characters ∷ [] in
      threshold_compressor F settings.compression_min_relevance
      ∷ redundancy_compressor F embed_texts settings.compression_redundancy_threshold
      ∷ (if settings.compression_sentence_level
          then sentence_compressor F embed_texts settings.compression_min_relevance ∷ budget
          else budget)
