-- ===== src/Retrieval/Compression/Bounds.antt =====
-- What a compressed search of app/retrieval/compression.py returns, with the standard pipeline.
use agentic_rag.Prelude.{
  ◌≤◌, ◌≡◌, String, true, false, List, [], ◌∷◌, length, length-take, is_empty, All, All-take, arith,
}
use agentic_rag.Prelude.Floats.{Floats}
use agentic_rag.Core.Exec.{Exec}
use agentic_rag.Core.Exec.Ensures.{
  Ensures, Ensures-pure, Ensures-bind, Ensures-after, Ensures-if, Ensures-both,
}
use agentic_rag.Retrieval.Base.{ScoredDocument, RetrievalQuery, RetrievalResult, with_stage}
use agentic_rag.Retrieval.Query.{RetrievalSettings, Retriever, or_number}
use agentic_rag.Retrieval.Compressors.{CompressionContext}
use agentic_rag.Retrieval.Compressors.Budget.{total, total-take-le}
use agentic_rag.Retrieval.Compressors.Provenance.{IsStable}
use agentic_rag.Retrieval.Compression.{
  run_stages, opts_out, page_of, widened, compressed_result, compress_result, compressed_search,
  default_pipeline,
}
use agentic_rag.Retrieval.Compression.Pipeline.{
  run_stages-All, Relevant, default_pipeline-AllKeep, pipeline-Relevant, pipeline-total,
}

module _ {World : Type 0} (F : Floats)
    (embed_texts : List String → Exec World (List (List F.Float)))
    (settings : RetrievalSettings F.Float) where
  open F use {Float}

  -- what a search returns to a query
  pub record IsCompressed (Q : ScoredDocument Float → Type 0) (query : RetrievalQuery Float)
      (result : RetrievalResult Float) : Type 0 where
    pub page : length result.documents ≤ or_number query.top_k settings.top_k
    pub budget : total result.documents ≤ settings.compression_max_characters
    pub relevant : All (Relevant F embed_texts settings) result.documents
    pub sourced : All Q result.documents

  module _ (base : Retriever World Float) (embed_text : String → Exec World (List Float))
      (Q : ScoredDocument Float → Type 0) (stable : IsStable Q) (query : RetrievalQuery Float) where
    empty-IsCompressed :
        (result : RetrievalResult Float)
        → is_empty result.documents ≡ true
        → IsCompressed Q query (with_stage "compress:empty" result)
    empty-IsCompressed result h = of_documents result.documents h result
      where
        of_documents :
            (ds : List (ScoredDocument Float))
            → is_empty ds ≡ true
            → (r : RetrievalResult Float)
            → IsCompressed Q query (with_stage "compress:empty" (record r { documents = ds }))
        of_documents [] h r = record {
          page = omega arith;
          budget = omega arith;
          relevant = tt;
          sourced = tt;
        }
        of_documents (d ∷ ds) h r = absurd (cc h)

    cut-IsCompressed :
        (result : RetrievalResult Float) (ds : List (ScoredDocument Float)) (stages : List String)
        → total ds ≤ settings.compression_max_characters
        → All (Relevant F embed_texts settings) ds
        → All Q ds
        → IsCompressed Q query (
            compressed_result settings base embed_text
              (default_pipeline F embed_texts settings)
              result
              (page_of settings base embed_text (default_pipeline F embed_texts settings) query)
              ds
              stages)
    unfolding page_of
    cut-IsCompressed result ds stages fits high sourced =
        let n = or_number query.top_k settings.top_k in
        record {
          page = omega (arith, length-take n ds);
          budget = omega (arith, total-take-le n ds, fits);
          relevant = All-take (Relevant F embed_texts settings) n ds high;
          sourced = All-take Q n ds sourced;
        }

    compress_result-IsCompressed :
        (result : RetrievalResult Float)
        → All Q result.documents
        → Ensures (IsCompressed Q query) (
            compress_result settings base embed_text
              (default_pipeline F embed_texts settings)
              query
              result)
    unfolding compress_result
    compress_result-IsCompressed result sourced =
        Ensures-after (embed_text query.text) _ (λ embedding.
          let context : CompressionContext Float = record {
            query = query.text;
            embedding = embedding;
          } in
          Ensures-bind _
            (run_stages (default_pipeline F embed_texts settings) context [] result.documents) _
            (Ensures-both _ (pipeline-total F embed_texts settings context [] result.documents) (
              Ensures-both _ (pipeline-Relevant F embed_texts settings context [] result.documents)
                (run_stages-All Q stable (default_pipeline F embed_texts settings) context []
                  result.documents (default_pipeline-AllKeep F embed_texts settings) sourced)))
            (λ out h. Ensures-pure _ (cut-IsCompressed result out.0 out.1 h.0 h.1.0 h.1.1)))

    -- A search that does not opt out of compression, by the standard pipeline, returns no more
    -- documents than the page that was asked for and no more characters than the budget. Every
    -- document reaches the least relevance, and has each property of its id, its metadata and its
    -- score that all documents of the wrapped retriever's result have.
    pub compressed_search-IsCompressed :
        opts_out query.compress ≡ false
        → Ensures
            (λ result. All Q result.documents)
            (base.search
              (widened settings base embed_text (default_pipeline F embed_texts settings) query))
        → Ensures (IsCompressed Q query) (
            compressed_search settings base embed_text
              (default_pipeline F embed_texts settings)
              query)
    unfolding compressed_search default_pipeline
    compressed_search-IsCompressed compresses sourced = rw compresses (
        Ensures-bind _ (base.search _) _ sourced (λ result q.
          Ensures-if (is_empty result.documents) _ _
            (λ nothing. Ensures-pure _ (empty-IsCompressed result nothing))
            (λ some_found. compress_result-IsCompressed result q)))
