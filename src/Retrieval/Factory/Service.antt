-- ===== src/Retrieval/Factory/Service.antt =====
-- How the factory of app/retrieval/factory.py serves a query: the retriever that it picks supports the
-- strategy, and its results fit the page.
use agentic_rag.Prelude.{
  ℕ, ◌≤◌, ◌≡◌, refl, ap, ◌∙◌, Bool, true, false, not, Option, none, some, List, [], ◌∷◌, length,
  All, arith, if◌then◌else◌,
}
use agentic_rag.Prelude.Floats.{Floats}
use agentic_rag.Core.Errors.Yields.{Yields-ok}
use agentic_rag.Core.Exec.{Exec, pure}
use agentic_rag.Core.Exec.Ensures.{
  Ensures, Ensures-pure, Ensures-bind, Ensures-after, Ensures-if, Ensures-weaken, Ensures-any,
}
use agentic_rag.Retrieval.Base.{
  SearchType, similarity, mmr, hybrid, ScoredDocument, RetrievalQuery, RetrievalResult, VectorMatch,
}
use agentic_rag.Retrieval.Query.{
  AreValid, Retriever, or_number, or_type, is_type, supports, prepare,
}
use agentic_rag.Retrieval.Query.Defaults.{IsPrepared, prepare-Yields}
use agentic_rag.Core.Exec.{lifted}
use agentic_rag.Retrieval.Compressors.Provenance.{Ensures-lifted}
use agentic_rag.Retrieval.Chroma.{StoreQuery}
use agentic_rag.Retrieval.Vector.Page.{vector_search-IsPage, or_number-fill}
use agentic_rag.Retrieval.Hybrid.{
  hybrid_capabilities, own_strategy, skipped, fuse, search_both, prepared_hybrid, hybrid_search,
}
use agentic_rag.Retrieval.Hybrid.Fused.{fuse-IsFused}
use agentic_rag.Retrieval.Compression.{opts_out}
use agentic_rag.Retrieval.Compression.Bounds.{compressed_search-IsCompressed}
use agentic_rag.Retrieval.Factory.{
  Parts, vector, fusing, compressed, strategy, base_for, use_compression, for_query,
}

module _ (F : Floats) {World : Type 0} (parts : Parts F World) where
  open F use {Float}

  -- the retriever supports each strategy for which it is picked
  base_for-supports : (t : SearchType) → supports (base_for F parts t).capabilities t ≡ true
  unfolding supports is_type agentic_rag.Retrieval.Vector.vector_retriever
      agentic_rag.Retrieval.Hybrid.hybrid_retriever
  base_for-supports similarity = refl
  base_for-supports mmr = refl
  base_for-supports hybrid = refl

  base_for-compresses : (t : SearchType) → (base_for F parts t).capabilities.compresses ≡ false
  unfolding is_type agentic_rag.Retrieval.Vector.vector_retriever
      agentic_rag.Retrieval.Hybrid.hybrid_retriever
  base_for-compresses similarity = refl
  base_for-compresses mmr = refl
  base_for-compresses hybrid = refl

  -- compression adds itself and keeps the strategies
  chosen-supports :
      (base : Retriever World Float) (choice : Bool) (t : SearchType)
      → supports base.capabilities t ≡ true
      → base.capabilities.compresses ≡ false
      → let chosen = if choice then compressed F parts base else base in
        (supports chosen.capabilities t ≡ true) × (chosen.capabilities.compresses ≡ choice)
  unfolding supports agentic_rag.Retrieval.Compression.compression_retriever
  chosen-supports base true t h k = (h, refl)
  chosen-supports base false t h k = (h, k)

  -- The retriever picked for a query supports the strategy of the query, or else the configured one,
  -- and it compresses exactly if the query, or else the configuration, says so.
  for_query-supports :
      (query : RetrievalQuery Float)
      → (supports (for_query F parts query).capabilities (strategy F parts query.search_type)
          ≡ true)
        × ((for_query F parts query).capabilities.compresses
            ≡ use_compression F parts query.compress)
  unfolding for_query
  for_query-supports query =
      let t = strategy F parts query.search_type in
      chosen-supports (base_for F parts t) (use_compression F parts query.compress) t
        (base_for-supports t) (base_for-compresses t)

  -- the page that a query asks for
  abbrev page_for : RetrievalQuery Float → ℕ
  page_for query = or_number query.top_k parts.settings.top_k

  abbrev pub Fits : RetrievalQuery Float → RetrievalResult Float → Type 0
  Fits query result = length result.documents ≤ page_for query

  -- a store that returns no more than it was asked for
  abbrev pub IsLimited : Type 0
  IsLimited =
      (q : StoreQuery Float)
      → Ensures (λ (ms : List (VectorMatch Float)). length ms ≤ q.n_results)
          (parts.search_by_vector q)

  any_documents :
      (ds : List (ScoredDocument Float)) → All (λ (d : ScoredDocument Float). Unit {0}) ds
  any_documents [] = tt
  any_documents (d ∷ ds) = (tt, any_documents ds)

  wants : (o : Option Bool) → use_compression F parts o ≡ true → opts_out o ≡ false
  wants none h = refl
  wants (some true) h = refl
  wants (some false) h = absurd (cc h)

  All-any : (ms : List (VectorMatch Float)) → All (λ (m : VectorMatch Float). Unit {0}) ms
  All-any [] = tt
  All-any (m ∷ ms) = (tt, All-any ms)

  module _ (valid : AreValid parts.settings) (limited : IsLimited) where
    vector-Fits :
        (query : RetrievalQuery Float) → Ensures (Fits query) ((vector F parts).search query)
    unfolding agentic_rag.Retrieval.Vector.vector_retriever
    vector-Fits query =
        Ensures-weaken _
          (vector_search-IsPage F parts.settings parts.search_by_vector parts.embed_text
            (λ d. Unit {0}) query valid
            (λ q. Ensures-weaken _ (limited q) (λ ms h. (h, All-any ms))))
          (λ result p. p.page)

    search_both-Fits :
        (sparse : RetrievalQuery Float → Exec World (RetrievalResult Float))
        (resolved : RetrievalQuery Float) (dense : RetrievalResult Float)
        → Ensures
            (Fits resolved)
            (search_both F parts.settings (vector F parts) parts.sparse sparse resolved dense)
    unfolding search_both
    search_both-Fits sparse resolved dense =
        Ensures-after (sparse (own_strategy resolved)) _ (λ sparse_result.
          let (out, done, good) =
            fuse-IsFused F parts.settings dense.documents sparse_result.documents resolved in
          Ensures-bind (λ (ds : List (ScoredDocument Float)). length ds ≤ page_for resolved)
            (lifted (fuse F parts.settings dense.documents sparse_result.documents resolved)) _
            (Ensures-lifted _ (rw done (Yields-ok out good.fits))) (λ ds h. Ensures-pure _ h))

    sides-Fits :
        (o : Option (RetrievalQuery Float → Exec World (RetrievalResult Float)))
        (resolved : RetrievalQuery Float) (dense : RetrievalResult Float)
        → Fits resolved dense
        → Ensures {S = World} (Fits resolved) (elim o as (λ p. Exec World (RetrievalResult Float)) [
          | none ↦ pure (skipped dense)
          | some sparse_search ↦
              search_both F parts.settings
                (vector F parts)
                parts.sparse
                sparse_search
                resolved
                dense
        ])
    sides-Fits none resolved dense h = Ensures-pure _ h
    sides-Fits (some sparse) resolved dense h = search_both-Fits sparse resolved dense

    prepared_hybrid-Fits :
        (resolved : RetrievalQuery Float)
        → Ensures
            (Fits resolved)
            (prepared_hybrid F parts.settings (vector F parts) parts.sparse resolved)
    unfolding prepared_hybrid
    prepared_hybrid-Fits resolved =
        Ensures-if (not (is_type (or_type resolved.search_type similarity) hybrid)) _ _
          (λ other. vector-Fits resolved)
          (λ both.
            Ensures-bind (Fits resolved) ((vector F parts).search (own_strategy resolved)) _
              (vector-Fits (own_strategy resolved))
              (λ dense h. sides-Fits parts.sparse resolved dense h))

    fusing-Fits :
        (query : RetrievalQuery Float) → Ensures (Fits query) ((fusing F parts).search query)
    unfolding agentic_rag.Retrieval.Hybrid.hybrid_retriever hybrid_search
    fusing-Fits query =
        Ensures-bind (IsPrepared parts.settings query)
          (lifted (prepare parts.settings hybrid_capabilities query)) _
          (Ensures-lifted _ (prepare-Yields parts.settings hybrid_capabilities query valid))
          (λ resolved p.
            let same : page_for resolved ≡ page_for query =
              ap (λ (o : Option ℕ). or_number o parts.settings.top_k) p.page
              ∙ or_number-fill F parts.settings query.top_k parts.settings.top_k in
            Ensures-weaken _ (prepared_hybrid-Fits resolved) (λ result h. omega (arith, h, same)))

    base_for-Fits :
        (t : SearchType) (query : RetrievalQuery Float)
        → Ensures (Fits query) ((base_for F parts t).search query)
    unfolding is_type
    base_for-Fits similarity query = vector-Fits query
    base_for-Fits mmr query = vector-Fits query
    base_for-Fits hybrid query = fusing-Fits query

    compressed-Fits :
        (base : Retriever World Float) (query : RetrievalQuery Float)
        → opts_out query.compress ≡ false
        → Ensures (Fits query) ((compressed F parts base).search query)
    unfolding agentic_rag.Retrieval.Compression.compression_retriever
    compressed-Fits base query wanted =
        Ensures-weaken _
          (compressed_search-IsCompressed F parts.embed_texts parts.settings base parts.embed_text
            (λ d. Unit {0}) (record { under = λ d content h. tt }) query wanted
            (Ensures-weaken _ (Ensures-any _) (λ result u. any_documents result.documents)))
          (λ result c. c.page)

    chosen-Fits :
        (base : Retriever World Float) (choice : Bool) (query : RetrievalQuery Float)
        → (choice ≡ true → opts_out query.compress ≡ false)
        → Ensures (Fits query) (base.search query)
        → Ensures (Fits query) ((if choice then compressed F parts base else base).search query)
    chosen-Fits base true query wanted h = compressed-Fits base query (wanted refl)
    chosen-Fits base false query wanted h = h

    -- The retriever picked for a query returns no more documents than the query asks for, or else
    -- the configuration: by every strategy, with and without compression, and whatever the sparse
    -- side returns, if the store itself returns no more than it was asked for.
    pub for_query-Fits :
        (query : RetrievalQuery Float)
        → Ensures (Fits query) ((for_query F parts query).search query)
    unfolding for_query
    for_query-Fits query =
        let t = strategy F parts query.search_type in
        chosen-Fits (base_for F parts t) (use_compression F parts query.compress) query
          (wants query.compress) (base_for-Fits t query)
