-- ===== src/Retrieval/Vector/Page.antt =====
-- What a search of app/retrieval/vector.py returns: no more than the page, nothing below the threshold.
use agentic_rag.Prelude.{
  ℕ, zero, suc, ◌≤◌, ◌≡◌, refl, ap, ◌∙◌, String, true, false, Option, none, some, List, [], ◌∷◌,
  map, length, length-take, is_empty, All, All-take, arith, Bool-cases, inl, inr, subst,
}
use agentic_rag.Prelude.Floats.{Floats}
use agentic_rag.Core.Errors.Yields.{
  Yields, Yields-ok, Yields-bind, Yields-raise, Yields-if, Yields-weaken,
}
use agentic_rag.Core.Exec.{Exec}
use agentic_rag.Core.Exec.Ensures.{Ensures, Ensures-pure, Ensures-bind, Ensures-after}
use agentic_rag.Retrieval.Base.{
  SearchType, similarity, ScoredDocument, RetrievalQuery, RetrievalResult, VectorMatch, as_scored,
}
use agentic_rag.Retrieval.Query.{RetrievalSettings, AreValid, or_number, or_type, fill, prepare}
use agentic_rag.Retrieval.Query.Defaults.{IsPrepared, prepare-Yields}
use agentic_rag.Retrieval.Diversity.{item, maximal_marginal_relevance}
use agentic_rag.Retrieval.Diversity.Size.{maximal_marginal_relevance-HasAtMost}
use agentic_rag.Core.Exec.{lifted}
use agentic_rag.Retrieval.Compressors.Provenance.{Ensures-lifted}
use agentic_rag.Retrieval.Chroma.{StoreQuery}
use agentic_rag.Retrieval.Vector.{
  or_float, usable, with_vector, at_positions, rerank_usable, rerank, above_threshold, page_size,
  pool_size, is_mmr, store_query, selected, prepared_search, vector_search, vector_capabilities,
}

module _ (F : Floats) (P : VectorMatch F.Float → Type 0) where
  open F use {Float, leb}

  -- the match of a candidate with its vector
  abbrev HasMatch : VectorMatch Float × List Float → Type 0
  HasMatch r = P r.0

  usable-All : (ms : List (VectorMatch Float)) → All P ms → All HasMatch (usable F ms)
  unfolding usable
  usable-All [] h = tt
  usable-All (m ∷ ms) h = added m.embedding (usable-All ms h.1)
    where
      added :
          (o : Option (List Float))
          → All HasMatch (usable F ms)
          → All HasMatch (with_vector F o m (usable F ms))
      added none k = k
      added (some v) k = (h.0, k)

  item-HasMatch :
      (rows : List (VectorMatch Float × List Float)) (i : ℕ)
      → All HasMatch rows
      → Yields HasMatch (item rows i)
  unfolding item
  item-HasMatch [] i h = Yields-raise _
  item-HasMatch (r ∷ rows) zero h = Yields-ok r h.0
  item-HasMatch (r ∷ rows) (suc i) h = item-HasMatch rows i h.1

  -- as many as asked for, each of them among the rows
  at_positions-All :
      (rows : List (VectorMatch Float × List Float)) (chosen : List ℕ)
      → All HasMatch rows
      → Yields (λ out. (length out ≤ length chosen) × All P out) (at_positions F rows chosen)
  unfolding at_positions
  at_positions-All rows [] h = Yields-ok [] (omega arith, tt)
  at_positions-All rows (i ∷ chosen) h = Yields-bind (item rows i) _ (λ m e.
      Yields-bind (at_positions F rows chosen) _ (λ ms e'.
        let (size, rest) = (at_positions-All rows chosen h).at ms e' in
        Yields-ok _ (omega arith, ((item-HasMatch rows i h).at m e, rest))))

  module _ (settings : RetrievalSettings Float) where
    rerank-All :
        (embedding : List Float) (candidates : List (VectorMatch Float))
        (query : RetrievalQuery Float)
        → All P candidates
        → Yields
            (λ out. (length out ≤ page_size F settings query) × All P out)
            (rerank F settings embedding candidates query)
    unfolding rerank rerank_usable
    rerank-All embedding candidates query h =
        let k = page_size F settings query in
        let rows = usable F candidates in
        Yields-if (is_empty rows) _ _
          (λ no_vectors.
            Yields-ok _ (omega (arith, length-take k candidates), All-take P k candidates h))
          (λ some_vectors.
            Yields-bind
              (maximal_marginal_relevance F embedding (map (λ r. r.1) rows) k
                (or_float query.mmr_lambda settings.mmr_lambda))
              _
              (λ chosen e.
                let few =
                  (maximal_marginal_relevance-HasAtMost F embedding (map (λ r. r.1) rows) k _).at
                    chosen e in
                Yields-weaken _ (at_positions-All rows chosen (usable-All candidates h))
                  (λ out held. (omega (arith, few, held.0), held.1))))

module _ (F : Floats) (minimum : F.Float) where
  open F use {Float, leb}

  -- the score reaches the threshold
  abbrev pub Reaches : ScoredDocument Float → Type 0
  Reaches d = leb minimum d.score ≡ true

  above_threshold-All :
      (Q : ScoredDocument Float → Type 0) (ms : List (VectorMatch Float))
      → All (λ m. Q (as_scored m)) ms
      → All Reaches (above_threshold F minimum ms)
        × All Q (above_threshold F minimum ms)
        × (length (above_threshold F minimum ms) ≤ length ms)
  unfolding above_threshold
  above_threshold-All Q [] h = (tt, tt, omega arith)
  above_threshold-All Q (m ∷ ms) h =
      let (high, held, few) = above_threshold-All Q ms h.1 in
      elim (Bool-cases (leb minimum m.score)) [
        | inl above ↦ rw above ((above, high), (h.0, held), omega arith)
        | inr below ↦ rw below (high, held, omega arith)
      ]

module _ (F : Floats) (settings : RetrievalSettings F.Float) where
  open F use {Float, nil, leb}

  -- what a search returns to a query
  pub record IsPage (Q : ScoredDocument Float → Type 0) (query : RetrievalQuery Float)
      (result : RetrievalResult Float) : Type 0 where
    pub page : length result.documents ≤ or_number query.top_k settings.top_k
    pub reaches :
        All (Reaches F (or_float query.score_threshold settings.score_threshold)) result.documents
    pub sourced : All Q result.documents
    pub strategy : result.search_type ≡ or_type query.search_type settings.default_search_type

  pub or_number-fill : (o : Option ℕ) (d : ℕ) → or_number (fill d o) d ≡ or_number o d
  unfolding or_number
  or_number-fill none zero = refl
  or_number-fill none (suc d) = refl
  or_number-fill (some zero) d = refl
  or_number-fill (some (suc n)) d = refl

  or_float-fill : (o : Option Float) (d : Float) → or_float (fill d o) nil ≡ or_float o d
  or_float-fill none d = refl
  or_float-fill (some x) d = refl

  or_type-fill :
      (o : Option SearchType) (d : SearchType) → or_type (fill d o) similarity ≡ or_type o d
  or_type-fill none d = refl
  or_type-fill (some t) d = refl

  module _ {World : Type 0}
      (search_by_vector : StoreQuery Float → Exec World (List (VectorMatch Float)))
      (embed_text : String → Exec World (List Float)) (Q : ScoredDocument Float → Type 0) where
    abbrev Matched : List (VectorMatch Float) → Type 0
    Matched = All (λ m. Q (as_scored m))

    -- the store returns no more than it was asked for, and its matches have the property
    abbrev pub Honours : StoreQuery Float → List (VectorMatch Float) → Type 0
    Honours q matches = (length matches ≤ q.n_results) × All (λ m. Q (as_scored m)) matches

    plain_pool :
        (resolved : RetrievalQuery Float)
        → is_mmr F settings search_by_vector embed_text resolved ≡ false
        → pool_size F settings search_by_vector embed_text resolved ≡ page_size F settings resolved
    unfolding pool_size
    plain_pool resolved plain = rw plain refl

    selected-All :
        (resolved : RetrievalQuery Float) (embedding : List Float)
        (candidates : List (VectorMatch Float))
        → Honours (store_query F settings search_by_vector embed_text resolved embedding) candidates
        → Yields
            (λ out. (length out ≤ page_size F settings resolved) × Matched out)
            (selected F settings search_by_vector embed_text resolved embedding candidates)
    unfolding selected pool_size
    selected-All resolved embedding candidates h =
        elim (Bool-cases (is_mmr F settings search_by_vector embed_text resolved)) [
          | inl diverse ↦
              rw diverse
                (rerank-All F (λ m. Q (as_scored m)) settings embedding candidates resolved h.1)
          | inr plain ↦ rw plain (
              Yields-ok candidates
                (subst (λ (n : ℕ). length candidates ≤ n) (plain_pool resolved plain) h.0, h.1))
        ]

    prepared_search-IsPage :
        (query resolved : RetrievalQuery Float)
        → IsPrepared settings query resolved
        → ((q : StoreQuery Float) → Ensures (Honours q) (search_by_vector q))
        → Ensures (IsPage Q query) (prepared_search F settings search_by_vector embed_text resolved)
    unfolding prepared_search page_size
    prepared_search-IsPage query resolved p honours =
        let minimum = or_float resolved.score_threshold nil in
        let page : page_size F settings resolved ≡ or_number query.top_k settings.top_k =
          ap (λ (o : Option ℕ). or_number o settings.top_k) p.page
          ∙ or_number-fill query.top_k settings.top_k in
        let least : minimum ≡ or_float query.score_threshold settings.score_threshold =
          ap (λ (o : Option Float). or_float o nil) p.threshold
          ∙ or_float-fill query.score_threshold settings.score_threshold in
        let asked : or_type resolved.search_type similarity
            ≡ or_type query.search_type settings.default_search_type =
          ap (λ (o : Option SearchType). or_type o similarity) p.strategy
          ∙ or_type-fill query.search_type settings.default_search_type in
        Ensures-after (embed_text resolved.text) _ (λ embedding.
          let q = store_query F settings search_by_vector embed_text resolved embedding in
          Ensures-bind (Honours q) (search_by_vector q) _ (honours q) (λ candidates h.
            Ensures-bind _
              (lifted
                (selected F settings search_by_vector embed_text resolved embedding candidates))
              _ (Ensures-lifted _ (selected-All resolved embedding candidates h))
              (λ matches s.
                let (high, held, few) = above_threshold-All F minimum Q matches s.1 in
                Ensures-pure _ (record {
                  page = omega (arith, few, s.0, page);
                  reaches =
                      subst (λ (x : Float). All (Reaches F x) (above_threshold F minimum matches))
                        least high;
                  sourced = held;
                  strategy = asked;
                }))))

    -- A search over a store that honours its limit returns no more documents than the page, by any
    -- strategy; each of them reaches the threshold of the query, or else the configured one, and has
    -- every property of id, content, metadata and score that all matches of the store have. The
    -- result names the strategy of the query, or else the configured one.
    pub vector_search-IsPage :
        (query : RetrievalQuery Float)
        → AreValid settings
        → ((q : StoreQuery Float) → Ensures (Honours q) (search_by_vector q))
        → Ensures (IsPage Q query) (vector_search F settings search_by_vector embed_text query)
    unfolding vector_search
    vector_search-IsPage query valid honours =
        Ensures-bind (IsPrepared settings query)
          (lifted (prepare settings vector_capabilities query)) _
          (Ensures-lifted _ (prepare-Yields settings vector_capabilities query valid))
          (λ resolved p. prepared_search-IsPage query resolved p honours)
