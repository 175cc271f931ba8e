-- ===== src/Retrieval/Vector.antt =====
-- app/retrieval/vector.py: similarity and marginal relevance over the vector store.
pub mod Page
use agentic_rag.Prelude.{
  ℕ, String, Bool, true, false, Option, none, some, List, [], ◌∷◌, map, length, is_empty, select,
  take, if◌then◌else◌,
}
use agentic_rag.Prelude.Text.{is_blank}
use agentic_rag.Prelude.Floats.{Floats}
use agentic_rag.Core.Errors.{Result, ok, raise, ◌>>=◌}
use agentic_rag.Core.Exec.{Exec, pure}
use agentic_rag.Core.Exec
use agentic_rag.Retrieval.Base.{
  SearchType, similarity, mmr, ScoredDocument, RetrievalQuery, RetrievalResult, VectorMatch,
  as_scored,
}
use agentic_rag.Retrieval.Filters.{Clause, to_chroma, MetadataFilters}
use agentic_rag.Retrieval.Query.{
  RetrievalSettings, RetrieverCapabilities, Retriever, or_number, or_type, is_type, prepare,
}
use agentic_rag.Retrieval.Diversity.{item, maximal_marginal_relevance}
use agentic_rag.Core.Exec.{lifted}
use agentic_rag.Retrieval.Chroma.{StoreQuery}

-- `_content_clause`: an empty text is no requirement
abbrev pub content_clause : Option String → Option String
content_clause none = none
content_clause (some text) = if is_blank text then none else some text

-- `resolved.filters.to_chroma() if resolved.filters else None`
unfoldable pub filter_clause : Option MetadataFilters → Option Clause
unfolding to_chroma
filter_clause none = none
filter_clause (some filters) = to_chroma filters

-- `value if value is not None else default`, and `value or 0.0` on a score
abbrev pub or_float : {Float : Type 0} → Option Float → Float → Float
or_float none default = default
or_float (some x) default = x

abbrev pub vector_capabilities : RetrieverCapabilities
vector_capabilities = record {
  name = "vector";
  search_types = similarity ∷ mmr ∷ [];
  compresses = false;
}

module _ (F : Floats) where
  open F use {Float, nil, leb}

  abbrev pub Match : Type 0
  Match = VectorMatch Float

  -- a candidate with its vector, if the store returned one
  abbrev pub with_vector :
      Option (List Float) → Match → List (Match × List Float) → List (Match × List Float)
  with_vector none m rest = rest
  with_vector (some v) m rest = (m, v) ∷ rest

  -- the candidates at the usable indices, with their vectors
  unfoldable pub usable : List Match → List (Match × List Float)
  usable [] = []
  usable (m ∷ ms) = with_vector m.embedding m (usable ms)

  -- `[candidates[usable[position]] for position in chosen]`
  unfoldable pub at_positions : List (Match × List Float) → List ℕ → Result (List Match)
  unfolding item
  at_positions rows [] = ok []
  at_positions rows (position ∷ chosen) = do
    m ← item rows position
    ms ← at_positions rows chosen
    ok (m.0 ∷ ms)

  -- the selection among the candidates with vectors
  unfoldable pub rerank_usable :
      List Float → List (Match × List Float) → ℕ → Float → Result (List Match)
  unfolding at_positions
  rerank_usable embedding rows k lambda_mult = do
    chosen ← maximal_marginal_relevance F embedding (map (λ r. r.1) rows) k lambda_mult
    at_positions rows chosen

  -- `_above_threshold`
  unfoldable pub above_threshold : Float → List Match → List (ScoredDocument Float)
  above_threshold minimum matches = map as_scored (select (λ m. leb minimum m.score) matches)

  module _ (settings : RetrievalSettings Float) where
    -- `resolved.top_k or self.settings.top_k`
    unfoldable pub page_size : RetrievalQuery Float → ℕ
    unfolding or_number
    page_size query = or_number query.top_k settings.top_k

    -- `_rerank`
    unfoldable pub rerank : List Float → List Match → RetrievalQuery Float → Result (List Match)
    unfolding usable rerank_usable page_size
    rerank embedding candidates query =
        if is_empty (usable candidates)
        then ok (take (page_size query) candidates)
        else rerank_usable embedding (usable candidates) (page_size query)
            (or_float query.mmr_lambda settings.mmr_lambda)

    module _ {World : Type 0} (search_by_vector : StoreQuery Float → Exec World (List Match))
        (embed_text : String → Exec World (List Float)) where
      abbrev pub is_mmr : RetrievalQuery Float → Bool
      is_mmr resolved = is_type (or_type resolved.search_type similarity) mmr

      -- how many candidates the store is asked for
      unfoldable pub pool_size : RetrievalQuery Float → ℕ
      unfolding page_size
      pool_size resolved =
          if is_mmr resolved
          then or_number resolved.fetch_k settings.fetch_k
          else page_size resolved

      abbrev pub store_query : RetrievalQuery Float → List Float → StoreQuery Float
      store_query resolved embedding = record {
        embedding = embedding;
        n_results = pool_size resolved;
        filters = filter_clause resolved.filters;
        contains = content_clause resolved.content_contains;
        with_embeddings = is_mmr resolved;
      }

      -- the candidates that are selected
      unfoldable pub selected : RetrievalQuery Float → List Float → List Match → Result (List Match)
      unfolding rerank is_type
      selected resolved embedding candidates =
          if is_mmr resolved then rerank embedding candidates resolved else ok candidates

      abbrev pub vector_result :
          RetrievalQuery Float → List Match → List Match → RetrievalResult Float
      vector_result resolved candidates matches = record {
        documents = above_threshold (or_float resolved.score_threshold nil) matches;
        search_type = or_type resolved.search_type similarity;
        retriever = "vector";
        candidates = length candidates;
        stages = "embed" ∷ (if is_mmr resolved then "mmr" else "similarity") ∷ "threshold" ∷ [];
      }

      -- the search for a prepared query
      unfoldable pub prepared_search : RetrievalQuery Float → Exec World (RetrievalResult Float)
      unfolding above_threshold selected pool_size filter_clause
      prepared_search resolved = Exec.◌>>=◌ (embed_text resolved.text) λ embedding.
          Exec.◌>>=◌ (search_by_vector (store_query resolved embedding)) λ candidates.
            Exec.◌>>=◌ (lifted (selected resolved embedding candidates))
              λ matches. pure (vector_result resolved candidates matches)

      -- `VectorRetriever.search`
      unfoldable pub vector_search : RetrievalQuery Float → Exec World (RetrievalResult Float)
      unfolding prepared_search prepare
      vector_search query =
          Exec.◌>>=◌ (lifted (prepare settings vector_capabilities query)) prepared_search

      unfoldable pub vector_retriever : Retriever World Float
      unfolding vector_search
      vector_retriever = record {
        name = "vector";
        capabilities = vector_capabilities;
        search = vector_search;
      }
