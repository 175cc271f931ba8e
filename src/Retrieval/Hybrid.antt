-- ===== src/Retrieval/Hybrid.antt =====
-- app/retrieval/hybrid.py: the fusion of a dense and a sparse ranking.
pub mod Documents
pub mod Fused
use agentic_rag.Prelude.{
  ℕ, ◌+◌, String, Bool, true, false, not, Option, none, some, List, [], ◌∷◌, ◌++◌, map, length,
  take, if◌then◌else◌,
}
use agentic_rag.Prelude.Text.{string_discrete}
use agentic_rag.Prelude.Floats.{Floats}
use agentic_rag.Prelude.Sort.{sort_desc}
use agentic_rag.Dict.{Dict, get, assign}
use agentic_rag.Core.Errors.{Result, ok, raise, other, ◌>>=◌}
use agentic_rag.Core.Exec.{Exec, pure}
use agentic_rag.Core.Exec
use agentic_rag.Retrieval.Base.{
  Document, SearchType, similarity, mmr, hybrid, ScoredDocument, RetrievalQuery, RetrievalResult,
}
use agentic_rag.Retrieval.Query.{
  RetrievalSettings, RetrieverCapabilities, Retriever, or_number, or_type, is_type, prepare,
}
use agentic_rag.Retrieval.Fusion.{reciprocal_rank_fusion}
use agentic_rag.Core.Exec.{lifted}

abbrev pub hybrid_capabilities : RetrieverCapabilities
hybrid_capabilities = record {
  name = "hybrid";
  search_types = hybrid ∷ similarity ∷ mmr ∷ [];
  compresses = false;
}

-- `by_id[identifier]`, which raises for a missing key
unfoldable pub document_at : Dict String Document → String → Result Document
document_at d id = elim (get string_discrete id d) [ none ↦ raise other | some x ↦ ok x ]

module _ {Float : Type 0} where
  abbrev pub id_of : ScoredDocument Float → String
  id_of d = d.document.id

  -- `{scored.document.id: scored.document for scored in documents}`, over a dictionary
  unfoldable pub documents_by_id :
      List (ScoredDocument Float) → Dict String Document → Dict String Document
  documents_by_id [] d = d
  documents_by_id (x ∷ xs) d = documents_by_id xs (assign string_discrete (id_of x) x.document d)

  -- `[ScoredDocument(document=by_id[identifier], score=score) for … in ranked]`
  unfoldable pub rebuilt :
      Dict String Document → List (String × Float) → Result (List (ScoredDocument Float))
  unfolding document_at
  rebuilt d [] = ok []
  rebuilt d (r ∷ ranked) = do
    x ← document_at d (r.0)
    rest ← rebuilt d ranked
    ok (record { document = x; score = r.1 } ∷ rest)

  -- a query for either side, which runs its own strategy
  abbrev pub own_strategy : RetrievalQuery Float → RetrievalQuery Float
  own_strategy query = record query { search_type = none }

  -- the dense result alone, when there is no sparse side
  abbrev pub skipped : RetrievalResult Float → RetrievalResult Float
  skipped dense = record dense {
    search_type = hybrid;
    retriever = "hybrid";
    stages = dense.stages ++ "fusion:skipped" ∷ [];
  }

  abbrev pub fused_result :
      RetrievalResult Float
      → RetrievalResult Float
      → List (ScoredDocument Float)
      → RetrievalResult Float
  fused_result dense sparse documents = record {
    documents = documents;
    search_type = hybrid;
    retriever = "hybrid";
    candidates = length dense.documents + length sparse.documents;
    stages = dense.stages ++ "sparse" ∷ "fusion:rrf" ∷ [];
  }

module _ (F : Floats) (settings : RetrievalSettings F.Float) where
  open F use {Float, unit, sub}

  -- the key that a fusion is sorted by
  abbrev pub fused_score : String × Float → Float
  fused_score r = r.1

  -- the rankings, by their ids
  abbrev pub rankings :
      List (ScoredDocument Float) → List (ScoredDocument Float) → List (List String)
  rankings dense sparse = map id_of dense ∷ map id_of sparse ∷ []

  -- `_fuse`
  unfoldable pub fuse :
      List (ScoredDocument Float)
      → List (ScoredDocument Float)
      → RetrievalQuery Float
      → Result (List (ScoredDocument Float))
  unfolding documents_by_id rebuilt reciprocal_rank_fusion sort_desc or_number
  fuse dense sparse query = do
    fused ←
        reciprocal_rank_fusion F (rankings dense sparse)
          (some (settings.dense_weight ∷ sub unit settings.dense_weight ∷ [])) settings.rrf_k
    let ranked = sort_desc F fused_score fused
    rebuilt (documents_by_id (sparse ++ dense) [])
        (take (or_number query.top_k settings.top_k) ranked)

  module _ {World : Type 0} (dense : Retriever World Float)
      (sparse : Option (RetrievalQuery Float → Exec World (RetrievalResult Float))) where
    -- both sides, fused
    unfoldable pub search_both :
        (RetrievalQuery Float → Exec World (RetrievalResult Float))
        → RetrievalQuery Float
        → RetrievalResult Float
        → Exec World (RetrievalResult Float)
    unfolding fuse
    search_both sparse_search resolved dense_result =
        Exec.◌>>=◌ (sparse_search (own_strategy resolved)) λ sparse_result.
          Exec.◌>>=◌ (lifted (fuse dense_result.documents sparse_result.documents resolved))
            λ documents. pure (fused_result dense_result sparse_result documents)

    -- the search for a prepared query
    unfoldable pub prepared_hybrid : RetrievalQuery Float → Exec World (RetrievalResult Float)
    unfolding search_both is_type
    prepared_hybrid resolved =
        if not (is_type (or_type resolved.search_type similarity) hybrid)
        then dense.search resolved
        else Exec.◌>>=◌ (dense.search (own_strategy resolved)) λ dense_result. elim sparse [
          | none ↦ pure (skipped dense_result)
          | some sparse_search ↦ search_both sparse_search resolved dense_result
        ]

    -- `HybridRetriever.search`
    unfoldable pub hybrid_search : RetrievalQuery Float → Exec World (RetrievalResult Float)
    unfolding prepared_hybrid prepare
    hybrid_search query =
        Exec.◌>>=◌ (lifted (prepare settings hybrid_capabilities query)) prepared_hybrid

    unfoldable pub hybrid_retriever : Retriever World Float
    unfolding hybrid_search
    hybrid_retriever = record {
      name = "hybrid";
      capabilities = hybrid_capabilities;
      search = hybrid_search;
    }
