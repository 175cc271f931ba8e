-- ===== src/Retrieval/Factory.antt =====
-- app/retrieval/factory.py: which retriever serves a query. The memo of the wrapped retrievers is left
-- out: a wrapped retriever keeps no state of its own.
pub mod Service
use agentic_rag.Prelude.{
  ℕ, String, Bool, true, false, Option, none, some, List, [], ◌∷◌, if◌then◌else◌,
}
use agentic_rag.Prelude.Floats.{Floats}
use agentic_rag.Core.Exec.{Exec}
use agentic_rag.Retrieval.Base.{SearchType, hybrid, RetrievalQuery, RetrievalResult, VectorMatch}
use agentic_rag.Retrieval.Query.{
  RetrievalSettings, RetrieverCapabilities, Retriever, or_type, is_type,
}
use agentic_rag.Retrieval.Chroma.{StoreQuery}
use agentic_rag.Retrieval.Vector.{vector_retriever}
use agentic_rag.Retrieval.Hybrid.{hybrid_retriever}
use agentic_rag.Retrieval.Compression.{compression_retriever, default_pipeline}

-- what the factory is built with
pub record Parts (F : Floats) (World : Type 0) : Type 0 where
  pub settings : RetrievalSettings F.Float
  pub search_by_vector : StoreQuery F.Float → Exec World (List (VectorMatch F.Float))
  pub embed_text : String → Exec World (List F.Float)
  pub embed_texts : List String → Exec World (List (List F.Float))
  pub sparse : Option (RetrievalQuery F.Float → Exec World (RetrievalResult F.Float))

module _ (F : Floats) {World : Type 0} (parts : Parts F World) where
  open F use {Float}

  abbrev pub vector : Retriever World Float
  vector = vector_retriever F parts.settings parts.search_by_vector parts.embed_text

  abbrev pub fusing : Retriever World Float
  fusing = hybrid_retriever F parts.settings vector parts.sparse

  -- `_compress`
  abbrev pub compressed : Retriever World Float → Retriever World Float
  compressed base =
      compression_retriever parts.settings base parts.embed_text
        (default_pipeline F parts.embed_texts parts.settings)

  -- the strategy of a request
  abbrev pub strategy : Option SearchType → SearchType
  strategy search_type = or_type search_type parts.settings.default_search_type

  abbrev pub base_for : SearchType → Retriever World Float
  base_for t = if is_type t hybrid then fusing else vector

  -- `compression_enabled if compressed is None else compressed`
  abbrev pub use_compression : Option Bool → Bool
  use_compression none = parts.settings.compression_enabled
  use_compression (some choice) = choice

  -- `build`
  unfoldable pub build : Option SearchType → Option Bool → Retriever World Float
  unfolding is_type vector_retriever hybrid_retriever compression_retriever
  build search_type choice =
      let base = base_for (strategy search_type) in
      if use_compression choice then compressed base else base

  -- `for_query`
  unfoldable pub for_query : RetrievalQuery Float → Retriever World Float
  unfolding build
  for_query query = build query.search_type query.compress

  -- `describe`
  unfoldable pub describe : List RetrieverCapabilities
  unfolding vector_retriever hybrid_retriever compression_retriever
  describe =
      vector.capabilities
      ∷ fusing.capabilities
      ∷ (compressed vector).capabilities
      ∷ (compressed fusing).capabilities
      ∷ []
