-- ===== src/Retrieval/Compressors.antt =====
-- app/retrieval/compressors.py: the stages that shrink a set of documents. The embedding service is a
-- parameter that may raise.
pub mod Sentences
pub mod Budget
pub mod Spread
pub mod Provenance
use agentic_rag.Prelude.{
  ℕ, zero, suc, ◌-◌, String, Bool, true, false, Option, none, some, List, [], ◌∷◌, ◌++◌, map,
  length, is_empty, select, ◌||◌, leb as nat_leb, ltb, ◌==◌, if◌then◌else◌, take, drop,
}
use agentic_rag.Prelude.Text.{join, strip}
use agentic_rag.Prelude.Slices.{text_length, text_take}
use agentic_rag.Prelude.Floats.{Floats}
use agentic_rag.Core.Errors.{Result, ok, raise, value_error, ◌>>=◌}
use agentic_rag.Core.Exec.{lifted, Exec, pure, fail}
use agentic_rag.Core.Exec
use agentic_rag.Retrieval.Base.{Document, ScoredDocument}
use agentic_rag.Retrieval.Similarity.{cosine_similarity}
use agentic_rag.Retrieval.Diversity.{cosines, argmax}
use agentic_rag.Retrieval.Compressors.Sentences.{sentences}

-- `CompressionContext`
pub record CompressionContext (Float : Type 0) : Type 0 where
  pub query : String
  pub embedding : List Float

-- `ContextCompressor`
pub record ContextCompressor (World Float : Type 0) : Type 0 where
  pub name : String
  pub compress :
      CompressionContext Float
      → List (ScoredDocument Float)
      → Exec World (List (ScoredDocument Float))

module _ {Float : Type 0} where
  abbrev pub content_of : ScoredDocument Float → String
  content_of scored = scored.document.content

  -- `len(scored.document.content)`
  abbrev pub size_of : ScoredDocument Float → ℕ
  size_of scored = text_length scored.document.content

  -- `_replace_content`; the id and the metadata come from a document, so they are stripped already
  unfoldable pub replace_content : ScoredDocument Float → String → ScoredDocument Float
  unfolding strip
  replace_content scored content = record {
    document = record {
      id = scored.document.id;
      content = strip content;
      metadata = scored.document.metadata;
    };
    score = scored.score;
  }

  -- the loop of `BudgetCompressor.compress`
  unfoldable pub spend :
      ℕ
      → List (ScoredDocument Float)
      → ℕ
      → List (ScoredDocument Float)
      → List (ScoredDocument Float)
  unfolding replace_content text_take
  spend most kept remaining [] = kept
  spend most kept remaining (scored ∷ documents) =
      let fits = spend most (kept ++ scored ∷ []) (remaining - size_of scored) documents in
      let cut =
        spend most (kept ++ replace_content scored (text_take most (content_of scored)) ∷ []) 0
          documents in
      if nat_leb (size_of scored) remaining then fits else if is_empty kept then cut else kept

  -- `BudgetCompressor.compress`
  unfoldable pub within_budget : ℕ → List (ScoredDocument Float) → List (ScoredDocument Float)
  unfolding spend
  within_budget most documents = spend most [] most documents

module _ (F : Floats) where
  open F use {Float, leb}

  abbrev pub Scored : Type 0
  Scored = ScoredDocument Float

  -- `ScoreThresholdCompressor.compress`
  unfoldable pub above_relevance : Float → List Scored → List Scored
  above_relevance least = select (λ scored. leb least scored.score)

  -- `any(cosine_similarity(vector, existing) >= threshold for existing in kept_vectors)`
  unfoldable pub is_near : Float → List Float → List (List Float) → Result Bool
  is_near threshold vector [] = ok false
  is_near threshold vector (existing ∷ kept) = do
    x ← cosine_similarity F vector existing
    let later = is_near threshold vector kept
    if leb threshold x then ok true else later

  -- the loop of `RedundancyCompressor.compress`: `zip(documents, vectors, strict=True)`
  unfoldable pub drop_near :
      Float
      → List Scored
      → List (List Float)
      → List Scored
      → List (List Float)
      → Result (List Scored × List (List Float))
  unfolding is_near
  drop_near threshold kept kept_vectors [] [] = ok (kept, kept_vectors)
  drop_near threshold kept kept_vectors [] (v ∷ vectors) = raise value_error
  drop_near threshold kept kept_vectors (scored ∷ documents) [] = raise value_error
  drop_near threshold kept kept_vectors (scored ∷ documents) (vector ∷ vectors) = do
    near ← is_near threshold vector kept_vectors
    drop_near threshold (if near then kept else kept ++ scored ∷ [])
        (if near then kept_vectors else kept_vectors ++ vector ∷ []) documents vectors

  -- `[sentence for sentence, score in zip(sentences, scores, strict=True) if score >= least]`
  unfoldable pub relevant : Float → List String → List Float → Result (List String)
  relevant least [] [] = ok []
  relevant least [] (x ∷ scores) = raise value_error
  relevant least (s ∷ ss) [] = raise value_error
  relevant least (s ∷ ss) (x ∷ scores) = do
    kept ← relevant least ss scores
    ok (if leb least x then s ∷ kept else kept)

  -- the sentence at an index
  abbrev pub sentence_at : ℕ → List String → List String
  sentence_at i [] = []
  sentence_at zero (s ∷ ss) = s ∷ []
  sentence_at (suc i) (s ∷ ss) = sentence_at i ss

  -- what is kept, or the best sentence
  abbrev pub kept_or_best : List String → List String → List Float → List String
  kept_or_best [] ss scores = sentence_at (argmax F scores) ss
  kept_or_best (s ∷ kept) ss scores = s ∷ kept

  -- `SentenceCompressor._rebuild`
  unfoldable pub rebuild : Float → Scored → List String → List Float → Result Scored
  unfolding relevant argmax replace_content join
  rebuild least scored [] scores = ok scored
  rebuild least scored (s ∷ ss) scores = do
    kept ← relevant least (s ∷ ss) scores
    ok (replace_content scored (join " " (kept_or_best kept (s ∷ ss) scores)))

  -- the loop of `SentenceCompressor.compress`; the scores from the cursor on
  unfoldable pub rebuild_all : Float → List Scored → List Float → Result (List Scored)
  unfolding rebuild sentences
  rebuild_all least [] scores = ok []
  rebuild_all least (scored ∷ documents) scores = do
    let group = sentences (content_of scored)
    let window = take (length group) scores
    first ← rebuild least scored group window
    rest ← rebuild_all least documents (drop (length group) scores)
    ok (first ∷ rest)

  -- every sentence of every document
  unfoldable pub flat_sentences : List Scored → List String
  unfolding sentences
  flat_sentences [] = []
  flat_sentences (scored ∷ documents) = sentences (content_of scored) ++ flat_sentences documents

  -- the documents rebuilt, given the vectors of their sentences
  unfoldable pub rescored :
      Float → List Float → List Scored → List (List Float) → Result (List Scored)
  unfolding rebuild_all cosines
  rescored least embedding documents vectors = do
    scores ← cosines F embedding vectors
    rebuild_all least documents scores

  module _ {World : Type 0} where
    -- `ScoreThresholdCompressor`
    abbrev pub threshold_compressor : Float → ContextCompressor World Float
    threshold_compressor least = record {
      name = "threshold";
      compress = λ context documents. pure (above_relevance least documents);
    }

    -- `BudgetCompressor`
    abbrev pub budget_compressor : ℕ → ContextCompressor World Float
    budget_compressor most = record {
      name = "budget";
      compress = λ context documents. pure (within_budget most documents);
    }

    module _ (embed_texts : List String → Exec World (List (List Float))) where
      -- `RedundancyCompressor.compress`
      unfoldable pub without_near : Float → List Scored → Exec World (List Scored)
      unfolding drop_near
      without_near threshold documents =
          if ltb (length documents) 2
          then pure documents
          else Exec.◌>>=◌ (embed_texts (map content_of documents)) (λ vectors.
            lifted (drop_near threshold [] [] documents vectors >>= λ kept. ok (kept.0)))

      abbrev pub redundancy_compressor : Float → ContextCompressor World Float
      redundancy_compressor threshold = record {
        name = "redundancy";
        compress = λ context documents. without_near threshold documents;
      }

      -- `SentenceCompressor.compress`
      unfoldable pub by_sentence :
          Float → CompressionContext Float → List Scored → Exec World (List Scored)
      unfolding flat_sentences rescored
      by_sentence least context documents =
          if is_empty documents || is_empty context.embedding || is_empty (flat_sentences documents)
          then pure documents
          else Exec.◌>>=◌ (embed_texts (flat_sentences documents))
              (λ vectors. lifted (rescored least context.embedding documents vectors))

      abbrev pub sentence_compressor : Float → ContextCompressor World Float
      sentence_compressor least = record { name = "sentences"; compress = by_sentence least }
