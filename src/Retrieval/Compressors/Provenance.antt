-- ===== src/Retrieval/Compressors/Provenance.antt =====
-- The compressors of app/retrieval/compressors.py only remove documents and rewrite their contents:
-- whatever holds of every document by its id, its metadata and its score still holds afterwards.
use agentic_rag.Prelude.{
  ltb, map, ◌||◌, ℕ, ◌-◌, refl, String, Bool, true, false, List, [], ◌∷◌, ◌++◌, All, All-append,
  leb as nat_leb, is_empty, Bool-cases, inl, inr, if◌then◌else◌, length, take, drop, select,
}
use agentic_rag.Prelude.Text.{join}
use agentic_rag.Prelude.Slices.{text_take}
use agentic_rag.Prelude.Floats.{Floats}
use agentic_rag.Core.Errors.{Result, ok, raise}
use agentic_rag.Core.Errors.Yields.{Yields, Yields-ok, Yields-bind, Yields-raise}
use agentic_rag.Core.Exec.{lifted, Exec, pure}
use agentic_rag.Core.Exec.Ensures.{Ensures, Ensures-pure, Ensures-fail, Ensures-after, Ensures-if}
use agentic_rag.Retrieval.Base.{ScoredDocument}
use agentic_rag.Retrieval.Diversity.{cosines}
use agentic_rag.Retrieval.Compressors.Sentences.{sentences}
use agentic_rag.Retrieval.Compressors.{
  kept_or_best, flat_sentences, ContextCompressor, CompressionContext, content_of, size_of,
  replace_content, spend, within_budget, above_relevance, is_near, drop_near, relevant, rebuild,
  rebuild_all, rescored, threshold_compressor, budget_compressor, without_near,
  redundancy_compressor, by_sentence, sentence_compressor,
}

module _ {A : Type 0} {P : A → Type 0} where
  pub Ensures-lifted : {W : Type 0} (r : Result A) → Yields P r → Ensures {S = W} P (lifted r)
  Ensures-lifted (ok a) h = Ensures-pure a (h.at a refl)
  Ensures-lifted (raise x) h = Ensures-fail x

module _ {Float : Type 0} where
  -- a property that does not read the content
  pub record IsStable (Q : ScoredDocument Float → Type 0) : Type 0 where
    pub under : (d : ScoredDocument Float) (content : String) → Q d → Q (replace_content d content)

  -- a stage that keeps every such property of all its documents
  pub record Keeps {World : Type 0} (c : ContextCompressor World Float) : Type 1 where
    pub every :
        (Q : ScoredDocument Float → Type 0)
        → IsStable Q
        → (context : CompressionContext Float) (documents : List (ScoredDocument Float))
        → All Q documents
        → Ensures (All Q) (c.compress context documents)

module _ (F : Floats) (Q : ScoredDocument F.Float → Type 0) where
  select-All :
      (p : ScoredDocument F.Float → Bool) (ds : List (ScoredDocument F.Float))
      → All Q ds
      → All Q (select p ds)
  select-All p [] h = tt
  select-All p (d ∷ ds) h = elim (Bool-cases (p d)) [
    | inl stays ↦ rw stays (h.0, select-All p ds h.1)
    | inr goes ↦ rw goes (select-All p ds h.1)
  ]

  module _ (stable : IsStable Q) where
    spend-All :
        (most : ℕ) (kept : List (ScoredDocument F.Float)) (remaining : ℕ)
        (ds : List (ScoredDocument F.Float))
        → All Q kept
        → All Q ds
        → All Q (spend most kept remaining ds)
    unfolding spend
    spend-All most kept remaining [] k h = k
    spend-All most kept remaining (d ∷ ds) k h = elim (Bool-cases (nat_leb (size_of d) remaining)) [
      | inl fits ↦ rw fits (
          spend-All most (kept ++ d ∷ []) (remaining - size_of d) ds
            (All-append Q kept (d ∷ []) k (h.0, tt)) h.1)
      | inr large ↦ elim (Bool-cases (is_empty kept)) [
        | inl first ↦
            let cut = replace_content d (text_take most (content_of d)) in
            rw (large, first)
              (spend-All most (kept ++ cut ∷ []) 0 ds
                (All-append Q kept (cut ∷ []) k
                  (stable.under d (text_take most (content_of d)) h.0, tt))
                h.1)
        | inr later ↦ rw (large, later) k
      ]
    ]

    drop_near-All :
        (threshold : F.Float) (kept : List (ScoredDocument F.Float)) (vs : List (List F.Float))
        (ds : List (ScoredDocument F.Float)) (vectors : List (List F.Float))
        → All Q kept
        → All Q ds
        → Yields (λ out. All Q out.0) (drop_near F threshold kept vs ds vectors)
    unfolding drop_near
    drop_near-All threshold kept vs [] [] k h = Yields-ok _ k
    drop_near-All threshold kept vs [] (v ∷ vectors) k h = Yields-raise _
    drop_near-All threshold kept vs (d ∷ ds) [] k h = Yields-raise _
    drop_near-All threshold kept vs (d ∷ ds) (v ∷ vectors) k h =
        Yields-bind (is_near F threshold v vs) _ (λ near e.
          drop_near-All threshold (if near then kept else kept ++ d ∷ [])
            (if near then vs else vs ++ v ∷ []) ds vectors (grown near) h.1)
      where
        grown : (near : Bool) → All Q (if near then kept else kept ++ d ∷ [])
        grown true = k
        grown false = All-append Q kept (d ∷ []) k (h.0, tt)

    rebuild-All :
        (least : F.Float) (d : ScoredDocument F.Float) (ss : List String) (scores : List F.Float)
        → Q d
        → Yields Q (rebuild F least d ss scores)
    unfolding rebuild
    rebuild-All least d [] scores q = Yields-ok d q
    rebuild-All least d (s ∷ ss) scores q =
        Yields-bind (relevant F least (s ∷ ss) scores) _ (λ kept e.
          Yields-ok _ (stable.under d (join " " (kept_or_best F kept (s ∷ ss) scores)) q))

    rebuild_all-All :
        (least : F.Float) (ds : List (ScoredDocument F.Float)) (scores : List F.Float)
        → All Q ds
        → Yields (All Q) (rebuild_all F least ds scores)
    unfolding rebuild_all
    rebuild_all-All least [] scores h = Yields-ok [] tt
    rebuild_all-All least (d ∷ ds) scores h =
        let group = sentences (content_of d) in
        Yields-bind (rebuild F least d group (take (length group) scores)) _ (λ first e.
          Yields-bind (rebuild_all F least ds (drop (length group) scores)) _ (λ rest e'.
            Yields-ok _ (
              (rebuild-All least d group (take (length group) scores) h.0).at first e,
              (rebuild_all-All least ds (drop (length group) scores) h.1).at rest e',
            )))

module _ (F : Floats) {World : Type 0} where
  pub threshold_compressor-Keeps :
      (least : F.Float) → Keeps (threshold_compressor F {World = World} least)
  unfolding above_relevance
  threshold_compressor-Keeps least = record {
    every = λ Q stable context ds h. Ensures-pure _ (select-All F Q _ ds h);
  }

  pub budget_compressor-Keeps : (most : ℕ) → Keeps (budget_compressor F {World = World} most)
  unfolding within_budget
  budget_compressor-Keeps most = record {
    every = λ Q stable context ds h. Ensures-pure _ (spend-All F Q stable most [] most ds tt h);
  }

  module _ (embed_texts : List String → Exec World (List (List F.Float))) where
    module _ (Q : ScoredDocument F.Float → Type 0) (stable : IsStable Q)
        (ds : List (ScoredDocument F.Float)) (h : All Q ds) where
      without_near-All :
          (threshold : F.Float) → Ensures (All Q) (without_near F embed_texts threshold ds)
      unfolding without_near
      without_near-All threshold =
          Ensures-if (ltb (length ds) 2) (pure ds) _ (λ short. Ensures-pure ds h)
            (λ long. Ensures-after (embed_texts (map content_of ds)) _ (λ vectors.
              Ensures-lifted _ (
                Yields-bind (drop_near F threshold [] [] ds vectors) _ (λ kept e.
                  Yields-ok _
                    ((drop_near-All F Q stable threshold [] [] ds vectors tt h).at kept e)))))

      by_sentence-All :
          (least : F.Float) (context : CompressionContext F.Float)
          → Ensures (All Q) (by_sentence F embed_texts least context ds)
      unfolding by_sentence rescored
      by_sentence-All least context =
          Ensures-if (is_empty ds || is_empty context.embedding || is_empty (flat_sentences F ds))
            (pure ds) _ (λ short. Ensures-pure ds h)
            (λ long. Ensures-after (embed_texts (flat_sentences F ds)) _ (λ vectors.
              Ensures-lifted _ (
                Yields-bind (cosines F context.embedding vectors) _
                  (λ scores e. rebuild_all-All F Q stable least ds scores h))))

    pub redundancy_compressor-Keeps :
        (threshold : F.Float) → Keeps (redundancy_compressor F embed_texts threshold)
    redundancy_compressor-Keeps threshold = record {
      every = λ Q stable context ds h. without_near-All Q stable ds h threshold;
    }

    pub sentence_compressor-Keeps :
        (least : F.Float) → Keeps (sentence_compressor F embed_texts least)
    sentence_compressor-Keeps least = record {
      every = λ Q stable context ds h. by_sentence-All Q stable ds h least context;
    }
