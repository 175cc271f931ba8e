-- ===== src/Retrieval/Compressors/Spread.antt =====
-- What `RedundancyCompressor` of app/retrieval/compressors.py keeps: no two documents that are near each
-- other, and one near each document that it drops.
use mathlib.Core.List.{append_assoc, append-nil}
use agentic_rag.Prelude.{
  ◌∙◌, length-append, ℕ, ◌≡◌, refl, true, false, List, [], ◌∷◌, ◌++◌, All, All-append, Bool-cases,
  inl, inr, length, subst, ◌⊎◌, sym, arith,
}
use agentic_rag.Prelude.Floats.{Floats}
use agentic_rag.Core.Errors.{ok}
use agentic_rag.Retrieval.Base.{ScoredDocument}
use agentic_rag.Retrieval.Similarity.{cosine_similarity}
use agentic_rag.Retrieval.Similarity.Width.{cosine_of_length}
use agentic_rag.Retrieval.Diversity.Totals.{Wide}
use agentic_rag.Retrieval.Compressors.{is_near, drop_near}

module _ (F : Floats) (threshold : F.Float) where
  open F use {Float, leb}

  -- the similarity of the two vectors reaches the threshold, or stays below it
  abbrev pub AreNear : List Float → List Float → Type 0
  AreNear v w = (x : Float) × (cosine_similarity F v w ≡ ok x) × (leb threshold x ≡ true)

  abbrev pub AreApart : List Float → List Float → Type 0
  AreApart v w = (x : Float) × (cosine_similarity F v w ≡ ok x) × (leb threshold x ≡ false)

  -- some vector of the list is near
  abbrev pub HasNear : List Float → List (List Float) → Type 0
  HasNear v [] = ⊥
  HasNear v (w ∷ ws) = AreNear v w ⊎ HasNear v ws

  -- each vector is apart from those that were kept before it
  abbrev pub IsSpread : List (List Float) → List (List Float) → Type 0
  IsSpread before [] = Unit
  IsSpread before (v ∷ vs) = All (AreApart v) before × IsSpread (before ++ v ∷ []) vs

  is_near_total :
      (v : List Float) (kept : List (List Float))
      → All (Wide F (length v)) kept
      → ((is_near F threshold v kept ≡ ok true) × HasNear v kept)
        ⊎ ((is_near F threshold v kept ≡ ok false) × All (AreApart v) kept)
  unfolding is_near
  is_near_total v [] h = inr (refl, tt)
  is_near_total v (w ∷ kept) h =
      let (x, cosine) = cosine_of_length F v w (ground (arith, h.0)) in
      elim (Bool-cases (leb threshold x)) [
        | inl high ↦ inl (rw (cosine, is_near, high) refl, inl (x, cosine, high))
        | inr low ↦ elim (is_near_total v kept h.1) [
          | inl (near, has) ↦ inl (rw (cosine, is_near, low) near, inr has)
          | inr (far, apart) ↦ inr (rw (cosine, is_near, low) far, ((x, cosine, low), apart))
        ]
      ]

  -- the vector, or one near it, stands in the list
  abbrev pub IsCovered : List (List Float) → List Float → Type 0
  IsCovered [] v = ⊥
  IsCovered (w ∷ ws) v = ((v ≡ w) ⊎ AreNear v w) ⊎ IsCovered ws v

  IsCovered-of_HasNear : (v : List Float) (ws : List (List Float)) → HasNear v ws → IsCovered ws v
  IsCovered-of_HasNear v [] h = elim h [ ]
  IsCovered-of_HasNear v (w ∷ ws) (inl near) = inl (inr near)
  IsCovered-of_HasNear v (w ∷ ws) (inr later) = inr (IsCovered-of_HasNear v ws later)

  IsCovered-append :
      (v : List Float) (ws us : List (List Float)) → IsCovered ws v → IsCovered (ws ++ us) v
  IsCovered-append v [] us h = elim h [ ]
  IsCovered-append v (w ∷ ws) us (inl here) = inl here
  IsCovered-append v (w ∷ ws) us (inr later) = inr (IsCovered-append v ws us later)

  last-IsCovered : (v : List Float) (ws : List (List Float)) → IsCovered (ws ++ v ∷ []) v
  last-IsCovered v [] = inl (inl refl)
  last-IsCovered v (w ∷ ws) = inr (last-IsCovered v ws)

  IsSpread-append_last :
      (before vs : List (List Float)) (v : List Float)
      → IsSpread before vs
      → All (AreApart v) before
      → All (AreApart v) vs
      → IsSpread before (vs ++ v ∷ [])
  IsSpread-append_last before [] v h old apart = (old, tt)
  IsSpread-append_last before (w ∷ vs) v h old apart = (
    h.0,
    IsSpread-append_last (before ++ w ∷ []) vs v h.1
        (All-append (AreApart v) before (w ∷ []) old (apart.0, tt)) apart.1,
  )

  -- the documents and vectors that come out, in the order they went in: a document goes where its
  -- vector is near one kept before it, and otherwise stays, with its own vector
  abbrev pub Thins :
      List (List Float)
      → List (ScoredDocument Float)
      → List (List Float)
      → List (ScoredDocument Float)
      → List (List Float)
      → Type 0
  Thins before [] [] out out_vectors = (out ≡ []) × (out_vectors ≡ [])
  Thins before [] (v ∷ vectors) out out_vectors = ⊥
  Thins before (d ∷ documents) [] out out_vectors = ⊥
  Thins before (d ∷ documents) (v ∷ vectors) out out_vectors =
      (HasNear v before × Thins before documents vectors out out_vectors)
      ⊎ ((rest : List (ScoredDocument Float)) × (rest_vectors : List (List Float)) × (out
            ≡ d ∷ rest)
          × (out_vectors ≡ v ∷ rest_vectors)
          × All (AreApart v) before
          × Thins (before ++ v ∷ []) documents vectors rest rest_vectors)

  -- what the loop returns: the documents that it does not drop, each with its vector, none of these
  -- near an earlier one, and every vector that went in covered
  pub record IsThinned (documents : List (ScoredDocument Float)) (vectors : List (List Float))
      (out : List (ScoredDocument Float) × List (List Float)) : Type 0 where
    pub thins : Thins [] documents vectors out.0 out.1
    pub paired : length out.0 ≡ length out.1
    pub spread : IsSpread [] out.1
    pub covered : All (IsCovered out.1) vectors

  -- what a run adds to what it was given
  record IsGrown (kept : List (ScoredDocument Float)) (kept_vectors : List (List Float))
      (documents : List (ScoredDocument Float)) (vectors : List (List Float))
      (out : List (ScoredDocument Float) × List (List Float)) : Type 0 where
    paired : length out.0 ≡ length out.1
    spread : IsSpread [] out.1
    covered : All (IsCovered out.1) vectors
    grows : (v : List Float) → IsCovered kept_vectors v → IsCovered out.1 v
    added : List (ScoredDocument Float)
    added_vectors : List (List Float)
    documents_grown : out.0 ≡ kept ++ added
    vectors_grown : out.1 ≡ kept_vectors ++ added_vectors
    thins : Thins kept_vectors documents vectors added added_vectors

  module _ (width : ℕ) where
    drop_near_from :
        (kept : List (ScoredDocument Float)) (kept_vectors : List (List Float))
        (documents : List (ScoredDocument Float)) (vectors : List (List Float))
        → length documents ≡ length vectors
        → All (Wide F width) vectors
        → All (Wide F width) kept_vectors
        → length kept ≡ length kept_vectors
        → IsSpread [] kept_vectors
        → (out : List (ScoredDocument Float) × List (List Float)) × (drop_near F threshold kept
              kept_vectors documents vectors
            ≡ ok out)
          × IsGrown kept kept_vectors documents vectors out
    unfolding drop_near
    drop_near_from kept vs [] [] same wide kept_wide paired spread = (
      (kept, vs),
      refl,
      record {
        paired = paired;
        spread = spread;
        covered = tt;
        grows = λ v c. c;
        added = [];
        added_vectors = [];
        documents_grown = sym (append-nil kept);
        vectors_grown = sym (append-nil vs);
        thins = (refl, refl);
      },
    )
    drop_near_from kept vs [] (v ∷ vectors) same wide kept_wide paired spread = absurd (omega arith)
    drop_near_from kept vs (d ∷ ds) [] same wide kept_wide paired spread = absurd (omega arith)
    drop_near_from kept vs (d ∷ ds) (v ∷ vectors) same wide kept_wide paired spread =
        elim (is_near_total v vs (subst (λ (n : ℕ). All (Wide F n) vs) (sym wide.0) kept_wide)) [
          | inl (near, has) ↦
              let (out, done, thin) =
                drop_near_from kept vs ds vectors (omega arith) wide.1 kept_wide paired spread in
              (
                out,
                rw (near, drop_near) done,
                record {
                  paired = thin.paired;
                  spread = thin.spread;
                  grows = thin.grows;
                  added = thin.added;
                  added_vectors = thin.added_vectors;
                  documents_grown = thin.documents_grown;
                  vectors_grown = thin.vectors_grown;
                  covered = (thin.grows v (IsCovered-of_HasNear v vs has), thin.covered);
                  thins = inl (has, thin.thins);
                },
              )
          | inr (far, apart) ↦
              let (out, done, thin) =
                drop_near_from (kept ++ d ∷ []) (vs ++ v ∷ []) ds vectors (omega arith) wide.1
                  (All-append (Wide F width) vs (v ∷ []) kept_wide (wide.0, tt))
                  (omega (arith, length-append kept (d ∷ []), length-append vs (v ∷ []), paired))
                  (IsSpread-append_last [] vs v spread tt apart) in
              (
                out,
                rw (far, drop_near) done,
                record {
                  paired = thin.paired;
                  spread = thin.spread;
                  covered = (thin.grows v (last-IsCovered v vs), thin.covered);
                  grows = λ u c. thin.grows u (IsCovered-append u vs (v ∷ []) c);
                  added = d ∷ thin.added;
                  added_vectors = v ∷ thin.added_vectors;
                  documents_grown = thin.documents_grown ∙ append_assoc kept (d ∷ []) thin.added;
                  vectors_grown = thin.vectors_grown ∙ append_assoc vs (v ∷ []) thin.added_vectors;
                  thins = inr (thin.added, thin.added_vectors, refl, refl, apart, thin.thins);
                },
              )
        ]

    -- Given one vector of one width for each document, the pass returns, and raises nothing. A
    -- document is dropped where its vector is near one kept before it, by the threshold; every other
    -- document is returned, in its place and with its own vector. So no vector that is kept is near
    -- one kept before it, and each vector that went in is kept or has a near one that is.
    pub drop_near-IsThinned :
        (documents : List (ScoredDocument Float)) (vectors : List (List Float))
        → length documents ≡ length vectors
        → All (Wide F width) vectors
        → (out : List (ScoredDocument Float) × List (List Float)) × (drop_near F threshold [] []
              documents vectors
            ≡ ok out)
          × IsThinned documents vectors out
    drop_near-IsThinned documents vectors same wide =
        let (out, done, thin) = drop_near_from [] [] documents vectors same wide tt refl tt in
        (
          out,
          done,
          record {
            thins = rw (thin.documents_grown, thin.vectors_grown) thin.thins;
            paired = thin.paired;
            spread = thin.spread;
            covered = thin.covered;
          },
        )
