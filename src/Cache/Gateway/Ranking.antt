-- ===== src/Cache/Gateway/Ranking.antt =====
-- app/cache/gateway.py: `_ranked_candidates` never raises, keeps what reaches the threshold and
-- puts the best first.
use agentic_rag.Prelude.{
  All, String, List, [], ◌∷◌, ◌≡◌, refl, arith, true, length, Bool-cases, inl, inr, ◌==◌ as nat_eq,
}
use agentic_rag.Prelude.Floats.{Floats}
use agentic_rag.Prelude.Sort.{sort_desc, IsDescending, sort_desc-IsDescending, sort_desc-All}
use agentic_rag.Core.Errors.{ok}
use agentic_rag.Retrieval.Similarity.Width.{cosine_of_length}
use agentic_rag.Cache.Gateway.{score, ranked_candidates, similarity_of}

module _ (F : Floats) where
  open F use {Float, leb}

  -- the similarity reaches the threshold
  abbrev pub Reaches : Float → String × Float → Type 0
  Reaches threshold c = leb threshold c.1 ≡ true

  score_total :
      (threshold : Float) (embedding : List Float) (indexed : List (String × List Float))
      → (scored : List (String × Float)) × (score F threshold embedding indexed ≡ ok scored)
        × All (Reaches threshold) scored
  unfolding score
  score_total threshold embedding [] = ([], refl, tt)
  score_total threshold embedding ((key, vector) ∷ indexed) =
      let (rest, scored, reach) = score_total threshold embedding indexed in
      elim (Bool-cases (nat_eq (length vector) (length embedding))) [
        | inr other ↦ rw (other, scored) (rest, refl, reach)
        | inl same ↦
            let (x, cosine) = cosine_of_length F embedding vector (ground arith) in
            elim (Bool-cases (leb threshold x)) [
              | inl high ↦ rw (same, scored, cosine, high) ((key, x) ∷ rest, refl, (high, reach))
              | inr low ↦ rw (same, scored, cosine, low) (rest, refl, reach)
            ]
      ]

  -- Ranking never raises: vectors of another width are skipped. Its result is in descending
  -- order of similarity, and every similarity in it reaches the threshold.
  pub ranked_candidates_total :
      (threshold : Float) (embedding : List Float) (indexed : List (String × List Float))
      → (ranked : List (String × Float)) × (ranked_candidates F threshold embedding indexed
          ≡ ok ranked)
        × IsDescending F (similarity_of F) ranked
        × All (Reaches threshold) ranked
  unfolding ranked_candidates
  ranked_candidates_total threshold embedding indexed =
      let (scored, done, reach) = score_total threshold embedding indexed in
      (
        sort_desc F (similarity_of F) scored,
        rw done,
        sort_desc-IsDescending F (similarity_of F) scored,
        sort_desc-All F (similarity_of F) (Reaches threshold) scored reach,
      )
