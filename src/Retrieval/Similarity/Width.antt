-- ===== src/Retrieval/Similarity/Width.antt =====
-- `cosine_similarity` of app/retrieval/similarity.py returns for vectors of one width.
use agentic_rag.Prelude.{List, length, ◌≡◌, refl, true, ◌==◌ as nat_eq}
use agentic_rag.Prelude.Floats.{Floats}
use agentic_rag.Core.Errors.{ok}
use agentic_rag.Retrieval.Similarity.{cosine_similarity}

module _ (F : Floats) where
  open F use {Float}

  pub cosine_of_length :
      (a b : List Float)
      → nat_eq (length a) (length b) ≡ true
      → (x : Float) × (cosine_similarity F a b ≡ ok x)
  unfolding cosine_similarity
  cosine_of_length a b h = rw h (_, refl)
