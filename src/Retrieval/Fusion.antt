-- ===== src/Retrieval/Fusion.antt =====
-- app/retrieval/similarity.py: `reciprocal_rank_fusion` and `maximal_marginal_relevance`.
pub mod Ids
use mathlib.Core.Option
use agentic_rag.Prelude.{
  ℕ, zero, suc, ◌+◌, ◌≤◌, String, Bool, true, false, not, Option, none, some, List, [], ◌∷◌, ◌++◌,
  map, length, min, leb as nat_leb, ◌==◌, if◌then◌else◌,
}
use agentic_rag.Prelude.Text.{string_discrete}
use agentic_rag.Prelude.Floats.{Floats}
use agentic_rag.Dict.{Dict, get, assign}
use agentic_rag.Core.Errors.{Result, ok, raise, value_error}
use agentic_rag.Core.Errors
use agentic_rag.Retrieval.Similarity.{cosine_similarity}

module _ (F : Floats) where
  open F use {Float, nil, unit, add, sub, mul, div, of_ℕ, leb}

  -- one id at a rank: `fused[identifier] = fused.get(identifier, 0.0) + weight / (k + rank)`
  unfoldable pub credit : ℕ → Float → ℕ → String → Dict String Float → Dict String Float
  credit k weight rank id fused =
      assign string_discrete id
        (add (Option.get_or (get string_discrete id fused) nil) (div weight (of_ℕ (k + rank))))
        fused

  -- the inner loop, from a rank on
  unfoldable pub credit_all : ℕ → Float → ℕ → List String → Dict String Float → Dict String Float
  unfolding credit
  credit_all k weight rank [] fused = fused
  credit_all k weight rank (id ∷ ids) fused =
      credit_all k weight (suc rank) ids (credit k weight rank id fused)

  -- the outer loop, over the rankings with their factors
  unfoldable pub fuse_all :
      ℕ → List (List String) → List Float → Dict String Float → Dict String Float
  unfolding credit_all
  fuse_all k [] factors fused = fused
  fuse_all k (ranking ∷ rankings) [] fused = fused
  fuse_all k (ranking ∷ rankings) (weight ∷ factors) fused =
      fuse_all k rankings factors (credit_all k weight 1 ranking fused)

  abbrev pub units : List (List String) → List Float
  units = map (λ r. unit)

  unfoldable pub reciprocal_rank_fusion :
      List (List String) → Option (List Float) → ℕ → Result (Dict String Float)
  unfolding fuse_all
  reciprocal_rank_fusion rankings none k = ok (fuse_all k rankings (units rankings) [])
  reciprocal_rank_fusion rankings (some weights) k =
      if length weights == length rankings
      then ok (fuse_all k rankings weights [])
      else raise value_error
