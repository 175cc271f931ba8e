-- ===== src/Retrieval/Similarity.antt =====
-- app/retrieval/similarity.py: the vector arithmetic of the retrieval layer, over the floats.
pub mod Width
use agentic_rag.Prelude.{List, [], ◌∷◌, length, ◌==◌, if◌then◌else◌}
use agentic_rag.Prelude.Floats.{Floats}
use agentic_rag.Core.Errors.{Result, ok, raise, value_error}

module _ (F : Floats) where
  open F use {Float, nil, add, mul, div, sqrt, is_nil}

  -- `sum(a * b for a, b in zip(left, right))`, from the accumulated sum
  unfoldable pub dot_from : Float → List Float → List Float → Float
  dot_from acc [] right = acc
  dot_from acc (a ∷ left) [] = acc
  dot_from acc (a ∷ left) (b ∷ right) = dot_from (add acc (mul a b)) left right

  unfoldable pub cosine_similarity : List Float → List Float → Result Float
  unfolding dot_from
  cosine_similarity left right =
      if length left == length right
      then (let norms = mul (sqrt (dot_from nil left left)) (sqrt (dot_from nil right right)) in
          ok (if is_nil norms then nil else div (dot_from nil left right) norms))
      else raise value_error
