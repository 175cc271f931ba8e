-- ===== src/Retrieval/Diversity.antt =====
-- app/retrieval/similarity.py: `maximal_marginal_relevance`. The set of the remaining indices is the
-- list of them in ascending order; the source reads it in the order of the interpreter's set.
pub mod Counts
pub mod Best
pub mod Totals
pub mod Selection
pub mod Size
use agentic_rag.Prelude.{
  ℕ, zero, suc, ◌+◌, Bool, true, false, not, ◌||◌, Option, none, some, List, [], ◌∷◌, ◌++◌, length,
  is_empty, min, ltb, ◌==◌, if◌then◌else◌,
}
use agentic_rag.Prelude.Floats.{Floats}
use agentic_rag.Core.Errors.{Result, ok, raise, other, ◌>>=◌}
use agentic_rag.Retrieval.Similarity.{cosine_similarity}

-- `xs[i]`, which raises out of range
unfoldable pub item : {A : Type 0} → List A → ℕ → Result A
item [] i = raise other
item (x ∷ xs) zero = ok x
item (x ∷ xs) (suc i) = item xs i

-- `range(start, start + n)`
unfoldable pub range_from : ℕ → ℕ → List ℕ
range_from start zero = []
range_from start (suc n) = start ∷ range_from (suc start) n

-- `remaining.discard(i)`
unfoldable pub discard : ℕ → List ℕ → List ℕ
discard i [] = []
discard i (j ∷ js) = if j == i then js else j ∷ discard i js

module _ (F : Floats) where
  open F use {Float, unit, sub, mul, leb}

  -- `[cosine_similarity(query, candidate) for candidate in candidates]`
  unfoldable pub cosines : List Float → List (List Float) → Result (List Float)
  cosines query [] = ok []
  cosines query (candidate ∷ candidates) = do
    x ← cosine_similarity F query candidate
    xs ← cosines query candidates
    ok (x ∷ xs)

  -- the rest of `max(range(len(xs)), key=xs.__getitem__)`, from the index `i` on: the first of the
  -- greatest
  unfoldable pub argmax_from : ℕ → ℕ → Float → List Float → ℕ
  argmax_from i best value [] = best
  argmax_from i best value (x ∷ xs) =
      argmax_from (suc i) (if leb x value then best else i) (if leb x value then value else x) xs

  unfoldable pub argmax : List Float → ℕ
  unfolding argmax_from
  argmax [] = 0
  argmax (x ∷ xs) = argmax_from 1 0 x xs

  -- the rest of a `max` over numbers
  unfoldable pub highest : Float → List Float → Float
  highest value [] = value
  highest value (x ∷ xs) = highest (if leb x value then value else x) xs

  -- a `max` over no numbers raises
  unfoldable pub max_of : List Float → Result Float
  unfolding highest
  max_of [] = raise other
  max_of (x ∷ xs) = ok (highest x xs)

  module _ (candidates : List (List Float)) where
    -- the chosen vectors: `candidates[chosen] for chosen in selected`
    unfoldable pub picked : List ℕ → Result (List (List Float))
    unfolding item
    picked [] = ok []
    picked (chosen ∷ selected) = do v ← item candidates chosen; vs ← picked selected; ok (v ∷ vs)

    unfoldable pub redundancy : List ℕ → ℕ → Result Float
    unfolding picked cosines max_of item
    redundancy selected index = do
      v ← item candidates index
      vs ← picked selected
      xs ← cosines v vs
      max_of xs

    -- `if value > best_value: best_index, best_value = index, value`
    abbrev pub better : ℕ → Float → Option (ℕ × Float) → Option (ℕ × Float)
    better index value none = some (index, value)
    better index value (some (i, x)) = if leb value x then some (i, x) else some (index, value)

    module _ (relevance : List Float) (lambda_mult : Float) where
      -- one candidate's marginal value
      unfoldable pub marginal : List ℕ → ℕ → Result Float
      unfolding redundancy item
      marginal selected index = do
        r ← redundancy selected index
        x ← item relevance index
        ok (sub (mul lambda_mult x) (mul (sub unit lambda_mult) r))

      -- the inner loop
      unfoldable pub scan : List ℕ → List ℕ → Option (ℕ × Float) → Result (Option (ℕ × Float))
      unfolding marginal
      scan selected [] best = ok best
      scan selected (index ∷ remaining) best = do
        value ← marginal selected index
        scan selected remaining (better index value best)

      -- the outer loop; the fuel is the number of candidates
      unfoldable pub select_more : ℕ → ℕ → List ℕ → List ℕ → Result (List ℕ)
      unfolding scan discard
      select_more zero bound selected remaining = ok selected
      select_more (suc fuel) bound selected remaining =
          let rest : Option (ℕ × Float) → Result (List ℕ) = λ found. elim found [
            | none ↦ ok selected
            | some (best, value) ↦
                select_more fuel bound (selected ++ best ∷ []) (discard best remaining)
          ] in
          if is_empty remaining || not (ltb (length selected) bound)
          then ok selected
          else scan selected remaining none >>= rest

  -- the body after the guard
  unfoldable pub diversify : List Float → List (List Float) → ℕ → Float → Result (List ℕ)
  unfolding cosines argmax select_more discard range_from
  diversify query candidates k lambda_mult = do
    relevance ← cosines query candidates
    let first = argmax relevance
    let n = length candidates
    select_more candidates relevance lambda_mult n (min k n) (first ∷ [])
        (discard first (range_from 0 n))

  unfoldable pub maximal_marginal_relevance :
      List Float → List (List Float) → ℕ → Float → Result (List ℕ)
  unfolding diversify
  maximal_marginal_relevance query candidates k lambda_mult =
      if is_empty candidates || k == 0 then ok [] else diversify query candidates k lambda_mult
