-- ===== src/Retrieval/Diversity/Size.antt =====
-- `maximal_marginal_relevance` of app/retrieval/similarity.py never selects more than it was asked for.
use agentic_rag.Prelude.{
  ℕ, zero, suc, ◌≤◌, ◌<◌, ◌≡◌, false, not, ◌||◌, Option, none, some, List, [], ◌∷◌, ◌++◌, length,
  length-append, is_empty, min, ltb, ◌==◌, arith,
}
use agentic_rag.Prelude.Floats.{Floats}
use agentic_rag.Core.Errors.{ok}
use agentic_rag.Core.Errors.Yields.{Yields, Yields-ok, Yields-bind, Yields-if, Yields-weaken}
use agentic_rag.Retrieval.Diversity.{
  argmax, cosines, scan, discard, select_more, diversify, maximal_marginal_relevance, range_from,
}

abbrev pub HasAtMost : ℕ → List ℕ → Type 0
HasAtMost bound out = length out ≤ bound

module _ (F : Floats) where
  select_more-HasAtMost :
      (candidates : List (List F.Float)) (relevance : List F.Float) (lambda_mult : F.Float)
      (fuel bound : ℕ) (selected remaining : List ℕ)
      → length selected ≤ bound
      → Yields
          (HasAtMost bound)
          (select_more F candidates relevance lambda_mult fuel bound selected remaining)
  unfolding select_more
  select_more-HasAtMost candidates relevance lambda_mult zero bound selected remaining h =
      Yields-ok selected h
  select_more-HasAtMost candidates relevance lambda_mult (suc fuel) bound selected remaining h =
      let again = λ (best : ℕ) (room : length (selected ++ best ∷ []) ≤ bound).
        select_more-HasAtMost candidates relevance lambda_mult fuel bound (selected ++ best ∷ [])
          (discard best remaining) room in
      Yields-if (is_empty remaining || not (ltb (length selected) bound)) (ok selected) _
        (λ full. Yields-ok selected h)
        (λ short.
          Yields-bind (scan F candidates relevance lambda_mult selected remaining none) _
            (λ found e. extended short again found))
    where
      extended :
          (is_empty remaining || not (ltb (length selected) bound)) ≡ false
          → ((best : ℕ)
              → length (selected ++ best ∷ []) ≤ bound
              → Yields (HasAtMost bound) (
                  select_more F candidates relevance lambda_mult fuel bound
                    (selected ++ best ∷ [])
                    (discard best remaining)))
          → (found : Option (ℕ × F.Float))
          → Yields (HasAtMost bound) (elim found [
            | none ↦ ok selected
            | some (best, value) ↦
                select_more F candidates relevance lambda_mult fuel bound
                  (selected ++ best ∷ [])
                  (discard best remaining)
          ])
      extended short again none = Yields-ok selected h
      extended short again (some (best, value)) =
          again best (ground (arith, short, length-append selected (best ∷ [])))

  -- one index and more, as many as fit
  diversify-HasAtMost :
      (query : List F.Float) (candidates : List (List F.Float)) (k : ℕ) (lambda_mult : F.Float)
      → 0 < length candidates
      → 0 < k
      → Yields (HasAtMost k) (diversify F query candidates k lambda_mult)
  unfolding diversify
  diversify-HasAtMost query candidates k lambda_mult some_candidate asked =
      let n = length candidates in
      Yields-bind (cosines F query candidates) _ (λ relevance e.
        Yields-weaken _
          (select_more-HasAtMost candidates relevance lambda_mult n (min k n)
            (argmax F relevance ∷ []) (discard (argmax F relevance) (range_from 0 n)) (omega arith))
          (λ out h. omega arith))

  pub maximal_marginal_relevance-HasAtMost :
      (query : List F.Float) (candidates : List (List F.Float)) (k : ℕ) (lambda_mult : F.Float)
      → Yields (HasAtMost k) (maximal_marginal_relevance F query candidates k lambda_mult)
  unfolding maximal_marginal_relevance
  maximal_marginal_relevance-HasAtMost query [] k lambda_mult = Yields-ok [] (omega arith)
  maximal_marginal_relevance-HasAtMost query (c ∷ cs) zero lambda_mult = Yields-ok [] (omega arith)
  maximal_marginal_relevance-HasAtMost query (c ∷ cs) (suc k) lambda_mult =
      let asked : suc k == 0 ≡ false = ground arith in
      rw asked (diversify-HasAtMost query (c ∷ cs) (suc k) lambda_mult (omega arith) (omega arith))
