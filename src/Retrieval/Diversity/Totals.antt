-- ===== src/Retrieval/Diversity/Totals.antt =====
-- `maximal_marginal_relevance` of app/retrieval/similarity.py: its steps return where the vectors have
-- one width and the indices are in range.
use agentic_rag.Prelude.{
  ℕ, suc, ◌<◌, ◌≡◌, refl, subst, sym, ap, none, some, List, [], ◌∷◌, length, All, arith, Bool-cases,
  inl, inr,
}
use agentic_rag.Prelude.Floats.{Floats}
use agentic_rag.Core.Errors.{ok}
use agentic_rag.Retrieval.Similarity.Width.{cosine_of_length}
use agentic_rag.Retrieval.Diversity.{cosines, max_of, picked, redundancy, marginal, scan}
use agentic_rag.Retrieval.Diversity.Best.{item_total}

module _ (F : Floats) where
  open F use {Float, leb, leb_refl, leb_trans, leb_total}

  All-any : (xs : List Float) → All (λ (x : Float). Unit {0}) xs
  All-any [] = tt
  All-any (x ∷ xs) = (tt, All-any xs)

  -- the vector is as wide as another
  abbrev pub Wide : ℕ → List Float → Type 0
  Wide w v = length v ≡ w

  pub cosines_total :
      (v : List Float) (vs : List (List Float))
      → All (Wide (length v)) vs
      → (xs : List Float) × (cosines F v vs ≡ ok xs) × (length xs ≡ length vs)
  unfolding cosines
  cosines_total v [] h = ([], refl, refl)
  cosines_total v (c ∷ cs) h =
      let (x, cosine) = cosine_of_length F v c (ground (arith, h.0)) in
      let (xs, more, size) = cosines_total v cs h.1 in (x ∷ xs, rw (cosine, more) refl, ap suc size)

  max_of_total : (xs : List Float) → 0 < length xs → (x : Float) × (max_of F xs ≡ ok x)
  unfolding max_of
  max_of_total [] h = absurd (omega arith)
  max_of_total (x ∷ xs) h = (_, refl)

  module _ (candidates : List (List Float)) (w : ℕ) (wide : All (Wide w) candidates) where
    -- an index of a candidate
    abbrev pub Within : ℕ → Type 0
    Within i = i < length candidates

    picked_total :
        (selected : List ℕ)
        → All Within selected
        → (vs : List (List Float)) × (picked F candidates selected ≡ ok vs)
          × All (Wide w) vs
          × (length vs ≡ length selected)
    unfolding picked
    picked_total [] h = ([], refl, tt, refl)
    picked_total (i ∷ selected) h =
        let (v, at, width) = item_total (Wide w) candidates i h.0 wide in
        let (vs, more, widths, size) = picked_total selected h.1 in
        (v ∷ vs, rw (at, more) refl, (width, widths), ap suc size)

    redundancy_total :
        (selected : List ℕ) (index : ℕ)
        → All Within selected
        → 0 < length selected
        → Within index
        → (x : Float) × (redundancy F candidates selected index ≡ ok x)
    unfolding redundancy
    redundancy_total selected index h pos within =
        let (v, at, width) = item_total (Wide w) candidates index within wide in
        let (vs, all, widths, size) = picked_total selected h in
        let (xs, scored, count') =
          cosines_total v vs (subst (λ (m : ℕ). All (Wide m) vs) (sym width) widths) in
        let (x, top) = max_of_total xs (omega arith) in (x, rw (at, redundancy, all, scored) top)

    module _ (relevance : List Float) (lambda_mult : Float)
        (sized : length relevance ≡ length candidates) where
      marginal_total :
          (selected : List ℕ) (index : ℕ)
          → All Within selected
          → 0 < length selected
          → Within index
          → (x : Float) × (marginal F candidates relevance lambda_mult selected index ≡ ok x)
      unfolding marginal
      marginal_total selected index h pos within =
          let (r, red) = redundancy_total selected index h pos within in
          let (x, at, u) =
            item_total (λ (x : Float). Unit {0}) relevance index (omega arith)
              (All-any relevance) in
          (
            F.sub (F.mul lambda_mult x) (F.mul (F.sub F.unit lambda_mult) r),
            rw (red, marginal, at) refl,
          )

      module _ (P : ℕ → Type 0) (selected : List ℕ) (h : All Within selected)
          (pos : 0 < length selected) where
        -- a scan that has a candidate ends with one
        scan_on :
            (remaining : List ℕ) (i : ℕ) (x : Float)
            → All Within remaining
            → All P remaining
            → P i
            → (j : ℕ) × (y : Float) × (scan F candidates relevance lambda_mult selected remaining
                  (some (i, x))
                ≡ ok (some (j, y)))
              × P j
        unfolding scan
        scan_on [] i x within holds p = (i, x, refl, p)
        scan_on (r ∷ remaining) i x within holds p =
            let (v, at) = marginal_total selected r h pos within.0 in
            elim (Bool-cases (leb v x)) [
              | inl below ↦ rw (at, scan, below) (scan_on remaining i x within.1 holds.1 p)
              | inr above ↦ rw (at, scan, above) (scan_on remaining r v within.1 holds.1 holds.0)
            ]

        pub scan_total :
            (r : ℕ) (remaining : List ℕ)
            → All Within (r ∷ remaining)
            → All P (r ∷ remaining)
            → (j : ℕ) × (y : Float) × (scan F candidates relevance lambda_mult selected
                  (r ∷ remaining)
                  none
                ≡ ok (some (j, y)))
              × P j
        unfolding scan
        scan_total r remaining within holds =
            let (v, at) = marginal_total selected r h pos within.0 in
            rw (at, scan) (scan_on remaining r v within.1 holds.1 holds.0)
