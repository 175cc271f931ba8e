-- ===== src/Retrieval/Diversity/Selection.antt =====
-- What `maximal_marginal_relevance` of app/retrieval/similarity.py selects.
use mathlib.Core.List.{append-nil, append_assoc}
use agentic_rag.Prelude.{
  ℕ, zero, suc, ◌+◌, ◌≤◌, ◌<◌, ◌≡◌, refl, subst, sym, ◌∙◌, false, List, [], ◌∷◌, ◌++◌, length,
  length-append, All, min, arith, ltb, ◌==◌, if◌then◌else◌, Bool-cases, inl, inr,
}
use agentic_rag.Prelude.Floats.{Floats}
use agentic_rag.Core.Errors.{ok}
use agentic_rag.Retrieval.Diversity.{
  range_from, discard, cosines, argmax, select_more, diversify, maximal_marginal_relevance,
}
use agentic_rag.Retrieval.Diversity.Best.{IsBest, argmax-IsBest, IsBest-lt}
use agentic_rag.Retrieval.Diversity.Totals.{Wide, cosines_total, scan_total}
use agentic_rag.Retrieval.Diversity.Counts.{
  count, count-append, count-range, length-range, range-All, All-count, count-discard,
  length-discard, discard-All, All-append_last,
}

module _ (F : Floats) where
  open F use {Float}

  module _ (candidates : List (List Float)) (w : ℕ) (wide : All (Wide F w) candidates)
      (relevance : List Float) (lambda_mult : Float)
      (sized : length relevance ≡ length candidates) where
    abbrev InRange : ℕ → Type 0
    InRange i = i < length candidates

    -- the two sets of the loop share out the indices
    record IsPartial (selected remaining : List ℕ) : Type 0 where
      pub counted :
          (i : ℕ)
          → count i selected + count i remaining ≡ (if ltb i (length candidates) then 1 else 0)
      pub chosen : All InRange selected
      pub open_ones : All InRange remaining
      pub some_chosen : 0 < length selected
      pub shared : length selected + length remaining ≡ length candidates

    advance-IsPartial :
        (selected remaining : List ℕ) (j : ℕ)
        → IsPartial selected remaining
        → 0 < count j remaining
        → InRange j
        → IsPartial (selected ++ j ∷ []) (discard j remaining)
    advance-IsPartial selected remaining j p there within = record {
      counted = λ i.
          ground (
            arith,
            p.counted i,
            count-append i selected (j ∷ []),
            count-discard i j remaining there,
          );
      chosen = All-append_last InRange selected j p.chosen within;
      open_ones = discard-All InRange j remaining p.open_ones;
      some_chosen = omega (arith, length-append selected (j ∷ []));
      shared =
          omega
            (arith, length-append selected (j ∷ []), length-discard j remaining there, p.shared);
    }

    -- a list of the loop's result: as many as asked, with what was selected first
    record IsExtension (bound : ℕ) (selected out : List ℕ) : Type 0 where
      pub more : List ℕ
      pub rest : List ℕ
      pub begins : out ≡ selected ++ more
      pub partial : IsPartial out rest
      pub filled : length out ≡ bound

    longer :
        {bound : ℕ} (selected : List ℕ) (j : ℕ) {out : List ℕ}
        → IsExtension bound (selected ++ j ∷ []) out
        → IsExtension bound selected out
    longer selected j e = record {
      more = j ∷ e.more;
      rest = e.rest;
      begins = e.begins ∙ append_assoc selected (j ∷ []) e.more;
      partial = e.partial;
      filled = e.filled;
    }

    select_more_total :
        (fuel bound : ℕ) (selected remaining : List ℕ)
        → IsPartial selected remaining
        → bound ≤ length candidates
        → length selected ≤ bound
        → bound ≤ length selected + fuel
        → (out : List ℕ) × (select_more F candidates relevance lambda_mult fuel bound selected
              remaining
            ≡ ok out)
          × IsExtension bound selected out
    unfolding select_more
    select_more_total zero bound selected remaining p b l e = (
      selected,
      refl,
      record {
        more = [];
        rest = remaining;
        begins = sym (append-nil selected);
        partial = p;
        filled = omega arith;
      },
    )
    select_more_total (suc fuel) bound selected [] p b l e = (
      selected,
      refl,
      record {
        more = [];
        rest = [];
        begins = sym (append-nil selected);
        partial = p;
        filled = omega (arith, p.shared);
      },
    )
    select_more_total (suc fuel) bound selected (r ∷ remaining) p b l e =
        elim (Bool-cases (ltb (length selected) bound)) [
          | inr full ↦
              rw (full, select_more)
                (
                  selected,
                  refl,
                  record {
                    more = [];
                    rest = r ∷ remaining;
                    begins = sym (append-nil selected);
                    partial = p;
                    filled = ground (arith, full);
                  },
                )
          | inl short ↦
              rw (short, select_more)
                (let (j, y, scanned, found) =
                    scan_total F candidates w wide relevance lambda_mult sized
                      (λ (i : ℕ). 0 < count i (r ∷ remaining)) selected p.chosen p.some_chosen r
                      remaining p.open_ones (All-count (r ∷ remaining)) in
                  let within : InRange j = ground (arith, p.counted j, found) in
                  let (out, done, ext) =
                    select_more_total fuel bound (selected ++ j ∷ []) (discard j (r ∷ remaining))
                      (advance-IsPartial selected (r ∷ remaining) j p found within) b
                      (ground (arith, short, length-append selected (j ∷ [])))
                      (omega (arith, length-append selected (j ∷ []))) in
                  (out, rw scanned done, longer selected j ext))
        ]

  -- the first selected index, if there is one, is of the greatest relevance
  abbrev pub StartsBest : List Float → List ℕ → Type 0
  StartsBest relevance [] = Unit
  StartsBest relevance (first ∷ more) = IsBest F relevance first

  pub record IsSelection (query : List Float) (candidates : List (List Float)) (k : ℕ)
      (out : List ℕ) : Type 0 where
    pub size : length out ≡ min k (length candidates)
    pub once : (i : ℕ) → count i out ≤ (if ltb i (length candidates) then 1 else 0)
    pub relevance : List Float
    pub scored : cosines F query candidates ≡ ok relevance
    pub first : StartsBest relevance out

  start-IsPartial :
      (candidates : List (List Float)) (w : ℕ) (wide : All (Wide F w) candidates)
      (relevance : List Float) (lambda_mult : Float) (sized : length relevance ≡ length candidates)
      (i : ℕ)
      → i < length candidates
      → IsPartial candidates w wide relevance lambda_mult sized
          (i ∷ [])
          (discard i (range_from 0 (length candidates)))
  start-IsPartial candidates w wide relevance lambda_mult sized i h =
      let n = length candidates in
      let there : 0 < count i (range_from 0 n) = ground (arith, count-range i 0 n) in
      record {
        counted = λ j. ground (arith, count-range j 0 n, count-discard j i (range_from 0 n) there);
        chosen = (h, tt);
        open_ones = discard-All (λ j. j < n) i (range_from 0 n) (range-All n 0 n (omega arith));
        some_chosen = omega arith;
        shared = omega (arith, length-discard i (range_from 0 n) there, length-range 0 n);
      }

  first-StartsBest :
      (relevance : List Float) (i : ℕ) (more out : List ℕ)
      → out ≡ i ∷ more
      → IsBest F relevance i
      → StartsBest relevance out
  first-StartsBest relevance i more out e best = subst (StartsBest relevance) (sym e) best

  diversify_total :
      (query : List Float) (candidates : List (List Float)) (k : ℕ) (lambda_mult : Float)
      → All (Wide F (length query)) candidates
      → 0 < length candidates
      → 0 < k
      → (out : List ℕ) × (diversify F query candidates k lambda_mult ≡ ok out)
        × IsSelection query candidates k out
  unfolding diversify
  diversify_total query candidates k lambda_mult wide some_candidate asked =
      let n = length candidates in
      let (xs, scored, size) = cosines_total F query candidates wide in
      let i = argmax F xs in
      let best = argmax-IsBest F xs (omega arith) in
      let within : i < n = omega (arith, IsBest-lt F xs i best) in
      let (out, done, e) =
        select_more_total candidates (length query) wide xs lambda_mult size n (min k n) (i ∷ [])
          (discard i (range_from 0 n))
          (start-IsPartial candidates (length query) wide xs lambda_mult size i within)
          (omega arith) (omega arith) (omega arith) in
      (
        out,
        rw (scored, diversify) done,
        record {
          size = e.filled;
          once = λ j. ground (arith, e.partial.counted j);
          relevance = xs;
          scored = scored;
          first = first-StartsBest xs i e.more out e.begins best;
        },
      )

  -- nothing to select from, or nothing asked for
  nothing-IsSelection :
      (query : List Float) (candidates : List (List Float)) (k : ℕ)
      → All (Wide F (length query)) candidates
      → min k (length candidates) ≡ 0
      → IsSelection query candidates k []
  nothing-IsSelection query candidates k wide none_asked =
      let (xs, scored, size) = cosines_total F query candidates wide in
      record {
        size = sym none_asked;
        once = λ i. ground arith;
        relevance = xs;
        scored = scored;
        first = tt;
      }

  -- For candidates as wide as the query, the selection returns, whatever the weights: it holds
  -- exactly as many indices as asked for and available, each in range and none twice, and it starts
  -- with a candidate that no other exceeds in similarity to the query.
  pub maximal_marginal_relevance-IsSelection :
      (query : List Float) (candidates : List (List Float)) (k : ℕ) (lambda_mult : Float)
      → All (Wide F (length query)) candidates
      → (out : List ℕ) × (maximal_marginal_relevance F query candidates k lambda_mult ≡ ok out)
        × IsSelection query candidates k out
  unfolding maximal_marginal_relevance
  maximal_marginal_relevance-IsSelection query [] k lambda_mult wide =
      ([], refl, nothing-IsSelection query [] k wide (omega arith))
  maximal_marginal_relevance-IsSelection query (c ∷ cs) zero lambda_mult wide =
      ([], refl, nothing-IsSelection query (c ∷ cs) zero wide (omega arith))
  maximal_marginal_relevance-IsSelection query (c ∷ cs) (suc k) lambda_mult wide =
      let asked : suc k == 0 ≡ false = ground arith in
      rw asked (diversify_total query (c ∷ cs) (suc k) lambda_mult wide (omega arith) (omega arith))
