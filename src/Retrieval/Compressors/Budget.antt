-- ===== src/Retrieval/Compressors/Budget.antt =====
-- What `BudgetCompressor` of app/retrieval/compressors.py spends and what it keeps.
use mathlib.Core.List.{append-nil, append_assoc, map-append}
use agentic_rag.Prelude.{
  ℕ, zero, suc, ◌+◌, ◌-◌, ◌≤◌, ◌≡◌, refl, sym, ◌∙◌, String, true, false, List, [], ◌∷◌, ◌++◌, map,
  is_empty, take, arith, leb, Bool-cases, inl, inr,
}
use agentic_rag.Prelude.Slices.{text_take, text_length-take}
use agentic_rag.Prelude.Strip.{text_length-strip-le}
use agentic_rag.Dict.{Dict}
use agentic_rag.Retrieval.Base.{ScoredDocument}
use agentic_rag.Retrieval.Compressors.{content_of, size_of, replace_content, spend, within_budget}

module _ {Float : Type 0} where
  abbrev pub total : List (ScoredDocument Float) → ℕ
  total [] = 0
  total (d ∷ ds) = size_of d + total ds

  -- where a hit comes from and how it was scored
  abbrev pub source_of : ScoredDocument Float → String × Dict String String × Float
  source_of d = (d.document.id, d.document.metadata, d.score)

  total-append_last :
      (ds : List (ScoredDocument Float)) (d : ScoredDocument Float)
      → total (ds ++ d ∷ []) ≡ total ds + size_of d
  total-append_last [] d = omega arith
  total-append_last (e ∷ ds) d = omega (arith, total-append_last ds d)

  pub total-take-le : (n : ℕ) (ds : List (ScoredDocument Float)) → total (take n ds) ≤ total ds
  total-take-le zero ds = omega arith
  total-take-le (suc n) [] = omega arith
  total-take-le (suc n) (d ∷ ds) = omega (arith, total-take-le n ds)

  size-cut :
      (most : ℕ) (d : ScoredDocument Float)
      → size_of (replace_content d (text_take most (content_of d))) ≤ most
  unfolding replace_content
  size-cut most d = omega (
    arith,
    text_length-take most (content_of d),
    text_length-strip-le (text_take most (content_of d)),
  )

  spend-le :
      (most : ℕ) (kept : List (ScoredDocument Float)) (remaining : ℕ)
      (ds : List (ScoredDocument Float))
      → total kept + remaining ≤ most
      → total (spend most kept remaining ds) ≤ most
  unfolding spend
  spend-le most kept remaining [] h = omega arith
  spend-le most [] remaining (d ∷ ds) h = ground (
    arith,
    spend-le most (d ∷ []) (remaining - size_of d) ds,
    spend-le most (replace_content d (text_take most (content_of d)) ∷ []) 0 ds,
    size-cut most d,
  )
  spend-le most (k ∷ kept) remaining (d ∷ ds) h = ground (
    arith,
    spend-le most ((k ∷ kept) ++ d ∷ []) (remaining - size_of d) ds,
    total-append_last (k ∷ kept) d,
  )

  -- what is added to the kept documents comes from the front of the list
  spend-source :
      (most : ℕ) (kept : List (ScoredDocument Float)) (remaining : ℕ)
      (ds : List (ScoredDocument Float))
      → (n : ℕ) × (map source_of (spend most kept remaining ds)
          ≡ map source_of kept ++ take n (map source_of ds))
  unfolding spend replace_content
  spend-source most kept remaining [] = (0, sym (append-nil (map source_of kept)))
  spend-source most kept remaining (d ∷ ds) = elim (Bool-cases (leb (size_of d) remaining)) [
    | inl fits ↦
        let (n, e) = spend-source most (kept ++ d ∷ []) (remaining - size_of d) ds in
        (suc n, rw fits (e ∙ moved kept d n))
    | inr large ↦ elim (Bool-cases (is_empty kept)) [
      | inl first ↦
          let (n, e) =
            spend-source most (kept ++ replace_content d (text_take most (content_of d)) ∷ []) 0
              ds in
          (
            suc n,
            rw (large, first)
                (e ∙ moved kept (replace_content d (text_take most (content_of d))) n),
          )
      | inr later ↦ (0, rw (large, later) (sym (append-nil (map source_of kept))))
    ]
  ]
    where
      moved :
          (kept : List (ScoredDocument Float)) (x : ScoredDocument Float) (n : ℕ)
          → map source_of (kept ++ x ∷ []) ++ take n (map source_of ds)
            ≡ map source_of kept ++ source_of x ∷ take n (map source_of ds)
      moved kept x n = simp (map-append, append_assoc)

  spend-is_empty :
      (most : ℕ) (k : ScoredDocument Float) (kept : List (ScoredDocument Float)) (remaining : ℕ)
      (ds : List (ScoredDocument Float))
      → is_empty (spend most (k ∷ kept) remaining ds) ≡ false
  unfolding spend
  spend-is_empty most k kept remaining [] = refl
  spend-is_empty most k kept remaining (d ∷ ds) =
      ground (arith, spend-is_empty most k (kept ++ d ∷ []) (remaining - size_of d) ds)

  spend-whole :
      (most : ℕ) (kept : List (ScoredDocument Float)) (remaining : ℕ)
      (ds : List (ScoredDocument Float))
      → total ds ≤ remaining
      → spend most kept remaining ds ≡ kept ++ ds
  unfolding spend
  spend-whole most kept remaining [] h = sym (append-nil kept)
  spend-whole most kept remaining (d ∷ ds) h =
      let fits : leb (size_of d) remaining ≡ true = ground arith in
      rw fits (
        spend-whole most (kept ++ d ∷ []) (remaining - size_of d) ds (omega arith)
        ∙ append_assoc kept (d ∷ []) ds)

  pub record IsBudgeted (most : ℕ) (documents out : List (ScoredDocument Float)) : Type 0 where
    pub within : total out ≤ most
    pub taken : ℕ
    pub prefix : map source_of out ≡ take taken (map source_of documents)
    pub some_kept : is_empty out ≡ is_empty documents
    pub whole : total documents ≤ most → out ≡ documents

  within_budget-is_empty :
      (most : ℕ) (documents : List (ScoredDocument Float))
      → is_empty (within_budget most documents) ≡ is_empty documents
  unfolding within_budget spend
  within_budget-is_empty most [] = refl
  within_budget-is_empty most (d ∷ ds) = ground (
    arith,
    spend-is_empty most d [] (most - size_of d) ds,
    spend-is_empty most (replace_content d (text_take most (content_of d))) [] 0 ds,
  )

  -- The budget is never exceeded. What is kept are the first documents, with their ids, metadata and
  -- scores; something is kept unless there was nothing; and a set that fits is kept as it is.
  pub within_budget-IsBudgeted :
      (most : ℕ) (documents : List (ScoredDocument Float))
      → IsBudgeted most documents (within_budget most documents)
  unfolding within_budget
  within_budget-IsBudgeted most documents =
      let (n, e) = spend-source most [] most documents in
      record {
        within = spend-le most [] most documents (omega arith);
        taken = n;
        prefix = e;
        some_kept = within_budget-is_empty most documents;
        whole = λ h. spend-whole most [] most documents h;
      }
