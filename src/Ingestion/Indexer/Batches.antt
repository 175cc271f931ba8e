-- ===== src/Ingestion/Indexer/Batches.antt =====
-- The batches of app/ingestion/indexer.py: every chunk in one batch, in order, none too large.
use agentic_rag.Prelude.{
  ℕ, zero, suc, ◌≤◌, ◌<◌, ◌≡◌, refl, ap, ◌∙◌, List, [], ◌∷◌, ◌++◌, length, length-take, length-drop,
  take, drop, All, arith,
}
use agentic_rag.Ingestion.Indexer.{batches_of, batched}

module _ {A : Type 0} where
  abbrev pub concat : List (List A) → List A
  concat [] = []
  concat (b ∷ bs) = b ++ concat bs

  take-append-drop : (n : ℕ) (xs : List A) → take n xs ++ drop n xs ≡ xs
  take-append-drop zero xs = refl
  take-append-drop (suc n) [] = refl
  take-append-drop (suc n) (x ∷ xs) = ap (◌∷◌ x) (take-append-drop n xs)

  -- neither empty nor larger than the size
  abbrev pub IsSized : ℕ → List A → Type 0
  IsSized size b = (0 < length b) × (length b ≤ size)

  batches_of-concat :
      (rounds size : ℕ) (xs : List A)
      → 0 < size
      → length xs ≤ rounds
      → concat (batches_of rounds size xs) ≡ xs
  unfolding batches_of
  batches_of-concat zero size [] h l = refl
  batches_of-concat zero size (x ∷ xs) h l = absurd (omega arith)
  batches_of-concat (suc rounds) size [] h l = refl
  batches_of-concat (suc rounds) size (x ∷ xs) h l =
      ap (λ (ys : List A). take size (x ∷ xs) ++ ys)
        (batches_of-concat rounds size (drop size (x ∷ xs)) h
          (omega (arith, length-drop size (x ∷ xs), l)))
      ∙ take-append-drop size (x ∷ xs)

  batches_of-IsSized :
      (rounds size : ℕ) (xs : List A) → 0 < size → All (IsSized size) (batches_of rounds size xs)
  unfolding batches_of
  batches_of-IsSized zero size xs h = tt
  batches_of-IsSized (suc rounds) size [] h = tt
  batches_of-IsSized (suc rounds) size (x ∷ xs) h = (
    (omega (arith, length-take size (x ∷ xs)), omega (arith, length-take size (x ∷ xs))),
    batches_of-IsSized rounds size (drop size (x ∷ xs)) h,
  )

  -- For any positive size, the batches hold all the documents, each once and in their order, and
  -- each batch has at least one document and at most the size.
  batched-concat :
      (size : ℕ) (xs : List A)
      → 0 < size
      → (concat (batched size xs) ≡ xs) × All (IsSized size) (batched size xs)
  unfolding batched
  batched-concat size xs h = (
    batches_of-concat (length xs) size xs h (omega arith),
    batches_of-IsSized (length xs) size xs h,
  )
