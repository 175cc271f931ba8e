-- ===== src/Retrieval/Diversity/Best.antt =====
-- The first of the greatest scores, and the elements of a list: app/retrieval/similarity.py.
use agentic_rag.Prelude.{
  ℕ, zero, suc, ◌+◌, ◌<◌, ◌≡◌, refl, ◌∙◌, ap, true, List, [], ◌∷◌, length, All, arith, Bool-cases,
  inl, inr,
}
use agentic_rag.Prelude.Floats.{Floats}
use agentic_rag.Core.Errors.{ok}
use agentic_rag.Retrieval.Diversity.{item, argmax_from, argmax}

pub item_total :
    {A : Type 0} (P : A → Type 0) (xs : List A) (i : ℕ)
    → i < length xs
    → All P xs
    → (a : A) × (item xs i ≡ ok a) × P a
unfolding item
item_total P [] i h p = absurd (omega arith)
item_total P (x ∷ xs) zero h p = (x, refl, p.0)
item_total P (x ∷ xs) (suc i) h p = item_total P xs i (omega arith) p.1

item-lt : {A : Type 0} (xs : List A) (i : ℕ) (a : A) → item xs i ≡ ok a → i < length xs
unfolding item
item-lt [] i a h = absurd (cc h)
item-lt (x ∷ xs) zero a h = omega arith
item-lt (x ∷ xs) (suc i) a h = omega (arith, item-lt xs i a h)

module _ (F : Floats) where
  open F use {Float, leb, leb_refl, leb_trans, leb_total}

  -- no score of the list is above the one at the index
  pub record IsBest (xs : List Float) (i : ℕ) : Type 0 where
    pub value : Float
    pub held : item xs i ≡ ok value
    pub greatest : All (λ x. leb x value ≡ true) xs

  module _ (whole : List Float) (i : ℕ) (x : Float) (xs : List Float)
      (shift : (j : ℕ) → item whole (i + j) ≡ item (x ∷ xs) j) where
    shifted : (j : ℕ) → item whole (suc i + j) ≡ item xs j
    unfolding item
    shifted j = let e : suc i + j ≡ i + suc j = omega arith in ap (item whole) e ∙ shift (suc j)

    unshifted : item whole i ≡ ok x
    unfolding item
    unshifted = let e : i ≡ i + 0 = omega arith in ap (item whole) e ∙ shift 0

  argmax_from-IsBest :
      (whole : List Float) (i best : ℕ) (value : Float) (xs : List Float)
      → ((j : ℕ) → item whole (i + j) ≡ item xs j)
      → item whole best ≡ ok value
      → (m : Float) × (item whole (argmax_from F i best value xs) ≡ ok m)
        × (leb value m ≡ true)
        × All (λ x. leb x m ≡ true) xs
  unfolding argmax_from item
  argmax_from-IsBest whole i best value [] shift held = (value, held, leb_refl value, tt)
  argmax_from-IsBest whole i best value (x ∷ xs) shift held = elim (Bool-cases (leb x value)) [
    | inl below ↦
        let (m, at, over, rest) =
          argmax_from-IsBest whole (suc i) best value xs (shifted whole i x xs shift) held in
        rw below (m, at, over, (leb_trans x value m below over, rest))
    | inr above ↦
        let (m, at, over, rest) =
          argmax_from-IsBest whole (suc i) i x xs (shifted whole i x xs shift)
            (unshifted whole i x xs shift) in
        rw above (m, at, leb_trans value x m (leb_total x value above) over, (over, rest))
  ]

  next_item : (x : Float) (xs : List Float) (j : ℕ) → item (x ∷ xs) (1 + j) ≡ item xs j
  unfolding item
  next_item x xs j = let e : 1 + j ≡ suc j = omega arith in ap (item (x ∷ xs)) e

  pub argmax-IsBest : (xs : List Float) → 0 < length xs → IsBest xs (argmax F xs)
  unfolding argmax item
  argmax-IsBest [] h = absurd (omega arith)
  argmax-IsBest (x ∷ xs) h =
      let (m, at, over, rest) = argmax_from-IsBest (x ∷ xs) 1 0 x xs (next_item x xs) refl in
      record { value = m; held = at; greatest = (over, rest) }

  pub IsBest-lt : (xs : List Float) (i : ℕ) → IsBest xs i → i < length xs
  IsBest-lt xs i b = item-lt xs i b.value b.held
