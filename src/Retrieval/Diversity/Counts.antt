-- ===== src/Retrieval/Diversity/Counts.antt =====
-- How often an index stands in a list: the sets of indices of `maximal_marginal_relevance`.
use agentic_rag.Prelude.{
  ℕ, zero, suc, ◌+◌, ◌≤◌, ◌<◌, ◌≡◌, refl, List, [], ◌∷◌, ◌++◌, length, All, arith, ltb, leb, ◌==◌,
  ◌&&◌, if◌then◌else◌,
}
use agentic_rag.Retrieval.Diversity.{range_from, discard}

abbrev pub count : ℕ → List ℕ → ℕ
count i [] = 0
count i (j ∷ js) = if j == i then suc (count i js) else count i js

pub count-append : (i : ℕ) (xs ys : List ℕ) → count i (xs ++ ys) ≡ count i xs + count i ys
count-append i [] ys = omega arith
count-append i (x ∷ xs) ys = ground (arith, count-append i xs ys)

pub count-range :
    (i start n : ℕ)
    → count i (range_from start n) ≡ (if leb start i && ltb i (start + n) then 1 else 0)
unfolding range_from
count-range i start zero = ground arith
count-range i start (suc n) = ground (arith, count-range i (suc start) n)

pub length-range : (start n : ℕ) → length (range_from start n) ≡ n
unfolding range_from
length-range start zero = refl
length-range start (suc n) = omega (arith, length-range (suc start) n)

pub range-All : (bound start n : ℕ) → start + n ≤ bound → All (λ i. i < bound) (range_from start n)
unfolding range_from
range-All bound start zero h = tt
range-All bound start (suc n) h = (omega arith, range-All bound (suc start) n (omega arith))

-- every element of a list occurs in it
All-count_of :
    (whole xs : List ℕ) → ((i : ℕ) → count i xs ≤ count i whole) → All (λ i. 0 < count i whole) xs
All-count_of whole [] h = tt
All-count_of whole (x ∷ xs) h =
    (ground (arith, h x), All-count_of whole xs (λ i. ground (arith, h i)))

pub All-count : (xs : List ℕ) → All (λ i. 0 < count i xs) xs
All-count xs = All-count_of xs xs (λ i. omega arith)

-- a set loses one element, if it has it
pub count-discard :
    (i j : ℕ) (xs : List ℕ)
    → 0 < count j xs
    → count i (discard j xs) + (if j == i then 1 else 0) ≡ count i xs
unfolding discard
count-discard i j [] h = absurd (omega arith)
count-discard i j (x ∷ xs) h = ground (arith, count-discard i j xs)

pub length-discard :
    (j : ℕ) (xs : List ℕ) → 0 < count j xs → suc (length (discard j xs)) ≡ length xs
unfolding discard
length-discard j [] h = absurd (omega arith)
length-discard j (x ∷ xs) h = ground (arith, length-discard j xs)

pub discard-All : (P : ℕ → Type 0) (j : ℕ) (xs : List ℕ) → All P xs → All P (discard j xs)
unfolding discard
discard-All P j [] h = tt
discard-All P j (x ∷ xs) h = ground (arith, discard-All P j xs h.1)

pub All-append_last : (P : ℕ → Type 0) (xs : List ℕ) (x : ℕ) → All P xs → P x → All P (xs ++ x ∷ [])
All-append_last P [] x h p = (p, tt)
All-append_last P (y ∷ ys) x h p = (h.0, All-append_last P ys x h.1 p)
