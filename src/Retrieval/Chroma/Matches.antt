-- ===== src/Retrieval/Chroma/Matches.antt =====
-- What app/retrieval/chroma.py makes of a response: one match for each id, scored between 0 and 1.
use agentic_rag.Prelude.{
  ℕ, suc, ◌≡◌, refl, ap, String, true, List, [], ◌∷◌, map, All, Bool-cases, inl, inr,
}
use agentic_rag.Prelude.Floats.{Floats}
use agentic_rag.Prelude.Text.{strip}
use agentic_rag.Retrieval.Base.{VectorMatch}
use agentic_rag.Retrieval.Chroma.{
  Response, row, distance_to_score, match_at, matches_from, to_matches,
}

module _ (F : Floats) (ordered : F.leb F.nil F.unit ≡ true) where
  open F use {Float, nil, unit, sub, leb, leb_refl, leb_total}

  abbrev pub IsScore : Float → Type 0
  IsScore x = (leb nil x ≡ true) × (leb x unit ≡ true)

  distance_to_score-IsScore : (d : Float) → IsScore (distance_to_score F d)
  unfolding distance_to_score
  distance_to_score-IsScore d = elim (Bool-cases (leb (sub unit d) nil)) [
    | inl low ↦ elim (Bool-cases (leb unit nil)) [
      | inl top ↦ rw (low, top) (ordered, leb_refl unit)
      | inr under ↦ rw (low, under) (leb_refl nil, ordered)
    ]
    | inr high ↦ elim (Bool-cases (leb unit (sub unit d))) [
      | inl top ↦ rw (high, top) (ordered, leb_refl unit)
      | inr under ↦
          rw (high, under) (leb_total (sub unit d) nil high, leb_total unit (sub unit d) under)
    ]
  ]

  abbrev pub HasScore : VectorMatch Float → Type 0
  HasScore m = IsScore m.score

  matches_from-HasScore :
      (r : Response Float) (index : ℕ) (ids : List String)
      → All HasScore (matches_from F r index ids)
  unfolding matches_from match_at
  matches_from-HasScore r index [] = tt
  matches_from-HasScore r index (id ∷ ids) =
      (distance_to_score-IsScore _, matches_from-HasScore r (suc index) ids)

  matches_from-ids :
      (r : Response Float) (index : ℕ) (ids : List String)
      → map (λ m. m.document.id) (matches_from F r index ids) ≡ map strip ids
  unfolding matches_from match_at strip agentic_rag.Retrieval.Base.document_of
  matches_from-ids r index [] = refl
  matches_from-ids r index (id ∷ ids) = ap (◌∷◌ (strip id)) (matches_from-ids r (suc index) ids)

  -- Whatever arrays a response has, complete or not, its matches are one for each id, stripped, in the
  -- order of the ids, and every score lies between zero and one.
  pub to_matches-HasScore :
      (r : Response Float)
      → (map (λ m. m.document.id) (to_matches F r) ≡ map strip (row r.ids))
        × All HasScore (to_matches F r)
  unfolding to_matches
  to_matches-HasScore r = (matches_from-ids r 0 (row r.ids), matches_from-HasScore r 0 (row r.ids))
