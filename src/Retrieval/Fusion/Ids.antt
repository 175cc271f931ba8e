-- ===== src/Retrieval/Fusion/Ids.antt =====
-- Which ids a fusion scores: `reciprocal_rank_fusion` of app/retrieval/similarity.py.
use mathlib.Core.Option
use agentic_rag.Prelude.{
  ℕ, suc, ◌+◌, ◌≡◌, ◌⊎◌, inl, inr, ◌≢◌, ap, ◌∙◌, refl, String, Bool, true, false, Option, none,
  some, List, [], ◌∷◌, length, arith, any, ite, ◌==◌, if◌then◌else◌, Bool-cases,
}
use agentic_rag.Prelude.Text.{string_discrete}
use agentic_rag.Prelude.Floats.{Floats}
use agentic_rag.Dict.{Dict, get}
use agentic_rag.Dict.Lookup.{get-assign}
use agentic_rag.Dict.Keys.{IsDistinct, assign-IsDistinct}
use agentic_rag.Core.Errors.{ok, raise, value_error}
use agentic_rag.Retrieval.Fusion.{credit, credit_all, fuse_all, units, reciprocal_rank_fusion}

abbrev pub is_some {ℓ} : {A : Type ℓ} → Option A → Bool
is_some none = false
is_some (some a) = true

abbrev pub is_id : String → String → Bool
is_id id j = ite (string_discrete j id) true false

-- the id stands in the ranking, and in one of the rankings
abbrev pub ranks : String → List String → Bool
ranks id = any (is_id id)

abbrev pub ranks_any : String → List (List String) → Bool
ranks_any id = any (ranks id)

or_false : (b : Bool) → (if b then true else false) ≡ b
or_false true = refl
or_false false = refl

module _ (F : Floats) where
  credit-scores :
      (k : ℕ) (weight : F.Float) (rank : ℕ) (j id : String) (fused : Dict String F.Float)
      → is_some (get string_discrete id (credit F k weight rank j fused))
        ≡ (if is_id id j then true else is_some (get string_discrete id fused))
  unfolding credit
  credit-scores k weight rank j id fused = ground (
    arith,
    get-assign string_discrete j id
        (F.add (Option.get_or (get string_discrete j fused) F.nil)
          (F.div weight (F.of_ℕ (k + rank))))
        fused,
  )

  credit_all-scores :
      (k : ℕ) (weight : F.Float) (rank : ℕ) (ids : List String) (id : String)
      (fused : Dict String F.Float)
      → is_some (get string_discrete id (credit_all F k weight rank ids fused))
        ≡ (if ranks id ids then true else is_some (get string_discrete id fused))
  unfolding credit_all
  credit_all-scores k weight rank [] id fused = refl
  credit_all-scores k weight rank (j ∷ ids) id fused = ground (
    arith,
    credit_all-scores k weight (suc rank) ids id (credit F k weight rank j fused),
    credit-scores k weight rank j id fused,
  )

  fuse_all-scores :
      (k : ℕ) (rankings : List (List String)) (factors : List F.Float) (id : String)
      (fused : Dict String F.Float)
      → length factors ≡ length rankings
      → is_some (get string_discrete id (fuse_all F k rankings factors fused))
        ≡ (if ranks_any id rankings then true else is_some (get string_discrete id fused))
  unfolding fuse_all
  fuse_all-scores k [] factors id fused same = refl
  fuse_all-scores k (ranking ∷ rankings) [] id fused same = absurd (omega (arith, same))
  fuse_all-scores k (ranking ∷ rankings) (weight ∷ factors) id fused same = ground (
    arith,
    fuse_all-scores k rankings factors id (credit_all F k weight 1 ranking fused)
        (omega (arith, same)),
    credit_all-scores k weight 1 ranking id fused,
  )

  credit_all-IsDistinct :
      (k : ℕ) (weight : F.Float) (rank : ℕ) (ids : List String) (fused : Dict String F.Float)
      → IsDistinct fused
      → IsDistinct (credit_all F k weight rank ids fused)
  unfolding credit_all credit
  credit_all-IsDistinct k weight rank [] fused h = h
  credit_all-IsDistinct k weight rank (j ∷ ids) fused h =
      credit_all-IsDistinct k weight (suc rank) ids (credit F k weight rank j fused)
        (assign-IsDistinct string_discrete j _ fused h)

  fuse_all-IsDistinct :
      (k : ℕ) (rankings : List (List String)) (factors : List F.Float) (fused : Dict String F.Float)
      → IsDistinct fused
      → IsDistinct (fuse_all F k rankings factors fused)
  unfolding fuse_all
  fuse_all-IsDistinct k [] factors fused h = h
  fuse_all-IsDistinct k (ranking ∷ rankings) [] fused h = h
  fuse_all-IsDistinct k (ranking ∷ rankings) (weight ∷ factors) fused h =
      fuse_all-IsDistinct k rankings factors (credit_all F k weight 1 ranking fused)
        (credit_all-IsDistinct k weight 1 ranking fused h)

  -- what a fusion of the rankings must be: each ranked id scored once, and no other id
  pub record IsFusion (rankings : List (List String)) (fused : Dict String F.Float) : Type 0 where
    pub distinct : IsDistinct fused
    pub scored : (id : String) → is_some (get string_discrete id fused) ≡ ranks_any id rankings

  fuse_all-IsFusion :
      (k : ℕ) (rankings : List (List String)) (factors : List F.Float)
      → length factors ≡ length rankings
      → IsFusion rankings (fuse_all F k rankings factors [])
  unfolding get
  fuse_all-IsFusion k rankings factors same = record {
    distinct = fuse_all-IsDistinct k rankings factors [] tt;
    scored = λ id. fuse_all-scores k rankings factors id [] same ∙ or_false (ranks_any id rankings);
  }

  length-units : (rankings : List (List String)) → length (units F rankings) ≡ length rankings
  length-units [] = refl
  length-units (r ∷ rs) = ap suc (length-units rs)

  -- A fusion without weights, or with one weight for each ranking, never raises, and it scores each
  -- id of the rankings under one key and nothing else. With another number of weights it raises.
  pub reciprocal_rank_fusion-IsFusion :
      (rankings : List (List String)) (weights : Option (List F.Float)) (k : ℕ)
      → ((fused : Dict String F.Float) × (reciprocal_rank_fusion F rankings weights k ≡ ok fused)
          × IsFusion rankings fused)
        ⊎ ((ws : List F.Float) × (weights ≡ some ws)
            × (length ws ≢ length rankings)
            × (reciprocal_rank_fusion F rankings weights k ≡ raise value_error))
  unfolding reciprocal_rank_fusion
  reciprocal_rank_fusion-IsFusion rankings none k = inl (
    fuse_all F k rankings (units F rankings) [],
    refl,
    fuse_all-IsFusion k rankings (units F rankings) (length-units rankings),
  )
  reciprocal_rank_fusion-IsFusion rankings (some weights) k =
      elim (Bool-cases (length weights == length rankings)) [
        | inl same ↦ rw same (
            inl (
              fuse_all F k rankings weights [],
              refl,
              fuse_all-IsFusion k rankings weights (ground (arith, same)),
            ))
        | inr other ↦ rw other (inr (weights, refl, (λ e. ground (arith, e, other)), refl))
      ]
