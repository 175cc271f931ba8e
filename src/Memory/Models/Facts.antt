-- ===== src/Memory/Models/Facts.antt =====
-- What merging user facts keeps: `UserContext.merged_with` of app/memory/models.py.
use agentic_rag.Prelude.{
  ℕ, ◌≤◌, ◌<◌, ◌≡◌, refl, String, Option, some, List, [], ◌∷◌, arith, length, ite, if◌then◌else◌,
  length-from_end-le, length-map, from_end, true, false,
}
use agentic_rag.Prelude.Text.{string_discrete}
use agentic_rag.Dict.{Dict, get, remove, assign}
use agentic_rag.Dict.Lookup.{get-remove, get-assign}
use agentic_rag.Dict.Keys.{IsDistinct, assign-IsDistinct, remove-IsDistinct}
use agentic_rag.Memory.Models.{
  UserFact, merged_with, user_fact, fold_facts, fold_fact, fact_dict, is_usable,
}

pub length-merged_with-le :
    (facts incoming : List UserFact) (limit : ℕ)
    → 0 < limit
    → length (merged_with facts incoming limit) ≤ limit
unfolding merged_with
length-merged_with-le facts incoming limit space =
    let kept = from_end limit (fold_facts incoming (fact_dict facts [])) in
    omega (
      arith,
      length-map user_fact kept,
      length-from_end-le limit (fold_facts incoming (fact_dict facts [])) space,
    )

-- the value that the facts leave under a key: the last usable one
abbrev pub last_value : String → List UserFact → Option String → Option String
last_value key [] held = held
last_value key (fact ∷ facts) held =
    last_value key facts
      (if is_usable fact then ite (string_discrete fact.key key) (some fact.value) held else held)

get-fold_fact :
    (key : String) (fact : UserFact) (d : Dict String String)
    → get string_discrete key (fold_fact fact d) ≡ (
        if is_usable fact
        then ite (string_discrete fact.key key) (some fact.value) (get string_discrete key d)
        else get string_discrete key d)
unfolding fold_fact
get-fold_fact key fact d = go (is_usable fact)
  where
    go :
        (usable : _)
        → get string_discrete key (
            if usable
            then assign string_discrete fact.key fact.value (remove string_discrete fact.key d)
            else d)
          ≡ (if usable
              then ite (string_discrete fact.key key) (some fact.value) (get string_discrete key d)
              else get string_discrete key d)
    go true = ground (
      arith,
      get-assign string_discrete fact.key key fact.value (remove string_discrete fact.key d),
      get-remove string_discrete fact.key key d,
    )
    go false = refl

-- A key of the merged dictionary maps to the last value that a usable incoming fact gives it, and
-- to the value held before when no usable incoming fact has the key.
pub get-fold_facts :
    (key : String) (incoming : List UserFact) (d : Dict String String)
    → get string_discrete key (fold_facts incoming d)
      ≡ last_value key incoming (get string_discrete key d)
unfolding fold_facts
get-fold_facts key [] d = refl
get-fold_facts key (fact ∷ facts) d =
    rw (get-fold_facts key facts (fold_fact fact d), get-fold_fact key fact d)

-- Every key stands once in the merged dictionary, so the window of `limit` facts holds `limit` keys.
pub fold_facts-IsDistinct :
    (incoming : List UserFact) (d : Dict String String)
    → IsDistinct d
    → IsDistinct (fold_facts incoming d)
unfolding fold_facts fold_fact
fold_facts-IsDistinct [] d h = h
fold_facts-IsDistinct (fact ∷ facts) d h = fold_facts-IsDistinct facts (fold_fact fact d) (
    ground (
      arith,
      assign-IsDistinct string_discrete fact.key fact.value (remove string_discrete fact.key d)
          (remove-IsDistinct string_discrete fact.key d h),
    ))
