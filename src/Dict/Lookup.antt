-- ===== src/Dict/Lookup.antt =====
-- What a lookup sees after each operation of a dictionary.
use agentic_rag.Prelude.{◌≡◌, refl, none, some, [], ◌∷◌, ◌++◌, arith, ite, inl, inr, Option-cases}
use agentic_rag.Dict.{Dict, get, remove, assign, move_to_end, put_last}

module _ {ℓ} {K V : Type ℓ} (dec : Discrete K) where
  pub get-remove :
      (k j : K) (d : Dict K V) → get dec j (remove dec k d) ≡ ite (dec k j) none (get dec j d)
  unfolding get remove
  get-remove k j [] = ground arith
  get-remove k j (e ∷ d) = ground (arith, get-remove k j d)

  pub get-assign :
      (k j : K) (v : V) (d : Dict K V)
      → get dec j (assign dec k v d) ≡ ite (dec k j) (some v) (get dec j d)
  unfolding get assign
  get-assign k j v [] = refl
  get-assign k j v (e ∷ d) = ground (arith, get-assign k j v d)

  pub get-append :
      (j : K) (c d : Dict K V)
      → get dec j (c ++ d) ≡ elim (get dec j c) [ none ↦ get dec j d | some v ↦ some v ]
  unfolding get
  get-append j [] d = refl
  get-append j (e ∷ c) d = ground (arith, get-append j c d)

  pub remove-assign :
      (k : K) (v : V) (d : Dict K V) → remove dec k (assign dec k v d) ≡ remove dec k d
  unfolding remove assign
  remove-assign k v [] = ground arith
  remove-assign k v (e ∷ d) = ground (arith, remove-assign k v d)

  -- an assignment followed by a move is a removal followed by an append
  pub put_last_lem :
      (k : K) (v : V) (d : Dict K V) → put_last dec k v d ≡ remove dec k d ++ (k, v) ∷ []
  unfolding put_last
  put_last_lem k v d = ground (arith, get-assign k k v d, remove-assign k v d)

  pub get-put_last :
      (k j : K) (v : V) (d : Dict K V)
      → get dec j (put_last dec k v d) ≡ ite (dec k j) (some v) (get dec j d)
  unfolding get
  get-put_last k j v d =
      ground
        (arith, put_last_lem k v d, get-append j (remove dec k d) ((k, v) ∷ []), get-remove k j d)

  pub get-move_to_end : (k j : K) (d : Dict K V) → get dec j (move_to_end dec k d) ≡ get dec j d
  unfolding move_to_end get
  get-move_to_end k j d = elim (Option-cases (get dec k d)) [
    | inl missing ↦ rw (missing, move_to_end)
    | inr (v, found) ↦
        rw (found, move_to_end)
          (ground (arith, found, get-append j (remove dec k d) ((k, v) ∷ []), get-remove k j d))
  ]
