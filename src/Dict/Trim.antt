-- ===== src/Dict/Trim.antt =====
-- What a lookup sees after the eviction loop.
use agentic_rag.Prelude.{
  ℕ, zero, suc, ◌<◌, ◌≡◌, refl, some, none, [], ◌∷◌, ◌++◌, arith, length-append,
}
use agentic_rag.Dict.{Dict, get, remove, put_last, trim}
use agentic_rag.Dict.Lookup.{put_last_lem, get-append}
use agentic_rag.Dict.Keys.{Absent, IsDistinct, trim-Absent, remove-Absent}

module _ {ℓ} {K V : Type ℓ} (dec : Discrete K) where
  get_of_Absent : (k : K) (d : Dict K V) → Absent k d → get dec k d ≡ none
  unfolding get
  get_of_Absent k [] h = refl
  get_of_Absent k (e ∷ d) h = ground (arith, get_of_Absent k d h.1)

  -- eviction invents no item and changes none
  pub get-trim :
      (bound : ℕ) (k : K) (v : V) (d : Dict K V)
      → IsDistinct d
      → get dec k (trim bound d) ≡ some v
      → get dec k d ≡ some v
  unfolding get trim
  get-trim bound k v [] h p = p
  get-trim bound k v (e ∷ d) h p = ground (arith, get-trim bound k v d h.1, get_of_Absent e.0 d h.0)

  trim-append_last :
      (bound : ℕ) (e : K × V) (d : Dict K V)
      → trim (suc bound) (d ++ e ∷ []) ≡ trim bound d ++ e ∷ []
  unfolding trim
  trim-append_last bound e [] = ground arith
  trim-append_last bound e (x ∷ d) =
      ground (arith, trim-append_last bound e d, length-append d (e ∷ []))

  -- the item that was put last is never evicted, unless the bound is zero
  pub get-trim-put_last :
      (bound : ℕ) (k : K) (v : V) (d : Dict K V)
      → 0 < bound
      → get dec k (trim bound (put_last dec k v d)) ≡ some v
  unfolding get
  get-trim-put_last zero k v d h = elim h [ ]
  get-trim-put_last (suc bound) k v d h =
      let kept = trim bound (remove dec k d) in
      rw (put_last_lem, trim-append_last)
        (ground (
          arith,
          get-append dec k kept ((k, v) ∷ []),
          get_of_Absent k kept (trim-Absent dec bound k (remove dec k d) (remove-Absent dec k d)),
        ))
