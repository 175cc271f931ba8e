-- ===== src/Dict/Keys.antt =====
-- Sizes and keys of a dictionary, and what the eviction loop keeps.
use agentic_rag.Prelude.{
  ℕ, zero, suc, ◌+◌, ◌-◌, ◌≤◌, ◌<◌, ◌≡◌, ◌≢◌, refl, ap, some, [], ◌∷◌, ◌++◌, arith, length,
  length-append, length-drop, drop, leb, leb→le, leb-false→lt, none, sym, Bool-cases, Option-cases,
  inl, inr,
}
use agentic_rag.Dict.{Dict, get, assign, remove, move_to_end, put_last, trim}
use agentic_rag.Dict.Lookup.{put_last_lem}

module _ {ℓ} {K V : Type ℓ} where
  drop-nil : (n : ℕ) → drop {A = K × V} n [] ≡ []
  drop-nil zero = refl
  drop-nil (suc n) = refl

  -- the eviction loop drops the oldest items past the bound, and nothing else
  pub trim_lem : (bound : ℕ) (d : Dict K V) → trim bound d ≡ drop (length d - bound) d
  unfolding trim
  trim_lem bound [] = sym (drop-nil (0 - bound))
  trim_lem bound (e ∷ d) = elim (Bool-cases (leb (suc (length d)) bound)) [
    | inl fits ↦
        let none_over : suc (length d) - bound ≡ 0 = omega (arith, leb→le _ _ fits) in
        rw (fits, none_over)
    | inr over ↦
        let one_over : suc (length d) - bound ≡ suc (length d - bound) =
          omega (arith, leb-false→lt _ _ over) in
        rw (over, one_over) (trim_lem bound d)
  ]

  pub length-trim-le : (bound : ℕ) (d : Dict K V) → length (trim bound d) ≤ bound
  length-trim-le bound d =
      omega (arith, ap length (trim_lem bound d), length-drop (length d - bound) d)

module _ {ℓ} {K V : Type ℓ} where
  -- no item of the dictionary has the key
  abbrev pub Absent : K → Dict K V → Type ℓ
  Absent k [] = Unit
  Absent k (e ∷ d) = (e.0 ≢ k) × Absent k d

  -- every key stands once
  abbrev pub IsDistinct : Dict K V → Type ℓ
  IsDistinct [] = Unit
  IsDistinct (e ∷ d) = Absent e.0 d × IsDistinct d

module _ {ℓ} {K V : Type ℓ} (dec : Discrete K) where
  pub remove-Absent : (k : K) (d : Dict K V) → Absent k (remove dec k d)
  unfolding remove
  remove-Absent k [] = tt
  remove-Absent k (e ∷ d) = ground (arith, remove-Absent k d)

  pub remove-keeps_Absent : (k j : K) (d : Dict K V) → Absent j d → Absent j (remove dec k d)
  unfolding remove
  remove-keeps_Absent k j [] h = tt
  remove-keeps_Absent k j (e ∷ d) h = ground (arith, remove-keeps_Absent k j d)

  pub remove-IsDistinct : (k : K) (d : Dict K V) → IsDistinct d → IsDistinct (remove dec k d)
  unfolding remove
  remove-IsDistinct k [] h = tt
  remove-IsDistinct k (e ∷ d) h = ground (arith, remove-IsDistinct k d, remove-keeps_Absent k e.0 d)

  pub append-Absent : (j : K) (c d : Dict K V) → Absent j c → Absent j d → Absent j (c ++ d)
  append-Absent j [] d hc hd = hd
  append-Absent j (e ∷ c) d hc hd = (hc.0, append-Absent j c d hc.1 hd)

  pub append-IsDistinct :
      (k : K) (v : V) (d : Dict K V) → IsDistinct d → Absent k d → IsDistinct (d ++ (k, v) ∷ [])
  append-IsDistinct k v [] hd ha = (tt, tt)
  append-IsDistinct k v (e ∷ d) hd ha = (
    append-Absent e.0 d ((k, v) ∷ []) hd.0 ((λ p. ha.0 (sym p)), tt),
    append-IsDistinct k v d hd.1 ha.1,
  )

  pub put_last-IsDistinct :
      (k : K) (v : V) (d : Dict K V) → IsDistinct d → IsDistinct (put_last dec k v d)
  put_last-IsDistinct k v d h =
      rw put_last_lem
        (append-IsDistinct k v (remove dec k d) (remove-IsDistinct k d h) (remove-Absent k d))

  pub length-remove-le : (k : K) (d : Dict K V) → length (remove dec k d) ≤ length d
  unfolding remove
  length-remove-le k [] = omega arith
  length-remove-le k (e ∷ d) = ground (arith, length-remove-le k d)

  pub length-remove-some :
      (k : K) (v : V) (d : Dict K V) → get dec k d ≡ some v → length (remove dec k d) < length d
  unfolding get remove
  length-remove-some k v [] h = ground arith
  length-remove-some k v (e ∷ d) h = ground (arith, length-remove-le k d, length-remove-some k v d)

  pub length-put_last-le :
      (k : K) (v : V) (d : Dict K V) → length (put_last dec k v d) ≤ length d + 1
  length-put_last-le k v d = omega (
    arith,
    ap length (put_last_lem dec k v d),
    length-append (remove dec k d) ((k, v) ∷ []),
    length-remove-le k d,
  )

  pub trim-Absent : (bound : ℕ) (k : K) (d : Dict K V) → Absent k d → Absent k (trim bound d)
  unfolding trim
  trim-Absent bound k [] h = tt
  trim-Absent bound k (e ∷ d) h = ground (arith, trim-Absent bound k d)

  pub trim-IsDistinct : (bound : ℕ) (d : Dict K V) → IsDistinct d → IsDistinct (trim bound d)
  unfolding trim
  trim-IsDistinct bound [] h = tt
  trim-IsDistinct bound (e ∷ d) h = ground (arith, trim-IsDistinct bound d)

  pub length-move_to_end-le : (k : K) (d : Dict K V) → length (move_to_end dec k d) ≤ length d
  unfolding move_to_end
  length-move_to_end-le k d = elim (Option-cases (get dec k d)) [
    | inl missing ↦ rw (missing, move_to_end) (omega arith)
    | inr (v, found) ↦
        rw (found, move_to_end)
          (omega
            (arith, length-append (remove dec k d) ((k, v) ∷ []), length-remove-some k v d found))
  ]

  pub move_to_end-IsDistinct :
      (k : K) (d : Dict K V) → IsDistinct d → IsDistinct (move_to_end dec k d)
  unfolding move_to_end
  move_to_end-IsDistinct k d h = elim (Option-cases (get dec k d)) [
    | inl missing ↦ rw (missing, move_to_end) h
    | inr (v, found) ↦
        rw (found, move_to_end)
          (append-IsDistinct k v (remove dec k d) (remove-IsDistinct k d h) (remove-Absent k d))
  ]

  assign-keeps_Absent :
      (k j : K) (v : V) (d : Dict K V) → (k ≢ j) → Absent j d → Absent j (assign dec k v d)
  unfolding assign
  assign-keeps_Absent k j v [] ne h = (ne, tt)
  assign-keeps_Absent k j v (e ∷ d) ne h = ground (arith, assign-keeps_Absent k j v d)

  pub assign-IsDistinct :
      (k : K) (v : V) (d : Dict K V) → IsDistinct d → IsDistinct (assign dec k v d)
  unfolding assign
  assign-IsDistinct k v [] h = (tt, tt)
  assign-IsDistinct k v (e ∷ d) h =
      ground (arith, assign-IsDistinct k v d, assign-keeps_Absent k e.0 v d)

  -- a key that is there is overwritten in place
  pub length-assign-some :
      (k : K) (u v : V) (d : Dict K V) → get dec k d ≡ some u → length (assign dec k v d) ≡ length d
  unfolding get assign
  length-assign-some k u v [] h = ground arith
  length-assign-some k u v (e ∷ d) h = ground (arith, length-assign-some k u v d)

  -- a key that is not there is added at the end
  pub assign-none :
      (k : K) (v : V) (d : Dict K V) → get dec k d ≡ none → assign dec k v d ≡ d ++ (k, v) ∷ []
  unfolding get assign
  assign-none k v [] h = refl
  assign-none k v (e ∷ d) h = ground (arith, assign-none k v d)

  pub remove-none : (k : K) (d : Dict K V) → get dec k d ≡ none → remove dec k d ≡ d
  unfolding get remove
  remove-none k [] h = refl
  remove-none k (e ∷ d) h = ground (arith, remove-none k d)
