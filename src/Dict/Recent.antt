-- ===== src/Dict/Recent.antt =====
-- Where an item stands in an ordered dictionary, counted from the newest, and what moves it.
use agentic_rag.Prelude.{
  ℕ, suc, ◌<◌, ◌≤◌, ◌≡◌, ◌≢◌, refl, some, none, [], ◌∷◌, ◌++◌, arith, length-append, length, leb,
  Bool-cases, inl, inr, Option-cases,
}
use mathlib.Core.List.{append_assoc}
use agentic_rag.Dict.{Dict, get, remove, put_last, move_to_end, trim}
use agentic_rag.Dict.Lookup.{put_last_lem, get-append}
use agentic_rag.Dict.Keys.{Absent, remove-Absent, remove-keeps_Absent, length-remove-le}

module _ {ℓ} {K V : Type ℓ} (dec : Discrete K) where
  get_of_Absent : (k : K) (d : Dict K V) → Absent k d → get dec k d ≡ none
  unfolding get
  get_of_Absent k [] h = refl
  get_of_Absent k (e ∷ d) h = ground (arith, get_of_Absent k d h.1)

  remove-append :
      (j : K) (c d : Dict K V) → remove dec j (c ++ d) ≡ remove dec j c ++ remove dec j d
  unfolding remove
  remove-append j [] d = refl
  remove-append j (e ∷ c) d = ground (arith, remove-append j c d)

  -- the item stands in the dictionary with at most `n` newer ones
  pub record IsWithin (k : K) (v : V) (n : ℕ) (d : Dict K V) : Type ℓ where
    older : Dict K V
    newer : Dict K V
    split : d ≡ older ++ (k, v) ∷ newer
    absent : Absent k older
    few : length newer ≤ n

  module _ (k : K) (v : V) where
    pub get_of_IsWithin : (n : ℕ) (d : Dict K V) → IsWithin k v n d → get dec k d ≡ some v
    unfolding get
    get_of_IsWithin n d h = ground (
      arith,
      h.split,
      get-append dec k h.older ((k, v) ∷ h.newer),
      get_of_Absent k h.older h.absent,
    )

    pub IsWithin-le : (m n : ℕ) (d : Dict K V) → m ≤ n → IsWithin k v m d → IsWithin k v n d
    IsWithin-le m n d le h = record {
      older = h.older;
      newer = h.newer;
      split = h.split;
      absent = h.absent;
      few = omega (arith, h.few, le);
    }

    pub remove-IsWithin :
        (j : K) (n : ℕ) (d : Dict K V) → j ≢ k → IsWithin k v n d → IsWithin k v n (remove dec j d)
    unfolding remove
    remove-IsWithin j n d other h = record {
      older = remove dec j h.older;
      newer = remove dec j h.newer;
      split = ground (arith, h.split, remove-append j h.older ((k, v) ∷ h.newer));
      absent = remove-keeps_Absent dec j k h.older h.absent;
      few = omega (arith, h.few, length-remove-le dec j h.newer);
    }

    append-IsWithin :
        (e : K × V) (n : ℕ) (d : Dict K V) → IsWithin k v n d → IsWithin k v (suc n) (d ++ e ∷ [])
    append-IsWithin e n d h = record {
      older = h.older;
      newer = h.newer ++ e ∷ [];
      split = rw h.split (append_assoc h.older ((k, v) ∷ h.newer) (e ∷ []));
      absent = h.absent;
      few = omega (arith, h.few, length-append h.newer (e ∷ []));
    }

    trim-split :
        (bound : ℕ) (older newer : Dict K V)
        → length newer < bound
        → Absent k older
        → (rest : Dict K V) × (trim bound (older ++ (k, v) ∷ newer) ≡ rest ++ (k, v) ∷ newer)
          × Absent k rest
    unfolding trim
    trim-split bound [] newer h a = ([], ground (arith, h), tt)
    trim-split bound (e ∷ older) newer h a =
        let (rest, same, away) = trim-split bound older newer h a.1 in
        elim (Bool-cases (leb (length (e ∷ older ++ (k, v) ∷ newer)) bound)) [
          | inl fits ↦ (e ∷ older, ground (arith, fits), a)
          | inr large ↦ (rest, ground (arith, large, same), away)
        ]

    pub trim-IsWithin :
        (bound n : ℕ) (d : Dict K V) → n < bound → IsWithin k v n d → IsWithin k v n (trim bound d)
    trim-IsWithin bound n d room h =
        let (rest, same, away) =
          trim-split bound h.older h.newer (omega (arith, room, h.few)) h.absent in
        record {
          older = rest;
          newer = h.newer;
          split = rw h.split same;
          absent = away;
          few = h.few;
        }

    pub put_last-IsWithin :
        (j : K) (x : V) (n : ℕ) (d : Dict K V)
        → j ≢ k
        → IsWithin k v n d
        → IsWithin k v (suc n) (put_last dec j x d)
    put_last-IsWithin j x n d other h =
        rw put_last_lem (append-IsWithin (j, x) n (remove dec j d) (remove-IsWithin j n d other h))

    pub put_last-first : (d : Dict K V) → IsWithin k v 0 (put_last dec k v d)
    put_last-first d = rw put_last_lem (record {
      older = remove dec k d;
      newer = [];
      split = refl;
      absent = remove-Absent dec k d;
      few = omega arith;
    })

    pub move_to_end-IsWithin :
        (j : K) (n : ℕ) (d : Dict K V)
        → j ≢ k
        → IsWithin k v n d
        → IsWithin k v (suc n) (move_to_end dec j d)
    unfolding move_to_end
    move_to_end-IsWithin j n d other h = elim (Option-cases (get dec j d)) [
      | inl missing ↦ rw (missing, move_to_end) (IsWithin-le n (suc n) d (omega arith) h)
      | inr (x, found) ↦
          rw (found, move_to_end)
            (append-IsWithin (j, x) n (remove dec j d) (remove-IsWithin j n d other h))
    ]
