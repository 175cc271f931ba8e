-- ===== src/Prelude/Sort.antt =====
-- `sorted(items, key=..., reverse=True)`: descending by a score, equal scores in their first order.
use mathlib.Core.Path.{◌≡◌}
use mathlib.Core.Logic.{inl, inr}
use mathlib.Core.Bool.{true}
use mathlib.Core.List.{List, [], ◌∷◌, Perm}
use mathlib.Core.List.Perm
use native.Mathlib.Omega.{arith}
use agentic_rag.Prelude.Tests.{if◌then◌else◌, Bool-cases}
use Prim.Native.Nat.{ℕ, zero, suc}
use agentic_rag.Prelude.Lists.{All, AllPairs, take}
use agentic_rag.Prelude.Floats.{Floats}

module _ (F : Floats) where
  open F use {Float, leb, leb_total, leb_trans}

  module _ {A : Type 0} (key : A → Float) where
    insert_desc : A → List A → List A
    insert_desc x [] = x ∷ []
    insert_desc x (y ∷ ys) = if leb (key y) (key x) then x ∷ y ∷ ys else y ∷ insert_desc x ys

    unfoldable pub sort_desc : List A → List A
    unfolding insert_desc
    sort_desc [] = []
    sort_desc (x ∷ xs) = insert_desc x (sort_desc xs)

    -- every score of the list is at most `bound`
    abbrev pub AtMost : Float → List A → Type 0
    AtMost bound [] = Unit
    AtMost bound (x ∷ xs) = (leb (key x) bound ≡ true) × AtMost bound xs

    abbrev pub IsDescending : List A → Type 0
    IsDescending [] = Unit
    IsDescending (x ∷ xs) = AtMost (key x) xs × IsDescending xs

    AtMost-trans : (a b : Float) (xs : List A) → leb a b ≡ true → AtMost a xs → AtMost b xs
    AtMost-trans a b [] h t = tt
    AtMost-trans a b (x ∷ xs) h t = (leb_trans (key x) a b t.0 h, AtMost-trans a b xs h t.1)

    insert_desc-AtMost :
        (x : A) (bound : Float) (xs : List A)
        → leb (key x) bound ≡ true
        → AtMost bound xs
        → AtMost bound (insert_desc x xs)
    unfolding insert_desc
    insert_desc-AtMost x bound [] h t = (h, tt)
    insert_desc-AtMost x bound (y ∷ ys) h t = ground (arith, insert_desc-AtMost x bound ys h t.1)

    insert_desc-IsDescending :
        (x : A) (xs : List A) → IsDescending xs → IsDescending (insert_desc x xs)
    unfolding insert_desc
    insert_desc-IsDescending x [] h = (tt, tt)
    insert_desc-IsDescending x (y ∷ ys) h = ground (
      arith,
      insert_desc-IsDescending x ys h.1,
      insert_desc-AtMost x (key y) ys,
      AtMost-trans (key y) (key x) ys,
      leb_total (key y) (key x),
    )

    pub sort_desc-IsDescending : (xs : List A) → IsDescending (sort_desc xs)
    unfolding sort_desc
    sort_desc-IsDescending [] = tt
    sort_desc-IsDescending (x ∷ xs) =
        insert_desc-IsDescending x (sort_desc xs) (sort_desc-IsDescending xs)

    insert_desc-perm : (x : A) (xs : List A) → Perm (insert_desc x xs) (x ∷ xs)
    unfolding insert_desc
    insert_desc-perm x [] = Perm.refl (x ∷ [])
    insert_desc-perm x (y ∷ ys) = elim (Bool-cases (leb (key y) (key x))) [
      | inl above ↦ rw above (Perm.refl _)
      | inr below ↦ rw below (Perm.trans (Perm.cons y (insert_desc-perm x ys)) (Perm.swap x y ys))
    ]

    pub sort_desc-perm : (xs : List A) → Perm (sort_desc xs) xs
    unfolding sort_desc
    sort_desc-perm [] = Perm.refl []
    sort_desc-perm (x ∷ xs) =
        Perm.trans (insert_desc-perm x (sort_desc xs)) (Perm.cons x (sort_desc-perm xs))

    insert_desc-All :
        (P : A → Type 0) (x : A) (xs : List A) → P x → All P xs → All P (insert_desc x xs)
    unfolding insert_desc
    insert_desc-All P x [] p h = (p, tt)
    insert_desc-All P x (y ∷ ys) p h = elim (Bool-cases (leb (key y) (key x))) [
      | inl above ↦ rw above (p, h)
      | inr below ↦ rw below (h.0, insert_desc-All P x ys p h.1)
    ]

    pub sort_desc-All : (P : A → Type 0) (xs : List A) → All P xs → All P (sort_desc xs)
    unfolding sort_desc
    sort_desc-All P [] h = tt
    sort_desc-All P (x ∷ xs) h = insert_desc-All P x (sort_desc xs) h.0 (sort_desc-All P xs h.1)

    insert_desc-AllPairs :
        (R : A → A → Type 0) (both : (x y : A) → R x y → R y x) (x : A) (xs : List A)
        → All (R x) xs
        → AllPairs R xs
        → AllPairs R (insert_desc x xs)
    unfolding insert_desc
    insert_desc-AllPairs R both x [] h p = (tt, tt)
    insert_desc-AllPairs R both x (y ∷ ys) h p = elim (Bool-cases (leb (key y) (key x))) [
      | inl above ↦ rw above (h, p)
      | inr below ↦
          rw below (
            insert_desc-All (R y) x ys (both x y h.0) p.0,
            insert_desc-AllPairs R both x ys h.1 p.1,
          )
    ]

    -- a relation that does not see the order survives the sorting
    pub sort_desc-AllPairs :
        (R : A → A → Type 0)
        → ((x y : A) → R x y → R y x)
        → (xs : List A) → AllPairs R xs
        → AllPairs R (sort_desc xs)
    unfolding sort_desc
    sort_desc-AllPairs R both [] p = tt
    sort_desc-AllPairs R both (x ∷ xs) p =
        insert_desc-AllPairs R both x (sort_desc xs) (sort_desc-All (R x) xs p.0)
          (sort_desc-AllPairs R both xs p.1)

    AtMost-take : (bound : Float) (n : ℕ) (xs : List A) → AtMost bound xs → AtMost bound (take n xs)
    AtMost-take bound zero xs h = tt
    AtMost-take bound (suc n) [] h = tt
    AtMost-take bound (suc n) (x ∷ xs) h = (h.0, AtMost-take bound n xs h.1)

    pub IsDescending-take : (n : ℕ) (xs : List A) → IsDescending xs → IsDescending (take n xs)
    IsDescending-take zero xs h = tt
    IsDescending-take (suc n) [] h = tt
    IsDescending-take (suc n) (x ∷ xs) h =
        (AtMost-take (key x) n xs h.0, IsDescending-take n xs h.1)
