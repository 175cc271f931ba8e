-- ===== src/Core/TtlCache/Flight/Invariant.antt =====
-- The invariant of `get_or_load` among concurrent callers, and the steps that start and end no load.
use agentic_rag.Prelude.{
  ℕ, ◌<◌, ◌≡◌, ◌⊎◌, inl, inr, true, Option, none, some, ℕ_discrete, arith, Bool, false,
}
use agentic_rag.Dict.{get}
use agentic_rag.Core.TtlCache.{TtlCache}
use agentic_rag.Core.TtlCache.Flight.{
  Phase, waiting, loading, ending, direct, abandoned, World, goto,
}

module _ {V : Type 0} where
  -- the event that a caller has put in flight and not popped
  abbrev pub owned : Phase V → Option ℕ
  owned (loading e) = some e
  owned (ending e result) = some e
  owned (abandoned e) = some e
  owned _ = none

  -- the caller is inside its loader
  abbrev pub is_in_loader : Phase V → Bool
  is_in_loader (loading e) = true
  is_in_loader direct = true
  is_in_loader _ = false

module _ {K V : Type 0} where
  abbrev pub Owns : World K V → ℕ → ℕ → Type 0
  Owns w i e = owned (w.callers i).phase ≡ some e

  abbrev pub Waits : World K V → ℕ → ℕ → Type 0
  Waits w i e = (w.callers i).phase ≡ waiting e

  -- the event is set, or a caller has it in flight
  abbrev pub IsSetOrOwned : World K V → ℕ → Type 0
  IsSetOrOwned w e = (w.fired e ≡ true) ⊎ ((j : ℕ) × Owns w j e)

module _ {K V : Type 0} (dec : Discrete K) where
  pub record IsSingle (w : World K V) : Type 0 where
    pub owner : (i e : ℕ) → Owns w i e → get dec (w.callers i).key w.in_flight ≡ some e
    pub fresh : (k : K) (e : ℕ) → get dec k w.in_flight ≡ some e → e < w.next_event
    pub alone : (i j e : ℕ) → Owns w i e → Owns w j e → i ≡ j
    pub held :
        (k : K) (e : ℕ)
        → get dec k w.in_flight ≡ some e
        → (j : ℕ) × Owns w j e × ((w.callers j).key ≡ k)
    pub woken : (i e : ℕ) → Waits w i e → IsSetOrOwned w e

  module _ (w : World K V) (i : ℕ) (p : Phase V) (cache : TtlCache K V)
      (same : owned p ≡ owned (w.callers i).phase) where
    unfoldable pub moved : World K V
    moved = record w { cache = cache; callers = goto i p w.callers }

    keeps_Owns : (j e : ℕ) → Owns w j e → Owns moved j e
    unfolding moved
    keeps_Owns j e l = elim (ℕ_discrete j i) [
      | yes here ↦ ground (arith, here, l, same)
      | no other ↦ ground arith
    ]

    Owns-before : (j e : ℕ) → Owns moved j e → Owns w j e
    unfolding moved
    Owns-before j e l = elim (ℕ_discrete j i) [
      | yes here ↦ ground (arith, here, l, same)
      | no other ↦ ground arith
    ]

    still : (e : ℕ) → IsSetOrOwned w e → IsSetOrOwned moved e
    unfolding moved
    still e (inl already) = inl already
    still e (inr (j, l)) = inr (j, keeps_Owns j e l)

    Waits-before :
        ((e : ℕ) → p ≡ waiting e → IsSetOrOwned w e)
        → IsSingle w
        → (j e : ℕ) → Waits moved j e
        → IsSetOrOwned w e
    unfolding moved
    Waits-before known h j e l = elim (ℕ_discrete j i) [
      | yes here ↦ known e (ground (arith, here, l))
      | no other ↦ h.woken j e (ground arith)
    ]

    -- a caller moves to a phase that owns what the one it leaves does
    pub moved-IsSingle : ((e : ℕ) → p ≡ waiting e → IsSetOrOwned w e) → IsSingle w → IsSingle moved
    unfolding moved
    moved-IsSingle known h = record {
      owner = λ j e l. ground (arith, h.owner j e (Owns-before j e l));
      fresh = h.fresh;
      alone = λ j k e l m. h.alone j k e (Owns-before j e l) (Owns-before k e m);
      held = λ k e g. let (j, l, own) = h.held k e g in (j, keeps_Owns j e l, ground arith);
      woken = λ j e l. still e (Waits-before known h j e l);
    }
