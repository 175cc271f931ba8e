-- ===== src/Core/TtlCache/Flight/End.antt =====
-- A load ends: the `finally` block removes the event and sets it.
use agentic_rag.Prelude.{ℕ, ◌≡◌, ◌≢◌, inl, inr, some, ℕ_discrete, arith}
use agentic_rag.Dict.{get}
use agentic_rag.Dict.Lookup.{get-remove}
use agentic_rag.Core.Errors.{Result}
use agentic_rag.Core.TtlCache.Flight.{waiting, World, loaded, finish_load}
use agentic_rag.Core.TtlCache.Flight.Invariant.{owned, Owns, Waits, IsSetOrOwned, IsSingle}

module _ {K V : Type 0} (dec : Discrete K) where
  module _ (w : World K V) (i own : ℕ) (outcome : Result V) (busy : Owns w i own) where
    unfoldable pub ended : World K V
    unfolding finish_load
    ended = finish_load dec i outcome (w.callers i).key w

    loaded_calm : (e : ℕ) → owned (loaded outcome) ≢ some e
    loaded_calm e = ground arith

    ended_before : (j e : ℕ) → Owns ended j e → (j ≢ i) × Owns w j e
    unfolding ended
    ended_before j e l = elim (ℕ_discrete j i) [
      | yes same ↦ absurd (loaded_calm e (ground (arith, same, l)))
      | no other ↦ (other, ground arith)
    ]

    ended-owner :
        IsSingle dec w
        → (j e : ℕ) → Owns ended j e
        → get dec (ended.callers j).key ended.in_flight ≡ some e
    unfolding ended
    ended-owner h j e l = ground (
      arith,
      busy,
      ended_before j e l,
      h.owner j e,
      h.owner i own,
      h.alone j i e,
      get-remove dec (w.callers i).key (w.callers j).key w.in_flight,
    )

    ended-held :
        IsSingle dec w
        → (k : K) (e : ℕ) → get dec k ended.in_flight ≡ some e
        → (j : ℕ) × Owns ended j e × ((ended.callers j).key ≡ k)
    unfolding ended
    ended-held h k e g =
        let away : (get dec k w.in_flight ≡ some e) × ((w.callers i).key ≢ k) =
          ground (arith, get-remove dec (w.callers i).key k w.in_flight) in
        let (j, l, mine) = h.held k e away.0 in
        let other : j ≢ i = ground arith in (j, ground arith, ground arith)

    waited : (j e : ℕ) → Waits ended j e → Waits w j e
    unfolding ended
    waited j e l = ground (arith, outcome_not_waiting e)
      where
        outcome_not_waiting : (e : ℕ) → loaded outcome ≢ waiting e
        outcome_not_waiting e = ground arith

    ended-woken : IsSingle dec w → (j e : ℕ) → Waits ended j e → IsSetOrOwned ended e
    unfolding ended
    ended-woken h j e l = elim (ℕ_discrete e own) [
      | yes same ↦ inl (ground (arith, h.owner i own, busy, same))
      | no other ↦ elim (h.woken j e (waited j e l)) [
        | inl already ↦ inl (ground (arith, h.owner i own, busy, other, already))
        | inr (k, m) ↦ let away : k ≢ i = ground (arith, busy, other, m) in inr (k, ground arith)
      ]
    ]

    pub ended-IsSingle : IsSingle dec w → IsSingle dec ended
    unfolding ended
    ended-IsSingle h = record {
      owner = ended-owner h;
      fresh = λ k e g. ground (arith, h.fresh k e, get-remove dec (w.callers i).key k w.in_flight);
      alone = λ j k e l m. h.alone j k e (ended_before j e l).1 (ended_before k e m).1;
      held = ended-held h;
      woken = ended-woken h;
    }
