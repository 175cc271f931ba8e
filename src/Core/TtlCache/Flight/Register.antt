-- ===== src/Core/TtlCache/Flight/Register.antt =====
-- A caller that misses, with no load of its key in flight, starts one under a new event.
use agentic_rag.Prelude.{ℕ, suc, ◌≡◌, ◌≢◌, ◌⊎◌, inl, inr, none, some, ℕ_discrete, arith}
use agentic_rag.Dict.{get, assign}
use agentic_rag.Dict.Lookup.{get-assign}
use agentic_rag.Core.TtlCache.Flight.{loading, World, goto}
use agentic_rag.Core.TtlCache.Flight.Invariant.{owned, Owns, Waits, IsSetOrOwned, IsSingle}

module _ {K V : Type 0} (dec : Discrete K) where
  module _ (w : World K V) (i : ℕ) (absent : get dec (w.callers i).key w.in_flight ≡ none) where
    unfoldable pub registered : World K V
    registered = record w {
      in_flight = assign dec (w.callers i).key w.next_event w.in_flight;
      next_event = suc w.next_event;
      callers = goto i (loading w.next_event) w.callers;
    }

    Owns-before :
        (j e : ℕ) → Owns registered j e → ((j ≡ i) × (e ≡ w.next_event)) ⊎ ((j ≢ i) × Owns w j e)
    unfolding registered
    Owns-before j e l = elim (ℕ_discrete j i) [
      | yes same ↦ inl (same, ground (arith, same, l))
      | no other ↦ inr (other, ground arith)
    ]

    registered-owner :
        IsSingle dec w
        → (j e : ℕ) → Owns registered j e
        → get dec (registered.callers j).key registered.in_flight ≡ some e
    unfolding registered
    registered-owner h j e l = ground (
      arith,
      absent,
      Owns-before j e l,
      h.owner j e,
      get-assign dec (w.callers i).key (w.callers j).key w.next_event w.in_flight,
    )

    registered-keeps :
        owned (w.callers i).phase ≡ none → (j e : ℕ) → Owns w j e → Owns registered j e
    unfolding registered
    registered-keeps idle j e l = elim (ℕ_discrete j i) [
      | yes same ↦ absurd (ground (arith, same, l, idle))
      | no other ↦ ground arith
    ]

    registered-alone :
        IsSingle dec w → (j k e : ℕ) → Owns registered j e → Owns registered k e → j ≡ k
    registered-alone h j k e l m = ground (
      arith,
      Owns-before j e l,
      Owns-before k e m,
      h.alone j k e,
      h.owner j e,
      h.owner k e,
      h.fresh (w.callers j).key e,
      h.fresh (w.callers k).key e,
    )

    registered-held :
        owned (w.callers i).phase ≡ none
        → IsSingle dec w
        → (k : K) (e : ℕ) → get dec k registered.in_flight ≡ some e
        → (j : ℕ) × Owns registered j e × ((registered.callers j).key ≡ k)
    unfolding registered
    registered-held idle h k e g = elim (dec (w.callers i).key k) [
      | yes same ↦ (
        i,
        ground (arith, get-assign dec (w.callers i).key k w.next_event w.in_flight),
        ground arith,
      )
      | no other ↦
          let (j, l, own) =
            h.held k e
              (ground (arith, get-assign dec (w.callers i).key k w.next_event w.in_flight)) in
          (j, registered-keeps idle j e l, ground arith)
    ]

    registered-woken :
        owned (w.callers i).phase ≡ none
        → IsSingle dec w
        → (j e : ℕ) → Waits registered j e
        → IsSetOrOwned registered e
    unfolding registered
    registered-woken idle h j e l = elim (h.woken j e (ground arith)) [
      | inl already ↦ inl already
      | inr (k, m) ↦ inr (k, registered-keeps idle k e m)
    ]

    pub registered-IsSingle :
        owned (w.callers i).phase ≡ none → IsSingle dec w → IsSingle dec registered
    unfolding registered
    registered-IsSingle idle h = record {
      owner = registered-owner h;
      fresh = λ k e g.
          ground (arith, h.fresh k e, get-assign dec (w.callers i).key k w.next_event w.in_flight);
      alone = registered-alone h;
      held = registered-held idle h;
      woken = registered-woken idle h;
    }
