-- ===== src/Core/TtlCache/Flight/Single.antt =====
-- At most one load of a key is in flight, and what a caller that waits for an event can count on.
use agentic_rag.Prelude.{
  ℕ, ◌<◌, ◌≡◌, ◌≢◌, ◌⊎◌, inl, inr, refl, true, Option, none, some, List, [], ◌∷◌, arith, Bool-cases,
  Option-cases,
}
use agentic_rag.Dict.{get}
use agentic_rag.Core.Errors.{Result, ok}
use agentic_rag.Core.TtlCache.{TtlCache, read, set, enabled}
use agentic_rag.Core.TtlCache.Flight.{
  Phase, checking, waiting, loading, ending, direct, storing, finished, abandoned, cancelled, World,
  Turn, start, join, check, interrupted, proceed, advance, run, looked_up,
}
use agentic_rag.Core.TtlCache.Flight.Invariant.{
  owned, is_in_loader, Waits, IsSingle, moved, moved-IsSingle,
}
use agentic_rag.Core.TtlCache.Flight.Register.{registered, registered-IsSingle}
use agentic_rag.Core.TtlCache.Flight.End.{ended, ended-IsSingle}
use agentic_rag.Core.TtlCache.Flight.Steps.{if_elim, WasCancelled, run-IsOn, run-abandoned}

module _ {K V : Type 0} (dec : Discrete K) where
  module _ (w : World K V) (i : ℕ) (idle : owned (w.callers i).phase ≡ none)
      (h : IsSingle dec w) where
    join-IsSingle :
        (cache : TtlCache K V)
        → IsSingle dec (join dec i (w.callers i).key (record w { cache = cache }))
    unfolding join moved registered
    join-IsSingle cache = elim (Option-cases (get dec (w.callers i).key w.in_flight)) [
      | inl absent ↦
          rw (absent, join)
            (registered-IsSingle dec (record w { cache = cache }) i absent idle
              (record {
                owner = h.owner;
                fresh = h.fresh;
                alone = h.alone;
                held = h.held;
                woken = h.woken;
              }))
      | inr (e, present) ↦
          rw (present, join)
            (moved-IsSingle dec w i (waiting e) cache (cc idle)
              (λ own p.
                let (j, l, mine) = h.held (w.callers i).key e present in
                inr (j, ground (arith, l, p)))
              h)
    ]

    looked_up-IsSingle :
        (cache : TtlCache K V) (found : Option V)
        → IsSingle dec (looked_up dec i (w.callers i).key w (cache, found))
    unfolding looked_up moved
    looked_up-IsSingle cache none = join-IsSingle cache
    looked_up-IsSingle cache (some value) =
        moved-IsSingle dec w i (finished (ok value)) cache (cc idle) (λ e p. absurd (ground arith))
          h

    check-IsSingle : (now : ℕ) → IsSingle dec (check dec i now (w.callers i).key w)
    unfolding check moved
    check-IsSingle now = elim (Bool-cases (enabled w.cache)) [
      | inl on ↦
          rw (on, check)
            (looked_up-IsSingle (read dec now (w.callers i).key w.cache).0
              (read dec now (w.callers i).key w.cache).1)
      | inr off ↦
          rw (off, check)
            (moved-IsSingle dec w i direct w.cache (cc idle) (λ e p. absurd (ground arith)) h)
    ]

  proceed-IsSingle :
      (p : Phase V) (t : Turn V) (w : World K V)
      → (w.callers t.caller).phase ≡ p
      → IsSingle dec w
      → IsSingle dec (proceed dec p t w)
  unfolding proceed moved ended
  proceed-IsSingle checking t w at h = check-IsSingle w t.caller (ground (arith, at)) h t.now
  proceed-IsSingle (waiting event) t w at h = elim (Bool-cases (w.fired event)) [
    | inl already ↦ rw already (
        moved-IsSingle dec w t.caller checking w.cache (ground (arith, at))
          (λ e p. absurd (ground arith)) h)
    | inr unset ↦ rw unset h
  ]
  proceed-IsSingle (loading event) t w at h =
      moved-IsSingle dec w t.caller (ending event t.outcome) w.cache (ground (arith, at))
        (λ e p. absurd (ground arith)) h
  proceed-IsSingle (ending event result) t w at h =
      ended-IsSingle dec w t.caller event result (ground (arith, at)) h
  proceed-IsSingle direct t w at h =
      moved-IsSingle dec w t.caller (finished t.outcome) w.cache (ground (arith, at))
        (λ e p. absurd (ground arith)) h
  proceed-IsSingle (storing value) t w at h =
      moved-IsSingle dec w t.caller (finished (ok value))
        (set dec t.now (w.callers t.caller).key value w.cache) (ground (arith, at))
        (λ e p. absurd (ground arith)) h
  proceed-IsSingle (finished result) t w at h = h
  proceed-IsSingle (abandoned event) t w at h = h
  proceed-IsSingle cancelled t w at h = h

  owned-interrupted : (p : Phase V) → owned (interrupted dec p) ≡ owned p
  owned-interrupted checking = refl
  owned-interrupted (waiting event) = refl
  owned-interrupted (loading event) = refl
  owned-interrupted (ending event result) = refl
  owned-interrupted direct = refl
  owned-interrupted (storing value) = refl
  owned-interrupted (finished result) = refl
  owned-interrupted (abandoned event) = refl
  owned-interrupted cancelled = refl

  interrupted_ne_waiting : (p : Phase V) (e : ℕ) → interrupted dec p ≢ waiting e
  interrupted_ne_waiting checking e = ground arith
  interrupted_ne_waiting (waiting event) e = ground arith
  interrupted_ne_waiting (loading event) e = ground arith
  interrupted_ne_waiting (ending event result) e = ground arith
  interrupted_ne_waiting direct e = ground arith
  interrupted_ne_waiting (storing value) e = ground arith
  interrupted_ne_waiting (finished result) e = ground arith
  interrupted_ne_waiting (abandoned event) e = ground arith
  interrupted_ne_waiting cancelled e = ground arith

  run-IsSingle :
      (w : World K V) (turns : List (Turn V)) → IsSingle dec w → IsSingle dec (run dec w turns)
  unfolding run advance moved
  run-IsSingle w [] h = h
  run-IsSingle w (t ∷ earlier) h =
      let before = run dec w earlier in
      let p = (before.callers t.caller).phase in
      let single = run-IsSingle w earlier h in
      if_elim (IsSingle dec) t.cancels _ _
        (λ stops.
          moved-IsSingle dec before t.caller (interrupted dec p) before.cache (owned-interrupted p)
            (λ e q. absurd (interrupted_ne_waiting p e q)) single)
        (λ goes. proceed-IsSingle p t before refl single)

  start-IsSingle :
      (max_size ttl : ℕ) (asked : ℕ → K) → IsSingle dec (start {V = V} max_size ttl asked)
  unfolding start get
  start-IsSingle max_size ttl asked = record {
    owner = λ i e l. absurd (ground arith);
    fresh = λ k e g. absurd (ground arith);
    alone = λ i j e l m. absurd (ground arith);
    held = λ k e g. absurd (ground arith);
    woken = λ i e l. absurd (ground arith);
  }

  -- a caller inside its loader has an event in flight, unless it loads directly
  in_loader-owned :
      (p : Phase V) → is_in_loader p ≡ true → p ≢ direct → (e : ℕ) × (owned p ≡ some e)
  in_loader-owned (loading e) h n = (e, refl)
  in_loader-owned direct h n = absurd (n refl)
  in_loader-owned checking h n = absurd (cc h)
  in_loader-owned (waiting e) h n = absurd (cc h)
  in_loader-owned (ending e result) h n = absurd (cc h)
  in_loader-owned (storing value) h n = absurd (cc h)
  in_loader-owned (finished result) h n = absurd (cc h)
  in_loader-owned (abandoned e) h n = absurd (cc h)
  in_loader-owned cancelled h n = absurd (cc h)

  -- the caller will set the event when it goes on: it is in its loader, or past it
  abbrev pub WillSet : Phase V → ℕ → Type 0
  WillSet p e = (p ≡ loading e) ⊎ ((result : Result V) × (p ≡ ending e result))

  owned-cases : (p : Phase V) (e : ℕ) → owned p ≡ some e → WillSet p e ⊎ (p ≡ abandoned e)
  owned-cases (loading own) e h = inl (inl (ground (arith, h)))
  owned-cases (ending own result) e h = inl (inr (result, ground (arith, h)))
  owned-cases (abandoned own) e h = inr (ground (arith, h))
  owned-cases checking e h = absurd (cc h)
  owned-cases (waiting own) e h = absurd (cc h)
  owned-cases direct e h = absurd (cc h)
  owned-cases (storing value) e h = absurd (cc h)
  owned-cases (finished result) e h = absurd (cc h)
  owned-cases cancelled e h = absurd (cc h)

  module _ (max_size ttl : ℕ) (asked : ℕ → K) (turns : List (Turn V)) where
    abbrev pub reached : World K V
    reached = run dec (start max_size ttl asked) turns

    reached-IsSingle : IsSingle dec reached
    reached-IsSingle =
        run-IsSingle (start max_size ttl asked) turns (start-IsSingle max_size ttl asked)

    -- With an enabled cache, under every schedule of any number of callers, cancellations included,
    -- two callers that are inside their loaders for the same key are one caller.
    pub single_flight :
        (i j : ℕ)
        → 0 < max_size
        → is_in_loader (reached.callers i).phase ≡ true
        → is_in_loader (reached.callers j).phase ≡ true
        → (reached.callers i).key ≡ (reached.callers j).key
        → i ≡ j
    unfolding start enabled agentic_rag.Core.TtlCache.init
    single_flight i j room l m same =
        let h = reached-IsSingle in
        let (on, calm) =
          run-IsOn dec (start max_size ttl asked) turns
            (ground (arith, room), λ k e. ground arith) in
        let (d, own_i) = in_loader-owned (reached.callers i).phase l (calm i) in
        let (e, own_j) = in_loader-owned (reached.callers j).phase m (calm j) in
        h.alone i j e (ground (arith, own_i, own_j, same, h.owner i d, h.owner j e)) own_j

    -- Under every schedule, the event that a caller waits for is set already, or some caller is in
    -- its loader or past it and sets the event when it goes on, or some caller was cancelled before
    -- it could set it. So without cancellations no wakeup is lost.
    pub waiting_cases :
        (i e : ℕ)
        → Waits reached i e
        → (reached.fired e ≡ true)
          ⊎ (((j : ℕ) × WillSet (reached.callers j).phase e)
              ⊎ ((j : ℕ) × ((reached.callers j).phase ≡ abandoned e) × WasCancelled dec j turns))
    unfolding start
    waiting_cases i e waits = elim (reached-IsSingle.woken i e waits) [
      | inl already ↦ inl already
      | inr (j, own) ↦ elim (owned-cases (reached.callers j).phase e own) [
        | inl will ↦ inr (inl (j, will))
        | inr left ↦ inr (
            inr
              (j, left, run-abandoned dec (start max_size ttl asked) turns j e (ground arith) left))
      ]
    ]
