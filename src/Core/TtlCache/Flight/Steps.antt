-- ===== src/Core/TtlCache/Flight/Steps.antt =====
-- What the steps of `get_or_load` keep besides: an enabled cache stays enabled and no caller loads
-- directly, and a caller leaves its event in flight only under a cancellation.
use agentic_rag.Prelude.{
  ℕ, ◌≡◌, ◌≢◌, ◌⊎◌, inl, inr, refl, Option, none, some, List, [], ◌∷◌, arith, Bool, true, false,
  Bool-cases, Option-cases, ℕ_discrete, if◌then◌else◌,
}
use agentic_rag.Dict.{get}
use agentic_rag.Core.Errors.{Result, ok}
use agentic_rag.Core.TtlCache.{TtlCache, read, set, enabled}
use agentic_rag.Core.TtlCache.Flight.{
  Phase, checking, waiting, loading, ending, direct, storing, finished, abandoned, cancelled, World,
  Turn, loaded, goto, start, join, looked_up, check, interrupted, proceed, advance, run,
}

pub if_elim :
    {A : Type 0}
    → (P : A → Type 0) (b : Bool) (c d : A) → (b ≡ true → P c)
    → (b ≡ false → P d)
    → P (if b then c else d)
if_elim P true c d h k = h refl
if_elim P false c d h k = k refl

module _ {K V : Type 0} where
  goto_cases :
      (i j : ℕ) (p : Phase V) (w : World K V)
      → (i ≡ j) × ((goto i p w.callers j).phase ≡ p)
        ⊎ ((goto i p w.callers j).phase ≡ (w.callers j).phase)
  goto_cases i j p w = elim (ℕ_discrete j i) [
    | yes same ↦ inl (ground (arith, same), ground (arith, same))
    | no other ↦ inr (ground (arith, other))
  ]

  -- a phase that a step without a cancellation never reaches is one the caller was in before
  abbrev Goes : World K V → Phase V → World K V → Type 0
  Goes w q after = (j : ℕ) → (after.callers j).phase ≡ q → (w.callers j).phase ≡ q

  Goes-goto :
      (i : ℕ) (p q : Phase V) (w : World K V)
      → p ≢ q
      → (j : ℕ) → (goto i p w.callers j).phase ≡ q
      → (w.callers j).phase ≡ q
  Goes-goto i p q w other j e = ground (arith, goto_cases i j p w)

module _ {K V : Type 0} (dec : Discrete K) where
  -- the steps of `get_or_load` on an enabled cache reach these phases
  record IsOutside (q : Phase V) : Type 0 where
    not_checking : checking ≢ q
    not_waiting : (e : ℕ) → waiting e ≢ q
    not_loading : (e : ℕ) → loading e ≢ q
    not_ending : (e : ℕ) (r : Result V) → ending e r ≢ q
    not_storing : (v : V) → storing v ≢ q
    not_finished : (r : Result V) → finished r ≢ q

  join-Goes :
      (i : ℕ) (key : K) (q : Phase V) (w : World K V) → IsOutside q → Goes w q (join dec i key w)
  unfolding join
  join-Goes i key q w h j = elim (Option-cases (get dec key w.in_flight)) [
    | inl absent ↦ rw (absent, join) (Goes-goto i (loading w.next_event) q w (h.not_loading _) j)
    | inr (e, present) ↦ rw (present, join) (Goes-goto i (waiting e) q w (h.not_waiting e) j)
  ]

  looked_up-Goes :
      (i : ℕ) (key : K) (q : Phase V) (w : World K V) (cache : TtlCache K V) (found : Option V)
      → IsOutside q
      → Goes w q (looked_up dec i key w (cache, found))
  unfolding looked_up
  looked_up-Goes i key q w cache none h = join-Goes i key q (record w { cache = cache }) h
  looked_up-Goes i key q w cache (some value) h =
      Goes-goto i (finished (ok value)) q w (h.not_finished _)

  loaded_ne : (q : Phase V) (r : Result V) → IsOutside q → loaded r ≢ q
  loaded_ne q (ok v) h = h.not_storing v
  loaded_ne q (Result.raise x) h = h.not_finished (Result.raise x)

  proceed-Goes :
      (p q : Phase V) (t : Turn V) (w : World K V)
      → IsOutside q
      → (enabled w.cache ≡ true) ⊎ (direct ≢ q)
      → Goes w q (proceed dec p t w)
  unfolding proceed check agentic_rag.Core.TtlCache.Flight.finish_load
  proceed-Goes checking q t w h on = elim (Bool-cases (enabled w.cache)) [
    | inl yes_on ↦ rw yes_on (
        looked_up-Goes t.caller (w.callers t.caller).key q w
          (read dec t.now (w.callers t.caller).key w.cache).0
          (read dec t.now (w.callers t.caller).key w.cache).1 h)
    | inr off ↦ rw off (
        Goes-goto t.caller direct q w
          (elim on [ inl yes_on ↦ absurd (cc (yes_on, off)) | inr other ↦ other ]))
  ]
  proceed-Goes (waiting event) q t w h on = elim (Bool-cases (w.fired event)) [
    | inl already ↦ rw already (Goes-goto t.caller checking q w h.not_checking)
    | inr unset ↦ rw unset (λ j e. e)
  ]
  proceed-Goes (loading event) q t w h on =
      Goes-goto t.caller (ending event t.outcome) q w (h.not_ending _ _)
  proceed-Goes (ending event result) q t w h on =
      Goes-goto t.caller (loaded result) q w (loaded_ne q result h)
  proceed-Goes direct q t w h on = Goes-goto t.caller (finished t.outcome) q w (h.not_finished _)
  proceed-Goes (storing value) q t w h on =
      Goes-goto t.caller (finished (ok value)) q w (h.not_finished _)
  proceed-Goes (finished result) q t w h on = λ j e. e
  proceed-Goes (abandoned event) q t w h on = λ j e. e
  proceed-Goes cancelled q t w h on = λ j e. e

  direct-IsOutside : IsOutside direct
  direct-IsOutside = record {
    not_checking = ground arith;
    not_waiting = λ e. ground arith;
    not_loading = λ e. ground arith;
    not_ending = λ e r. ground arith;
    not_storing = λ v. ground arith;
    not_finished = λ r. ground arith;
  }

  abandoned-IsOutside : (own : ℕ) → IsOutside (abandoned own)
  abandoned-IsOutside own = record {
    not_checking = ground arith;
    not_waiting = λ e. ground arith;
    not_loading = λ e. ground arith;
    not_ending = λ e r. ground arith;
    not_storing = λ v. ground arith;
    not_finished = λ r. ground arith;
  }

  -- one of the turns cancels the caller
  abbrev pub WasCancelled : ℕ → List (Turn V) → Type 0
  WasCancelled j [] = ⊥
  WasCancelled j (t ∷ earlier) = ((t.caller ≡ j) × (t.cancels ≡ true)) ⊎ WasCancelled j earlier

  interrupted_ne_direct : (p : Phase V) → interrupted dec p ≢ direct
  interrupted_ne_direct checking = ground arith
  interrupted_ne_direct (waiting event) = ground arith
  interrupted_ne_direct (loading event) = ground arith
  interrupted_ne_direct (ending event result) = ground arith
  interrupted_ne_direct direct = ground arith
  interrupted_ne_direct (storing value) = ground arith
  interrupted_ne_direct (finished result) = ground arith
  interrupted_ne_direct (abandoned event) = ground arith
  interrupted_ne_direct cancelled = ground arith

  proceed-max_size :
      (p : Phase V) (t : Turn V) (w : World K V)
      → (proceed dec p t w).cache.max_size ≡ w.cache.max_size
  unfolding proceed check agentic_rag.Core.TtlCache.Flight.finish_load looked_up join read set
      agentic_rag.Core.TtlCache.write
  proceed-max_size p t w = ground arith

  abbrev IsOn : World K V → Type 0
  IsOn w = (enabled w.cache ≡ true) × ((j : ℕ) → (w.callers j).phase ≢ direct)

  pub run-IsOn : (w : World K V) (turns : List (Turn V)) → IsOn w → IsOn (run dec w turns)
  unfolding run advance enabled
  run-IsOn w [] h = h
  run-IsOn w (t ∷ earlier) h =
      let before = run dec w earlier in
      let p = (before.callers t.caller).phase in
      let (on, calm) = run-IsOn w earlier h in
      if_elim IsOn t.cancels _ _
        (λ stops. (
          on,
          λ j e.
              calm j (
                Goes-goto t.caller (interrupted dec p) direct before (interrupted_ne_direct p) j e),
        ))
        (λ goes. (
          ground (arith, proceed-max_size p t before, on),
          λ j e. calm j (proceed-Goes p direct t before direct-IsOutside (inl on) j e),
        ))

  pub run-abandoned :
      (w : World K V) (turns : List (Turn V)) (j own : ℕ)
      → (w.callers j).phase ≢ abandoned own
      → ((run dec w turns).callers j).phase ≡ abandoned own
      → WasCancelled j turns
  unfolding run advance
  run-abandoned w [] j own before = λ at. absurd (before at)
  run-abandoned w (t ∷ earlier) j own before =
      let mid = run dec w earlier in
      let p = (mid.callers t.caller).phase in
      if_elim
        (λ (after : World K V).
          (after.callers j).phase ≡ abandoned own → WasCancelled j (t ∷ earlier))
        t.cancels _ _
        (λ stops at. elim (goto_cases t.caller j (interrupted dec p) mid) [
          | inl here ↦ inl (here.0, stops)
          | inr same ↦ inr (run-abandoned w earlier j own before (cc (same, at)))
        ])
        (λ goes at. inr (
          run-abandoned w earlier j own before (
            proceed-Goes p (abandoned own) t mid (abandoned-IsOutside own) (inr (ground arith)) j
              at)))
