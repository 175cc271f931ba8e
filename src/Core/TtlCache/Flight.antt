-- ===== src/Core/TtlCache/Flight.antt =====
-- app/core/cache.py: `get_or_load` as concurrent callers run it. A step is what one caller does
-- between two points at which it may be suspended; a schedule chooses whose step is next, the
-- clock's reading and how a load ends.
pub mod Invariant
mod Register
mod End
pub mod Steps
pub mod Single
use agentic_rag.Prelude.{
  ℕ, suc, ◌+◌, Bool, true, false, Option, none, some, List, [], ◌∷◌, ite, ℕ_discrete, if◌then◌else◌,
}
use agentic_rag.Dict.{Dict, get, remove, assign}
use agentic_rag.Core.Errors.{Result, ok, raise}
use agentic_rag.Core.TtlCache.{TtlCache, read, set, enabled, init}

-- where a caller stands: before the locked check, waiting for the event of another load, inside the
-- loader under its own event, past the loader and before the lock of the `finally` block, inside the
-- loader of a disabled cache, with a loaded value not yet written, or done; `abandoned` has left
-- under a cancellation with its event in flight, and `cancelled` without one
pub data Phase (V : Type 0) : Type 0 where
  checking : Phase V
  waiting : ℕ → Phase V
  loading : ℕ → Phase V
  ending : ℕ → Result V → Phase V
  direct : Phase V
  storing : V → Phase V
  finished : Result V → Phase V
  abandoned : ℕ → Phase V
  cancelled : Phase V

pub record Caller (K V : Type 0) : Type 0 where
  pub key : K
  pub phase : Phase V

-- `in_flight` is `_loading`, with the number of each event; `fired` tells the events that are set
pub record World (K V : Type 0) : Type 0 where
  pub cache : TtlCache K V
  pub in_flight : Dict K ℕ
  pub fired : ℕ → Bool
  pub next_event : ℕ
  pub callers : ℕ → Caller K V

-- one choice of the scheduler; `cancels` tells that the scope of the caller is cancelled
pub record Turn (V : Type 0) : Type 0 where
  pub caller : ℕ
  pub now : ℕ
  pub outcome : Result V
  pub cancels : Bool

-- the popped event, if there is one, is set
abbrev pub fire : Option ℕ → (ℕ → Bool) → ℕ → Bool
fire none fired e = fired e
fire (some own) fired e = ite (ℕ_discrete e own) true (fired e)

-- the `finally` block has run: what the load returned or raised
abbrev pub loaded : {V : Type 0} → Result V → Phase V
loaded (ok v) = storing v
loaded (raise x) = finished (raise x)

module _ {K V : Type 0} where
  abbrev pub goto : ℕ → Phase V → (ℕ → Caller K V) → ℕ → Caller K V
  goto i p callers j = ite (ℕ_discrete j i) (record (callers i) { phase = p }) (callers j)

  unfoldable pub start : ℕ → ℕ → (ℕ → K) → World K V
  start max_size ttl asked = record {
    cache = init max_size ttl;
    in_flight = [];
    fired = λ e. false;
    next_event = 0;
    callers = λ i. record { key = asked i; phase = checking };
  }

module _ {K V : Type 0} (dec : Discrete K) where
  -- the block under the lock, once the read has missed
  unfoldable pub join : ℕ → K → World K V → World K V
  join i key w = elim (get dec key w.in_flight) [
    | some event ↦ record w { callers = goto i (waiting event) w.callers }
    | none ↦ record w {
      in_flight = assign dec key w.next_event w.in_flight;
      next_event = suc w.next_event;
      callers = goto i (loading w.next_event) w.callers;
    }
  ]

  unfoldable pub looked_up : ℕ → K → World K V → TtlCache K V × Option V → World K V
  unfolding join
  looked_up i key w (cache, some value) = record w {
    cache = cache;
    callers = goto i (finished (ok value)) w.callers;
  }
  looked_up i key w (cache, none) = join i key (record w { cache = cache })

  -- one round of the loop; a disabled cache calls the loader instead
  unfoldable pub check : ℕ → ℕ → K → World K V → World K V
  unfolding looked_up enabled
  check i now key w =
      if enabled w.cache
      then looked_up i key w (read dec now key w.cache)
      else record w { callers = goto i direct w.callers }

  -- the `finally` block and what follows it, once the lock is held
  unfoldable pub finish_load : ℕ → Result V → K → World K V → World K V
  finish_load i outcome key w = record w {
    in_flight = remove dec key w.in_flight;
    fired = fire (get dec key w.in_flight) w.fired;
    callers = goto i (loaded outcome) w.callers;
  }

  -- a caller goes on from where it stands
  unfoldable pub proceed : Phase V → Turn V → World K V → World K V
  unfolding check finish_load
  proceed checking t w = check t.caller t.now (w.callers t.caller).key w
  proceed (waiting event) t w =
      if w.fired event then record w { callers = goto t.caller checking w.callers } else w
  proceed (loading event) t w = record w {
    callers = goto t.caller (ending event t.outcome) w.callers;
  }
  proceed (ending event result) t w = finish_load t.caller result (w.callers t.caller).key w
  proceed direct t w = record w { callers = goto t.caller (finished t.outcome) w.callers }
  proceed (storing value) t w = record w {
    cache = set dec t.now (w.callers t.caller).key value w.cache;
    callers = goto t.caller (finished (ok value)) w.callers;
  }
  proceed (finished result) t w = w
  proceed (abandoned event) t w = w
  proceed cancelled t w = w

  -- A cancelled scope raises at the caller's next await. In the loader, and at the lock of the
  -- `finally` block, that is before the event is popped and set: acquiring the lock raises too.
  abbrev pub interrupted : Phase V → Phase V
  interrupted checking = cancelled
  interrupted (waiting event) = cancelled
  interrupted (loading event) = abandoned event
  interrupted (ending event result) = abandoned event
  interrupted direct = cancelled
  interrupted (storing value) = cancelled
  interrupted (finished result) = finished result
  interrupted (abandoned event) = abandoned event
  interrupted cancelled = cancelled

  unfoldable pub advance : Phase V → Turn V → World K V → World K V
  unfolding proceed
  advance p t w =
      if t.cancels
      then record w { callers = goto t.caller (interrupted p) w.callers }
      else proceed p t w

  -- the turns in order, the last one first
  unfoldable pub run : World K V → List (Turn V) → World K V
  unfolding advance
  run w [] = w
  run w (t ∷ earlier) =
      let before = run w earlier in advance (before.callers t.caller).phase t before
