-- ===== src/Tests/Caches.antt =====
-- Tests of app/core/cache.py and app/cache/memory.py.
use agentic_rag.Prelude.{
  Bool, true, false, ◌⊎◌, ℕ, ◌+◌, ◌<◌, ◌≡◌, refl, some, List, [], ◌∷◌, ℕ_discrete, arith,
}
use agentic_rag.Dict.{get}
use agentic_rag.Core.Errors.{ok}
use agentic_rag.Core.TtlCache.{TtlCache, init, read, set}
use agentic_rag.Core.TtlCache.Laws.{IsValid}
use agentic_rag.Core.TtlCache.History.{Call, set_call, replay, last_set, read-last_set}
use agentic_rag.Core.TtlCache.Flight.{abandoned, Turn, World, start, run}
use agentic_rag.Core.TtlCache.Flight.Invariant.{is_in_loader, Waits}
use agentic_rag.Core.TtlCache.Flight.Steps.{WasCancelled}
use agentic_rag.Core.TtlCache.Flight.Single.{WillSet, reached, single_flight, waiting_cases}

abbrev same_key : ℕ → ℕ
same_key i = 5

abbrev step : ℕ → Bool → Turn ℕ
step i cancels = record { caller = i; now = 1; outcome = ok 9; cancels = cancels }

-- caller 0 starts to load, then caller 1 asks for the same key and waits
abbrev two_turns : List (Turn ℕ)
two_turns = step 1 false ∷ step 0 false ∷ []

abbrev two_callers : World ℕ ℕ
two_callers = reached ℕ_discrete 4 10 same_key two_turns

first_loads : is_in_loader (two_callers.callers 0).phase ≡ true
unfolding run start init read get ℕ_discrete agentic_rag.Dict.assign
first_loads = refl

single_flight_example : ◌≡◌ {A = ℕ} 0 0
single_flight_example =
    single_flight ℕ_discrete 4 10 same_key two_turns 0 0 (omega arith) first_loads first_loads refl

-- then the scope of caller 0 is cancelled
abbrev cancelled_load : List (Turn ℕ)
cancelled_load = step 0 true ∷ two_turns

abbrev left_waiting : World ℕ ℕ
left_waiting = reached ℕ_discrete 4 10 same_key cancelled_load

second-Waits : Waits left_waiting 1 0
unfolding run start init read get ℕ_discrete agentic_rag.Dict.assign
second-Waits = refl

waiting_cases_example :
    (left_waiting.fired 0 ≡ true)
    ⊎ (((j : ℕ) × WillSet ℕ_discrete (left_waiting.callers j).phase 0)
        ⊎ ((j : ℕ) × ((left_waiting.callers j).phase ≡ abandoned 0)
            × WasCancelled ℕ_discrete j cancelled_load))
waiting_cases_example = waiting_cases ℕ_discrete 4 10 same_key cancelled_load 1 0 second-Waits

abbrev small : TtlCache ℕ ℕ
small = init 2 10

small-IsValid : IsValid small
unfolding init
small-IsValid = record { bounded = omega arith; distinct = tt }

abbrev calls : List (Call ℕ ℕ)
calls = set_call 4 6 1 ∷ set_call 3 5 8 ∷ set_call 2 5 7 ∷ []

found_in_calls : (read ℕ_discrete 9 5 (replay ℕ_discrete (init 2 10) calls)).1 ≡ some 8
unfolding read replay init get set agentic_rag.Dict.trim agentic_rag.Dict.put_last ℕ_discrete
found_in_calls = refl

read-last_set_example : (t : ℕ) × (last_set ℕ_discrete 5 calls ≡ some (8, t)) × (9 < t + 10)
read-last_set_example = read-last_set ℕ_discrete 2 10 calls 9 5 8 (omega arith) found_in_calls
