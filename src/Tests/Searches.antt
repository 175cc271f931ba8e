-- ===== src/Tests/Searches.antt =====
-- Tests of app/core/retry.py and app/retrieval.
use agentic_rag.Prelude.{ℕ, zero, suc, ◌≤◌, arith}
use agentic_rag.Core.Errors.{ok, raise, dependency_error}
use agentic_rag.Core.Exec.{Exec}
use agentic_rag.Core.Retry.{with_retry}
use agentic_rag.Core.Retry.Attempts.{beside, counted, IsReal, with_retry-IsReal}

-- an operation that fails until its state has counted down
abbrev flaky : Exec ℕ ℕ
flaky zero = (ok 7, zero)
flaky (suc n) = (raise dependency_error, n)

abbrev no_sleep : ℕ → ℕ → ℕ
no_sleep number s = s

with_retry-IsReal_example :
    IsReal flaky (with_retry no_sleep flaky 3 2).0
    × ((with_retry (beside no_sleep) (counted flaky) 3 (0, 2)).1.0 ≤ 3)
with_retry-IsReal_example = with_retry-IsReal no_sleep flaky 3 2 (omega arith)
