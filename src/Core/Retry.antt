-- ===== src/Core/Retry.antt =====
-- app/core/retry.py: retrying transient failures. The sleep between two attempts is a parameter, at
-- the number of the attempt that failed; the jitter is drawn inside it.
pub mod Attempts
use agentic_rag.Prelude.{ℕ, zero, suc, ◌+◌, Bool, true, false, not, ◌||◌, ◌==◌, if◌then◌else◌}
use agentic_rag.Core.Errors.{
  Exc, app_error, configuration_error, not_found_error, validation_error, dependency_error,
  connection_error, timeout_error, os_error, value_error, tool_error, other,
}
use agentic_rag.Core.Exec.{Exec, fail, attempt, modify, ◌>>◌}

-- `is_transient`: of the application's errors only `DependencyError`
unfoldable pub is_transient : Exc → Bool
is_transient dependency_error = true
is_transient connection_error = true
is_transient timeout_error = true
is_transient os_error = true
is_transient _ = false

module _ {S A : Type 0} (sleep : ℕ → S → S) where
  -- the handler of an attempt that others may follow
  unfoldable pub on_failure : Exec S A → ℕ → Exc → Exec S A
  unfolding is_transient
  on_failure rest number x = if is_transient x then modify (sleep number) >> rest else fail x

  -- the loop from the attempt with the given number, `left` being the attempts after it
  unfoldable pub retry_from : Exec S A → ℕ → ℕ → Exec S A
  unfolding on_failure
  retry_from operation zero number = attempt operation fail
  retry_from operation (suc left) number =
      attempt operation (on_failure (retry_from operation left (suc number)) number)

  -- `with_retry`; without attempts the loop is empty and its last line raises
  unfoldable pub with_retry : Exec S A → ℕ → Exec S A
  unfolding retry_from
  with_retry operation zero = fail dependency_error
  with_retry operation (suc left) = retry_from operation left 1
