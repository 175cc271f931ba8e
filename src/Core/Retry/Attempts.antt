-- ===== src/Core/Retry/Attempts.antt =====
-- How often an operation runs under `with_retry`, and which error comes out: app/core/retry.py.
use agentic_rag.Prelude.{ℕ, zero, suc, ◌+◌, ◌≤◌, ◌<◌, ◌≡◌, inl, inr, refl, false, arith, Bool-cases}
use agentic_rag.Core.Errors.{Exc, Result, ok, raise}
use agentic_rag.Core.Exec.{Exec, fail, handled}
use agentic_rag.Core.Retry.{is_transient, on_failure, retry_from, with_retry}

-- a sleep that leaves the counter of the runs alone
abbrev pub beside : {S : Type 0} → (ℕ → S → S) → ℕ → ℕ × S → ℕ × S
beside sleep number (runs, s) = (runs, sleep number s)

module _ {S A : Type 0} where
  -- the operation with a counter of its runs
  abbrev pub counted : Exec S A → Exec (ℕ × S) A
  counted operation (runs, s) = let (r, s') = operation s in (r, (suc runs, s'))

  -- every state that a run leaves has counted at most `bound` runs
  abbrev pub CountsTo : ℕ → Result A × (ℕ × S) → Type 0
  CountsTo bound out = out.1.0 ≤ bound

  failed-CountsTo :
      (bound runs : ℕ) (r : Result A) (s : S)
      → runs ≤ bound
      → CountsTo bound (handled fail r (runs, s))
  failed-CountsTo bound runs (ok a) s h = h
  failed-CountsTo bound runs (raise x) s h = h

  on_failure-CountsTo :
      (sleep : ℕ → S → S) (rest : Exec (ℕ × S) A) (bound number runs : ℕ) (r : Result A) (s : S)
      → runs ≤ bound
      → ((t : S) → CountsTo bound (rest (runs, t)))
      → CountsTo bound (handled (on_failure (beside sleep) rest number) r (runs, s))
  unfolding on_failure
  on_failure-CountsTo sleep rest bound number runs (ok a) s h hr = h
  on_failure-CountsTo sleep rest bound number runs (raise x) s h hr =
      elim (Bool-cases (is_transient x)) [
        | inl yes_again ↦ rw (yes_again, on_failure) (hr (sleep number s))
        | inr final ↦ rw (final, on_failure) h
      ]

  retry_from-CountsTo :
      (sleep : ℕ → S → S) (operation : Exec S A) (left number runs : ℕ) (s : S)
      → CountsTo
          (runs + suc left)
          (retry_from (beside sleep) (counted operation) left number (runs, s))
  unfolding retry_from
  retry_from-CountsTo sleep operation zero number runs s =
      failed-CountsTo (runs + 1) (suc runs) (operation s).0 (operation s).1 (omega arith)
  retry_from-CountsTo sleep operation (suc left) number runs s =
      let here = operation s in
      on_failure-CountsTo sleep (retry_from (beside sleep) (counted operation) left (suc number))
        (runs + suc (suc left)) number (suc runs) here.0 here.1 (omega arith)
        (λ t. omega (arith, retry_from-CountsTo sleep operation left (suc number) (suc runs) t))

  -- an error that comes out is one that the operation raised, and it is final: either it is not
  -- transient, or it is that of the last attempt
  abbrev pub IsReal : Exec S A → Result A → Type 0
  IsReal operation (ok a) = (t : S) × ((operation t).0 ≡ ok a)
  IsReal operation (raise x) = (t : S) × ((operation t).0 ≡ raise x)

  failed-IsReal :
      (operation : Exec S A) (s t : S) (r : Result A)
      → (operation t).0 ≡ r
      → IsReal operation (handled fail r s).0
  failed-IsReal operation s t (ok a) e = (t, e)
  failed-IsReal operation s t (raise x) e = (t, e)

  on_failure-IsReal :
      (sleep : ℕ → S → S) (operation rest : Exec S A) (number : ℕ) (s t : S) (r : Result A)
      → (operation t).0 ≡ r
      → ((u : S) → IsReal operation (rest u).0)
      → IsReal operation (handled (on_failure sleep rest number) r s).0
  unfolding on_failure
  on_failure-IsReal sleep operation rest number s t (ok a) e h = (t, e)
  on_failure-IsReal sleep operation rest number s t (raise x) e h =
      elim (Bool-cases (is_transient x)) [
        | inl again ↦ rw (again, on_failure) (h (sleep number s))
        | inr final ↦ rw (final, on_failure) (t, e)
      ]

  retry_from-IsReal :
      (sleep : ℕ → S → S) (operation : Exec S A) (left number : ℕ) (s : S)
      → IsReal operation (retry_from sleep operation left number s).0
  unfolding retry_from
  retry_from-IsReal sleep operation zero number s =
      failed-IsReal operation (operation s).1 s (operation s).0 refl
  retry_from-IsReal sleep operation (suc left) number s =
      on_failure-IsReal sleep operation (retry_from sleep operation left (suc number)) number
        (operation s).1 s (operation s).0 refl (retry_from-IsReal sleep operation left (suc number))

  -- With at least one attempt, `with_retry` runs the operation at most that many times, and what
  -- comes out, a value or an error, is what the operation itself returned or raised in some state.
  pub with_retry-IsReal :
      (sleep : ℕ → S → S) (operation : Exec S A) (attempts : ℕ) (s : S)
      → 0 < attempts
      → IsReal operation (with_retry sleep operation attempts s).0
        × ((with_retry (beside sleep) (counted operation) attempts (0, s)).1.0 ≤ attempts)
  unfolding with_retry
  with_retry-IsReal sleep operation zero s h = absurd (omega arith)
  with_retry-IsReal sleep operation (suc left) s h = (
    retry_from-IsReal sleep operation left 1 s,
    omega (arith, retry_from-CountsTo sleep operation left 1 0 s),
  )

  -- An error that is not transient ends the retrying at once: it comes out unchanged, in the state
  -- that the first run left, with no sleep.
  with_retry_final :
      (sleep : ℕ → S → S) (operation : Exec S A) (attempts : ℕ) (s : S) (x : Exc)
      → 0 < attempts
      → is_transient x ≡ false
      → (operation s).0 ≡ raise x
      → with_retry sleep operation attempts s ≡ (raise x, (operation s).1)
  unfolding with_retry retry_from on_failure
  with_retry_final sleep operation zero s x h final e = absurd (omega arith)
  with_retry_final sleep operation (suc zero) s x h final e = rw e
  with_retry_final sleep operation (suc (suc left)) s x h final e = rw (e, final)
