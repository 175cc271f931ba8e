-- ===== src/Retrieval/Chroma/Rejections.antt =====
-- A rejection by the collection, as `_invoke` of app/retrieval/chroma.py treats it.
use agentic_rag.Prelude.{ℕ, zero, suc, ◌+◌, ◌<◌, ◌≡◌, refl, ap, some, arith}
use agentic_rag.Prelude.Floats.{Floats}
use agentic_rag.Core.Errors.{Exc, raise, dependency_error}
use agentic_rag.Core.Exec.{Exec, handled, attempt, fail}
use agentic_rag.Core.Retry.{is_transient, on_failure, retry_from, with_retry}
use agentic_rag.Retrieval.Chroma.{Collection, Store, wrapped, invoke}

-- a step that raises, whatever the state, and is counted
pub record Raises {S A : Type 0} (calls : S → ℕ) (x : Exc) (m : Exec S A) : Type 0 where
  pub raised : (s : S) → (m s).0 ≡ raise x
  pub counted : (s : S) → calls (m s).1 ≡ suc (calls s)

attempt-raise :
    {S A : Type 0} (m : Exec S A) (handler : Exc → Exec S A) (s : S) (x : Exc)
    → (m s).0 ≡ raise x
    → attempt m handler s ≡ handler x (m s).1
attempt-raise m handler s x e = ap (λ r. handled handler r (m s).1) e

module _ {S A : Type 0} (calls : S → ℕ) (sleep : ℕ → S → S)
    (asleep : (n : ℕ) (s : S) → calls (sleep n s) ≡ calls s) where
  wrapped-Raises :
      (F : Floats) (store : Store F S) (x : Exc) (m : Exec S A)
      → Raises calls x m
      → Raises calls dependency_error (wrapped F store m)
  unfolding wrapped
  wrapped-Raises F store x m h = record {
    raised = λ s. rw (attempt-raise m (λ y. fail dependency_error) s x (h.raised s)) refl;
    counted = λ s. rw (attempt-raise m (λ y. fail dependency_error) s x (h.raised s)) (h.counted s);
  }

  retry_from-Raises :
      (m : Exec S A) (left number : ℕ) (s : S)
      → Raises calls dependency_error m
      → ((retry_from sleep m left number s).0 ≡ raise dependency_error)
        × (calls (retry_from sleep m left number s).1 ≡ suc left + calls s)
  unfolding retry_from on_failure is_transient
  retry_from-Raises m zero number s h =
      rw (attempt-raise m fail s dependency_error (h.raised s)) (refl, omega (arith, h.counted s))
  retry_from-Raises m (suc left) number s h =
      let next = retry_from sleep m left (suc number) in
      let (raised, counted) = retry_from-Raises m left (suc number) (sleep number (m s).1) h in
      rw (attempt-raise m (on_failure sleep next number) s dependency_error (h.raised s))
        (raised, omega (arith, counted, asleep number (m s).1, h.counted s))

module _ (F : Floats) {World A : Type 0} (store : Store F World) (calls : World → ℕ)
    (asleep : (n : ℕ) (w : World) → calls (store.sleep n w) ≡ calls w) where
  attempts-Raises :
      (m : Exec World A) (n : ℕ) (w : World)
      → 0 < n
      → Raises calls dependency_error m
      → ((with_retry store.sleep m n w).0 ≡ raise dependency_error)
        × (calls (with_retry store.sleep m n w).1 ≡ n + calls w)
  unfolding with_retry
  attempts-Raises m zero w h r = elim h [ ]
  attempts-Raises m (suc left) w h r = retry_from-Raises calls store.sleep asleep m left 1 w r

  -- A method that the collection always refuses, with any exception at all, is called as often as
  -- the retries allow before the caller sees `DependencyError`: a rejection is retried like a dropped
  -- connection.
  pub invoke-retries :
      (c : Collection F World) (method : Collection F World → Exec World A) (x : Exc) (w : World)
      → store.collection ≡ some c
      → 0 < store.max_attempts
      → Raises calls x (method c)
      → ((invoke F store method w).0 ≡ raise dependency_error)
        × (calls (invoke F store method w).1 ≡ store.max_attempts + calls w)
  unfolding invoke
  invoke-retries c method x w started allowed rejects =
      rw (started, invoke)
        (attempts-Raises (wrapped F store (method c)) store.max_attempts w allowed
          (wrapped-Raises calls store.sleep asleep F store x (method c) rejects))
