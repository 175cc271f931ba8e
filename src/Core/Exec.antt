-- ===== src/Core/Exec.antt =====
-- Coroutines that change state and may raise. What was written before a raise stays written, so
-- the state comes back beside the error too. A point of suspension is not modelled here: each
-- operation of a component runs as one step.
pub mod Ensures
pub mod Returns
use agentic_rag.Prelude.{Option, none, some}
use agentic_rag.Core.Errors.{Exc, Result, ok, raise}

abbrev pub Exec : Type 0 → Type 0 → Type 0
Exec S A = S → Result A × S

module _ {S A : Type 0} where
  abbrev pub pure : A → Exec S A
  pure a s = (ok a, s)

  abbrev pub fail : Exc → Exec S A
  fail x s = (raise x, s)

  -- a total step: it returns and never raises
  abbrev pub total : (S → A × S) → Exec S A
  total f s = let (a, s') = f s in (ok a, s')

abbrev pub modify : {S : Type 0} → (S → S) → Exec S (Unit {0})
modify f s = (ok tt, f s)

module _ {S A B : Type 0} where
  abbrev pub continue : Result A → (A → Exec S B) → Exec S B
  continue (ok a) f s = f a s
  continue (raise x) f s = (raise x, s)

  infixl 5 ◌>>=◌ ◌>>◌
  abbrev pub ◌>>=◌ : Exec S A → (A → Exec S B) → Exec S B
  ◌>>=◌ m f s = let (r, s') = m s in continue r f s'

  abbrev pub ◌>>◌ : Exec S A → Exec S B → Exec S B
  m >> n = m >>= λ _. n

module _ {S A : Type 0} where
  abbrev pub handled : (Exc → Exec S A) → Result A → Exec S A
  handled handler (ok a) s = (ok a, s)
  handled handler (raise x) s = handler x s

  -- `try: m except Exception as x: handler x`
  abbrev pub attempt : Exec S A → (Exc → Exec S A) → Exec S A
  attempt m handler s = let (r, s') = m s in handled handler r s'

module _ {S T A : Type 0} where
  -- an operation of a part, run on the whole
  abbrev pub inside : (T → S) → (T → S → T) → Exec S A → Exec T A
  inside part put m t = let (r, s) = m (part t) in (r, put t s)

-- a computation without effects
abbrev pub lifted : {S A : Type 0} → Result A → Exec S A
lifted (ok a) = pure a
lifted (raise x) = fail x
