-- ===== src/Core/Exec/Returns.antt =====
-- Coroutines that never raise, with what they return, one rule for each way to build one.
use agentic_rag.Prelude.{◌≡◌, refl, ap, ◌∙◌, Bool, true, false, if◌then◌else◌}
use agentic_rag.Core.Errors.{Exc, Result, ok, raise}
use agentic_rag.Core.Exec.{Exec, pure, continue, handled, attempt, ◌>>=◌}
use agentic_rag.Core.Exec.Ensures.{Ensures}

-- from every state a value comes back, and it satisfies `P`
pub record Returns {S A : Type 0} (P : A → Type 0) (m : Exec S A) : Type 0 where
  pub at : (s : S) → (a : A) × ((m s).0 ≡ ok a) × P a

module _ {S A : Type 0} {P : A → Type 0} where
  pub Returns-pure : (a : A) → P a → Returns {S = S} P (pure a)
  Returns-pure a p = record { at = λ s. (a, refl, p) }

  pub Returns-if :
      (b : Bool) (m n : Exec S A)
      → (b ≡ true → Returns P m)
      → (b ≡ false → Returns P n)
      → Returns P (if b then m else n)
  Returns-if true m n hm hn = hm refl
  Returns-if false m n hm hn = hn refl

  handled-Returns :
      (handler : Exc → Exec S A) (r : Result A) (s : S)
      → ((a : A) → r ≡ ok a → P a)
      → ((x : Exc) → Returns P (handler x))
      → (a : A) × ((handled handler r s).0 ≡ ok a) × P a
  handled-Returns handler (ok a) s h hx = (a, refl, h a refl)
  handled-Returns handler (raise x) s h hx = (hx x).at s

  -- a block with a handler for every exception returns
  pub Returns-attempt :
      (m : Exec S A) (handler : Exc → Exec S A)
      → Ensures P m
      → ((x : Exc) → Returns P (handler x))
      → Returns P (attempt m handler)
  Returns-attempt m handler hm hx = record {
    at = λ s. handled-Returns handler (m s).0 (m s).1 (hm.at s) hx;
  }

module _ {S A B : Type 0} {Q : B → Type 0} where
  continue-Returns :
      (r : Result A) (f : A → Exec S B) (s : S) (P : A → Type 0)
      → ((a : A) × (r ≡ ok a) × P a)
      → ((a : A) → P a → Returns Q (f a))
      → (b : B) × ((continue r f s).0 ≡ ok b) × Q b
  continue-Returns (ok c) f s P (a, e, p) h =
      let (b, q, good) = (h a p).at s in (b, same (cc e) ∙ q, good)
    where
      same : c ≡ a → (f c s).0 ≡ (f a s).0
      same w = ap (λ (z : A). (f z s).0) w
  continue-Returns (raise x) f s P (a, e, p) h = absurd (cc e)

  pub Returns-bind :
      (P : A → Type 0) (m : Exec S A) (f : A → Exec S B)
      → Returns P m
      → ((a : A) → P a → Returns Q (f a))
      → Returns Q (m >>= f)
  Returns-bind P m f hm hf = record { at = λ s. continue-Returns (m s).0 f (m s).1 P (hm.at s) hf }

module _ {S A : Type 0} {P : A → Type 0} where
  pub Returns-weaken :
      {Q : A → Type 0} (m : Exec S A) → Returns Q m → ((a : A) → Q a → P a) → Returns P m
  Returns-weaken m h f = record { at = λ s. let (a, e, q) = h.at s in (a, e, f a q) }

  -- a coroutine that returns, returns what it ensures
  pub Returns-Ensures : {Q : A → Type 0} (m : Exec S A) → Returns Q m → Ensures P m → Returns P m
  Returns-Ensures m h hm = record { at = λ s. let (a, e, q) = h.at s in (a, e, hm.at s a e) }
