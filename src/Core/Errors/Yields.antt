-- ===== src/Core/Errors/Yields.antt =====
-- What a call that may raise returns: one rule for each way to build it.
use agentic_rag.Prelude.{◌≡◌, refl, subst, Bool, true, false, if◌then◌else◌}
use agentic_rag.Core.Errors.{Exc, Result, ok, raise, ◌>>=◌}

-- a value that is returned satisfies `P`
pub record Yields {A : Type 0} (P : A → Type 0) (r : Result A) : Type 0 where
  pub at : (a : A) → r ≡ ok a → P a

module _ {A : Type 0} {P : A → Type 0} where
  pub Yields-ok : (a : A) → P a → Yields P (ok a)
  Yields-ok a p = record { at = λ b e. subst P (cc e) p }

  pub Yields-bind :
      {B : Type 0} (r : Result B) (f : B → Result A)
      → ((b : B) → r ≡ ok b → Yields P (f b))
      → Yields P (r >>= f)
  Yields-bind (ok b) f h = h b refl
  Yields-bind (raise x) f h = record { at = λ a e. absurd (cc e) }

  pub Yields-raise : (x : Exc) → Yields P (raise x)
  Yields-raise x = record { at = λ a e. absurd (cc e) }

  pub Yields-if :
      (b : Bool) (r s : Result A)
      → (b ≡ true → Yields P r)
      → (b ≡ false → Yields P s)
      → Yields P (if b then r else s)
  Yields-if true r s h k = h refl
  Yields-if false r s h k = k refl

  pub Yields-weaken :
      {Q : A → Type 0} (r : Result A) → Yields Q r → ((a : A) → Q a → P a) → Yields P r
  Yields-weaken r h f = record { at = λ a e. f a (h.at a e) }

  pub Yields-both :
      {Q : A → Type 0} (r : Result A) → Yields P r → Yields Q r → Yields (λ (a : A). P a × Q a) r
  Yields-both r h k = record { at = λ a e. (h.at a e, k.at a e) }
