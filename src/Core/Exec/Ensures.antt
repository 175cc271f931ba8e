-- ===== src/Core/Exec/Ensures.antt =====
-- What a coroutine guarantees of the value that it returns, one rule for each way to build it.
use agentic_rag.Prelude.{subst, ◌≡◌, Bool, true, false, refl, if◌then◌else◌}
use agentic_rag.Core.Errors.{Exc, Result, ok, raise}
use agentic_rag.Core.Exec.{Exec, pure, fail, continue, handled, attempt, ◌>>=◌}

-- whatever the state, a value that is returned satisfies `P`
pub record Ensures {S A : Type 0} (P : A → Type 0) (m : Exec S A) : Type 0 where
  pub at : (s : S) (a : A) → (m s).0 ≡ ok a → P a

module _ {S A : Type 0} {P : A → Type 0} where
  pub Ensures-pure : (a : A) → P a → Ensures {S = S} P (pure a)
  Ensures-pure a p = record { at = λ s b e. subst P (ok-injective e) p }
    where
      ok-injective : {b : A} → ok a ≡ ok b → a ≡ b
      ok-injective e = cc

module _ {S A B : Type 0} {Q : B → Type 0} where
  continue-Ensures :
      (r : Result A) (f : A → Exec S B)
      → ((a : A) → r ≡ ok a → Ensures Q (f a))
      → Ensures Q (continue r f)
  continue-Ensures (ok a) f h = h a refl
  continue-Ensures (raise x) f h = record { at = λ s b e. absurd (cc e) }

  -- the rest of a block may use what its first step ensures
  pub Ensures-bind :
      (P : A → Type 0) (m : Exec S A) (f : A → Exec S B)
      → Ensures P m
      → ((a : A) → P a → Ensures Q (f a))
      → Ensures Q (m >>= f)
  Ensures-bind P m f hm hf = record {
    at = λ s b e. (continue-Ensures (m s).0 f (λ a p. hf a (hm.at s a p))).at (m s).1 b e;
  }

module _ {S A : Type 0} {P : A → Type 0} where
  handled-Ensures :
      (handler : Exc → Exec S A) (r : Result A)
      → ((a : A) → r ≡ ok a → P a)
      → ((x : Exc) → Ensures P (handler x))
      → Ensures P (handled handler r)
  handled-Ensures handler (ok a) h hx = Ensures-pure a (h a refl)
  handled-Ensures handler (raise x) h hx = record { at = (hx x).at }

  -- a handled block ensures what the block and each handler ensure
  pub Ensures-attempt :
      (m : Exec S A) (handler : Exc → Exec S A)
      → Ensures P m
      → ((x : Exc) → Ensures P (handler x))
      → Ensures P (attempt m handler)
  Ensures-attempt m handler hm hx = record {
    at = λ s a e. (handled-Ensures handler (m s).0 (hm.at s) hx).at (m s).1 a e;
  }

pub Ensures-any : {S A : Type 0} (m : Exec S A) → Ensures (λ (a : A). Unit {0}) m
Ensures-any m = record { at = λ s a e. tt }

pub Ensures-fail : {S A : Type 0} {P : A → Type 0} (x : Exc) → Ensures {S = S} P (fail x)
Ensures-fail x = record { at = λ s a e. absurd (cc e) }

module _ {S A : Type 0} {P : A → Type 0} where
  pub Ensures-if :
      (b : Bool) (m n : Exec S A)
      → (b ≡ true → Ensures P m)
      → (b ≡ false → Ensures P n)
      → Ensures P (if b then m else n)
  Ensures-if true m n hm hn = hm refl
  Ensures-if false m n hm hn = hn refl

  -- what is ensured of the values that a coroutine really returns
  pub Ensures-weaken :
      {Q : A → Type 0} (m : Exec S A) → Ensures Q m → ((a : A) → Q a → P a) → Ensures P m
  Ensures-weaken m h f = record { at = λ s a e. f a (h.at s a e) }

module _ {S A B : Type 0} {Q : B → Type 0} where
  -- a call to a service, whatever it returns
  pub Ensures-after :
      (m : Exec S A) (f : A → Exec S B) → ((a : A) → Ensures Q (f a)) → Ensures Q (m >>= f)
  Ensures-after m f hf = Ensures-bind (λ a. Unit) m f (Ensures-any m) (λ a p. hf a)

module _ {S A : Type 0} {P Q : A → Type 0} where
  pub Ensures-both : (m : Exec S A) → Ensures P m → Ensures Q m → Ensures (λ (a : A). P a × Q a) m
  Ensures-both m h k = record { at = λ s a e. (h.at s a e, k.at s a e) }
