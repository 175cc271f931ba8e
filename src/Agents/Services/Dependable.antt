-- ===== src/Agents/Services/Dependable.antt =====
-- Calls that fail with `DependencyError` only, and the nodes' handler round them: app/agents/nodes.
use agentic_rag.Prelude.{◌≡◌, ◌⊎◌, inl, inr, ap, ◌∙◌}
use agentic_rag.Core.Errors.{Exc, Result, ok, raise, dependency_error}
use agentic_rag.Core.Exec.{Exec, continue, handled, ◌>>=◌}
use agentic_rag.Core.Exec.Returns.{Returns}
use agentic_rag.Agents.Services.{on_dependency, rescue}

-- a call to a service either returns a value with `P` or raises `DependencyError`
pub record IsDependable {S A : Type 0} (P : A → Type 0) (m : Exec S A) : Type 0 where
  pub outcome : (s : S) → ((a : A) × ((m s).0 ≡ ok a) × P a) ⊎ ((m s).0 ≡ raise dependency_error)

abbrev pub Anything : {A : Type 0} → A → Type 0
Anything a = Unit

passed :
    {S B : Type 0} (handler : Exc → Exec S B) (b : B) (o : Result B) (t : S)
    → o ≡ ok b
    → (handled handler o t).0 ≡ ok b
passed handler b (ok d) t w = w
passed handler b (raise x) t w = absurd (cc w)

module _ {S A B : Type 0} {Q : B → Type 0} where
  -- the block after a dependable call, with the handler of `DependencyError` round it
  rescued :
      (P : A → Type 0) (r : Result A) (s : S) (f : A → Exec S B) (fallback : Exec S B)
      → (((a : A) × (r ≡ ok a) × P a) ⊎ (r ≡ raise dependency_error))
      → ((a : A) → P a → Returns Q (f a))
      → Returns Q fallback
      → (b : B) × ((handled (on_dependency fallback) (continue r f s).0 (continue r f s).1).0
          ≡ ok b)
        × Q b
  rescued P (ok c) s f fallback (inl (a, e, p)) hf hb =
      let (b, q, good) = (hf a p).at s in
      let same : c ≡ a = cc e in
      let out : (f c s).0 ≡ ok b = ap (λ (z : A). (f z s).0) same ∙ q in
      (b, passed (on_dependency fallback) b (f c s).0 (f c s).1 out, good)
  rescued P (ok c) s f fallback (inr e) hf hb = absurd (cc e)
  rescued P (raise x) s f fallback (inl (a, e, p)) hf hb = absurd (cc e)
  rescued P (raise x) s f fallback (inr e) hf hb =
      let (b, q, good) = hb.at s in
      let same : x ≡ dependency_error = cc e in
      (b, ap (λ (y : Exc). (on_dependency fallback y s).0) same ∙ q, good)

  pub Returns-rescue :
      (P : A → Type 0) (m : Exec S A) (f : A → Exec S B) (fallback : Exec S B)
      → IsDependable P m
      → ((a : A) → P a → Returns Q (f a))
      → Returns Q fallback
      → Returns Q (rescue (m >>= f) fallback)
  Returns-rescue P m f fallback hm hf hb = record {
    at = λ s. rescued P (m s).0 (m s).1 f fallback (hm.outcome s) hf hb;
  }

module _ {S A : Type 0} {P : A → Type 0} where
  rescued_value :
      (r : Result A) (s : S) (fallback : Exec S A)
      → (((a : A) × (r ≡ ok a) × P a) ⊎ (r ≡ raise dependency_error))
      → Returns P fallback
      → (a : A) × ((handled (on_dependency fallback) r s).0 ≡ ok a) × P a
  rescued_value r s fallback (inl (a, e, p)) hb = (a, passed (on_dependency fallback) a r s e, p)
  rescued_value (ok c) s fallback (inr e) hb = absurd (cc e)
  rescued_value (raise x) s fallback (inr e) hb =
      let (b, q, good) = hb.at s in
      let same : x ≡ dependency_error = cc e in
      (b, ap (λ (y : Exc). (on_dependency fallback y s).0) same ∙ q, good)

  pub Returns-rescue_value :
      (m fallback : Exec S A)
      → IsDependable P m
      → Returns P fallback
      → Returns P (rescue m fallback)
  Returns-rescue_value m fallback hm hb = record {
    at = λ s. rescued_value (m s).0 (m s).1 fallback (hm.outcome s) hb;
  }
