-- ===== src/Services/Chat/Dependable.antt =====
-- The chat service of app/services/llm.py is what the nodes of app/agents rely on.
use agentic_rag.Prelude.{
  ◌≡◌, ◌⊎◌, inl, inr, refl, String, Bool, true, false, ◌||◌, Option, none, some, List,
  if◌then◌else◌,
}
use agentic_rag.Core.Errors.{Exc, Result, ok, raise, dependency_error}
use agentic_rag.Core.Exec.{Exec, fail, continue, handled}
use agentic_rag.Agents.Services.Dependable.{IsDependable, Anything}
use agentic_rag.Services.Chat.{
  ChatClient, ChatService, ChatMessage, Envelope, messages, text_of, unwrap, checked, complete,
  structured,
}

-- whatever a call raises is of a named class
pub record RaisesOnly {W A : Type 0} (named : Exc → Bool) (m : Exec W A) : Type 0 where
  pub named_one : (w : W) (x : Exc) → (m w).0 ≡ raise x → named x ≡ true

-- a value, or a dependency error
abbrev IsExpected : {A : Type 0} → Result A → Type 0
IsExpected {A} r = ((a : A) × (r ≡ ok a) × Unit {0}) ⊎ (r ≡ raise dependency_error)

-- the rest of a call after the handler of the named classes
handled-IsExpected :
    {W A B : Type 0} (named : Exc → Bool) (r : Result A) (w : W) (f : A → Exec W B)
    → ((x : Exc) → r ≡ raise x → named x ≡ true)
    → ((a : A) → IsExpected (f a w).0)
    → let out = handled (λ x. if named x then fail dependency_error else fail x) r w in
      IsExpected (continue out.0 f out.1).0
handled-IsExpected named (ok a) w f h good = good a
handled-IsExpected named (raise x) w f h good = rw (h x refl) (inr refl)

checked-IsExpected :
    {W A : Type 0} (parsed : Option A × Bool) (w : W) → IsExpected (checked {W = W} parsed w).0
checked-IsExpected (none, failed) w = inr refl
checked-IsExpected (some a, true) w = inr refl
checked-IsExpected (some a, false) w = inl (a, refl, tt)

module _ {World A : Type 0} (service : ChatService World)
    (runnable : ChatClient World → List ChatMessage → Exec World (Envelope A)) where
  -- A started service, whose client raises only errors of the classes that it handles, gives a value
  -- or raises a dependency error, both for a free reply and for a structured one, whatever shape the
  -- reply has.
  pub structured-IsDependable :
      (c : ChatClient World) (system user : String)
      → service.client ≡ some c
      → RaisesOnly service.is_provider_error (c.ainvoke (messages system user))
      → RaisesOnly
          (λ x. service.is_provider_error x || service.is_schema_error x)
          (runnable c (messages system user))
      → IsDependable Anything (complete service system user)
        × IsDependable Anything (structured service runnable system user)
  unfolding complete structured
  structured-IsDependable c system user started free shaped = (
    record {
      outcome = λ w.
          rw (started, complete)
            (let (r, v) = c.ainvoke (messages system user) w in
              handled-IsExpected service.is_provider_error r v _ (λ x e. free.named_one w x e)
                (λ m. inl (text_of m, refl, tt)));
    },
    record {
      outcome = λ w.
          rw (started, structured)
            (let (r, v) = runnable c (messages system user) w in
              handled-IsExpected _ r v _ (λ x e. shaped.named_one w x e)
                (λ e. checked-IsExpected (unwrap e) v));
    },
  )
