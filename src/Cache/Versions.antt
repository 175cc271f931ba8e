-- ===== src/Cache/Versions.antt =====
-- app/cache/versions.py: the knowledge base version kept in the backend, and the version triple.
pub mod Bump
use agentic_rag.Prelude.{ℕ, zero, suc, String, Option, none, some, Bool, ◌≡◌}
use agentic_rag.Core.Errors.{Result, ok}
use agentic_rag.Core.Exec.{Exec, pure, inside, modify, ◌>>=◌, ◌>>◌}
use agentic_rag.Cache.Base.{Backend}
use agentic_rag.Cache.Keys.{CacheVersions, knowledge_base_key}

pub data ℤ : Type 0 where
  pos : ℕ → ℤ
  negsuc : ℕ → ℤ

abbrev pub add_one : ℤ → ℤ
add_one (pos n) = pos (suc n)
add_one (negsuc zero) = pos 0
add_one (negsuc (suc n)) = negsuc n

-- `int(text)`, with `none` for `ValueError`, and `str(n)`: a number is read back as it was written
pub record Numerals : Type 0 where
  pub int_of_text : String → Option ℤ
  pub text_of_int : ℤ → String
  pub read_back : (n : ℤ) → int_of_text (text_of_int n) ≡ some n

-- `_as_int`
unfoldable pub as_int : Numerals → String → ℤ
as_int n value = elim (n.int_of_text value) [ none ↦ pos 0 | some i ↦ i ]

abbrev pub initial_knowledge_base_version : String
initial_knowledge_base_version = "0"

module _ {Vec : Type 0} (B : Backend Vec) where
  -- `KnowledgeBaseVersion`: the backend that it shares, and `_last_known`
  pub record Shared : Type 0 where
    pub backend : B.State
    pub last_known : String

  abbrev pub on_backend : {A : Type 0} → Exec B.State A → Exec Shared A
  on_backend m = inside (λ s. s.backend) (λ s b. record s { backend = b }) m

  abbrev pub remember : Option String → Exec Shared String
  remember none s = (ok s.last_known, s)
  remember (some stored) s = (ok stored, record s { last_known = stored })

  unfoldable pub current : String → Exec Shared String
  current key = do stored ← on_backend (B.get key); remember stored

  unfoldable pub bump : Numerals → String → Exec Shared String
  unfolding current as_int
  bump n key = do
    version ← current key
    let next = n.text_of_int (add_one (as_int n version))
    on_backend (B.set key next 0)
    modify (λ (s : Shared). record s { last_known = next })
    pure next

  -- `VersionResolver.resolve`: the live version beside the two that are fixed at wiring time
  unfoldable pub resolve : String → String → String → Exec Shared CacheVersions
  unfolding current knowledge_base_key
  resolve namespace model prompts = do
    version ← current (knowledge_base_key namespace)
    pure (record {
      knowledge_base_version = version;
      model_version = model;
      prompt_version = prompts;
    })
