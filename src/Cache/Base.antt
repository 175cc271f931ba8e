-- ===== src/Cache/Base.antt =====
-- app/cache/base.py: the backend contract and the stored records.
use text.Mathlib.Text.{◌==◌}
use agentic_rag.Prelude.{ℕ, ◌-◌, String, Bool, Option, List, ◌&&◌, ltb}
use agentic_rag.Core.Exec.{Exec}
use agentic_rag.Cache.Keys.{CacheVersions}
use agentic_rag.Cache.Metrics.{CacheType}

-- `CacheBackend`, with the state that its operations change and the clock that the process reads.
-- Any operation may raise.
pub record Backend (Vec : Type 0) : Type 1 where
  pub State : Type 0
  pub clock : State → ℕ × State
  pub get : String → Exec State (Option String)
  pub set : String → String → ℕ → Exec State (Unit {0})
  pub delete : String → Exec State (Unit {0})
  pub index_add : String → String → Vec → ℕ → Exec State (Unit {0})
  pub index_entries : String → Exec State (List (String × Vec))
  pub index_remove : String → String → Exec State (Unit {0})
  pub clear : Exec State (Unit {0})
  pub healthy : Exec State Bool

-- a tool's outcome in a run's metadata; a missing `ok` counts as true
pub record ToolEntry : Type 0 where
  pub tool : String
  pub input : String
  pub ok : Option Bool
  pub error : String

-- `CachedAnswer`. Citation is the type of the citations, which the cache only stores.
pub record CachedAnswer (Float Citation : Type 0) : Type 0 where
  pub query : String
  pub normalized_query : String
  pub answer : String
  pub embedding : List Float
  pub citations : List Citation
  pub tools : List ToolEntry
  pub trace : List String
  pub revisions : ℕ
  pub grounded : Bool
  pub sufficient_context : Bool
  pub confidence : Float
  pub knowledge_base_version : String
  pub model_version : String
  pub prompt_version : String
  pub created_at : ℕ
  pub expires_at : ℕ

module _ {Float Citation : Type 0} where
  -- `max(0.0, now - created_at)`
  unfoldable pub age_seconds : CachedAnswer Float Citation → ℕ → ℕ
  age_seconds e now = now - e.created_at

  unfoldable pub is_live : CachedAnswer Float Citation → ℕ → Bool
  is_live e now = ltb now e.expires_at

  unfoldable pub matches : CachedAnswer Float Citation → CacheVersions → Bool
  matches e v =
      e.knowledge_base_version == v.knowledge_base_version
      && e.model_version == v.model_version
      && e.prompt_version == v.prompt_version

pub record CacheHit (Float Citation : Type 0) : Type 0 where
  pub entry : CachedAnswer Float Citation
  pub cache_type : CacheType
  pub cache_key : String
  pub age : ℕ
  pub similarity : Float
