-- ===== src/Cache/Gateway.antt =====
-- app/cache/gateway.py: `CacheGateway`. The floats, the embedding service, the backend, the text
-- tables and the JSON codec of the entries are parameters; a coroutine may raise where they may.
pub mod Lookup
pub mod Store
pub mod Ranking
pub mod Safety
pub mod Usable
pub mod Metering
pub mod Admission
use mathlib.Core.Option
use text.Mathlib.Text.{◌==◌}
use agentic_rag.Prelude.{
  ℕ, zero, suc, ◌+◌, String, Option, none, some, List, [], ◌∷◌, Bool, true, false, not, ◌&&◌,
  length, is_empty, any, if◌then◌else◌, ◌==◌ as nat_eq,
}
use agentic_rag.Prelude.Text.{is_blank, strip}
use agentic_rag.Prelude.Floats.{Floats}
use agentic_rag.Prelude.Sort.{sort_desc}
use agentic_rag.Core.Errors.{Exc, Result, ok, raise}
use agentic_rag.Core.Errors
use agentic_rag.Core.Exec.{Exec, pure, total, inside, attempt, ◌>>=◌, ◌>>◌}
use agentic_rag.Cache.Metrics.{
  CacheMetrics, CacheType, exact, semantic, record_hit, record_miss, record_write,
  record_backend_error,
}
use agentic_rag.Cache.Keys.{Texts, CacheVersions, normalize_query, answer_key, index_namespace}
use agentic_rag.Cache.Base.{
  Backend, ToolEntry, CachedAnswer, CacheHit, age_seconds, is_live, matches,
}
use agentic_rag.Cache.Versions.{Shared, on_backend, resolve}
use agentic_rag.Retrieval.Similarity.{cosine_similarity}

-- the parts of `CacheSettings` and `AgentSettings` that the gateway reads, with the model and
-- prompt versions that its resolver was built with
pub record GatewaySettings (Float : Type 0) : Type 0 where
  pub enabled : Bool
  pub ttl_seconds : ℕ
  pub semantic_enabled : Bool
  pub similarity_threshold : Float
  pub namespace : String
  pub model : String
  pub prompts : String
  pub min_confidence : Float

-- the `critique` dictionary of a run's metadata; a field is `none` where the key is missing
pub record CritiqueEntry (Float : Type 0) : Type 0 where
  pub sufficient_context : Option Bool
  pub grounded : Option Bool
  pub confidence : Option Float

-- a run's metadata; `critique` is `none` where it is missing or no dictionary
pub record Metadata (Float Citation : Type 0) : Type 0 where
  pub critique : Option (CritiqueEntry Float)
  pub citations : List Citation
  pub tools : List ToolEntry
  pub trace : List String
  pub revisions : ℕ

-- `model_dump_json` and `model_validate_json`; `none` is a `ValidationError`
pub record Codec (Float Citation : Type 0) : Type 0 where
  pub encode : CachedAnswer Float Citation → String
  pub decode : String → Option (CachedAnswer Float Citation)

pub data Refusal : Type 0 where
  empty_answer no_critique insufficient_context not_grounded low_confidence failed_tool_call :
      Refusal

abbrev pub is_true : Option Bool → Bool
is_true none = false
is_true (some b) = b

-- a tool call that reports `ok` as false
abbrev pub tool_failed : ToolEntry → Bool
tool_failed t = not (Option.get_or t.ok true)

module _ (F : Floats) where
  open F use {Float, nil, unit, leb}

  refuse_critique : Float → CritiqueEntry Float → List ToolEntry → Option Refusal
  refuse_critique min_confidence c tools =
      if not (is_true c.sufficient_context)
      then some insufficient_context
      else if not (is_true c.grounded)
      then some not_grounded
      else if not (leb min_confidence (Option.get_or c.confidence nil))
      then some low_confidence
      else if any tool_failed tools
      then some failed_tool_call
      else none

  module _ {Citation : Type 0} where
    -- `_refuse`
    unfoldable pub refuse : Float → String → Metadata Float Citation → Option Refusal
    unfolding refuse_critique strip
    refuse min_confidence answer m =
        if is_blank (strip answer) then some empty_answer else elim m.critique [
          | none ↦ some no_critique
          | some c ↦ refuse_critique min_confidence c m.tools
        ]

  -- the loop of `_ranked_candidates`
  unfoldable pub score :
      Float → List Float → List (String × List Float) → Result (List (String × Float))
  score threshold embedding [] = ok []
  score threshold embedding ((key, vector) ∷ indexed) =
      let rest = score threshold embedding indexed in
      if nat_eq (length vector) (length embedding)
      then Errors.◌>>=◌ (cosine_similarity F embedding vector) (λ similarity.
        Errors.◌>>=◌ rest
          (λ scored. ok (if leb threshold similarity then (key, similarity) ∷ scored else scored)))
      else rest

  abbrev pub similarity_of : String × Float → Float
  similarity_of candidate = candidate.1

  unfoldable pub ranked_candidates :
      Float → List Float → List (String × List Float) → Result (List (String × Float))
  unfolding score sort_desc
  ranked_candidates threshold embedding indexed =
      Errors.◌>>=◌ (score threshold embedding indexed)
        (λ scored. ok (sort_desc F similarity_of scored))

-- what a gateway is built with; `embed_text` is `none` where there is no embedding service
pub record Wiring : Type 1 where
  pub floats : Floats
  pub Citation : Type 0
  pub texts : Texts
  pub codec : Codec floats.Float Citation
  pub backend : Backend (List floats.Float)
  pub embed_text : Option (String → Exec backend.State (List floats.Float))
  pub settings : GatewaySettings floats.Float

abbrev pub Answer : Wiring → Type 0
Answer w = CachedAnswer w.floats.Float w.Citation

abbrev pub Hit : Wiring → Type 0
Hit w = CacheHit w.floats.Float w.Citation

-- the gateway's state: the backend with the last known version, and the counters
pub record Gateway (w : Wiring) : Type 0 where
  pub shared : Shared w.backend
  pub metrics : CacheMetrics

module _ (w : Wiring) where
  abbrev pub on_shared : {A : Type 0} → Exec (Shared w.backend) A → Exec (Gateway w) A
  on_shared m = inside (λ g. g.shared) (λ g s. record g { shared = s }) m

  abbrev pub count : (CacheMetrics → CacheMetrics) → Gateway w → Gateway w
  count f g = record g { metrics = f g.metrics }

  -- `self._clock()`
  abbrev pub clock : Exec (Shared w.backend) ℕ
  clock = on_backend w.backend (total w.backend.clock)

  -- `await self._versions.resolve()`
  unfoldable pub versions : Exec (Shared w.backend) CacheVersions
  unfolding resolve
  versions = resolve w.backend w.settings.namespace w.settings.model w.settings.prompts
