-- ===== src/Cache/Gateway/Store.antt =====
-- app/cache/gateway.py: `store` and its helpers `_embedding_for` and `_entry`.
use mathlib.Core.Option
use agentic_rag.Prelude.{
  ℕ, ◌+◌, String, none, some, List, [], Bool, true, false, is_empty, if◌then◌else◌,
}
use agentic_rag.Prelude.Text.{is_blank}
use agentic_rag.Core.Errors.{Result, ok, raise}
use agentic_rag.Core.Exec.{Exec, pure, ◌>>=◌, ◌>>◌}
use agentic_rag.Cache.Metrics.{record_write, record_backend_error}
use agentic_rag.Cache.Keys.{CacheVersions, normalize_query, answer_key, index_namespace}
use agentic_rag.Cache.Versions.{Shared, on_backend}
use agentic_rag.Cache.Gateway.{
  Wiring, Answer, Gateway, Metadata, is_true, refuse, on_shared, count, clock, versions,
}

module _ (w : Wiring) where
  open w use {floats, backend, settings, Citation}

  -- `_embedding_for`
  unfoldable pub embedding_for : String → Exec (Shared backend) (List floats.Float)
  embedding_for normalized = elim w.embed_text [
    | none ↦ pure []
    | some embed ↦
        if settings.semantic_enabled then on_backend backend (embed normalized) else pure []
  ]

  -- the fields of the critique, each read as false or zero where it is missing
  abbrev pub verdict : Metadata floats.Float Citation → Bool × Bool × floats.Float
  verdict m = elim m.critique [
    | none ↦ (false, false, floats.nil)
    | some c ↦
        (is_true c.grounded, is_true c.sufficient_context, Option.get_or c.confidence floats.nil)
  ]

  -- `_entry`, at the clock's reading `now`
  unfoldable pub entry_of :
      String
      → String
      → String
      → Metadata floats.Float Citation
      → CacheVersions
      → List floats.Float
      → ℕ
      → Answer w
  entry_of normalized query answer m v embedding now = record {
    query = query;
    normalized_query = normalized;
    answer = answer;
    embedding = embedding;
    citations = m.citations;
    tools = m.tools;
    trace = m.trace;
    revisions = m.revisions;
    grounded = (verdict m).0;
    sufficient_context = (verdict m).1;
    confidence = (verdict m).2;
    knowledge_base_version = v.knowledge_base_version;
    model_version = v.model_version;
    prompt_version = v.prompt_version;
    created_at = now;
    expires_at = now + settings.ttl_seconds;
  }

  index_embedding : CacheVersions → String → List floats.Float → Exec (Shared backend) (Unit {0})
  index_embedding v key embedding =
      if is_empty embedding
      then pure tt
      else on_backend backend (
          backend.index_add (index_namespace w.texts settings.namespace v) key embedding
            settings.ttl_seconds)

  -- the `try` block of `store`
  unfoldable pub write :
      String → String → String → Metadata floats.Float Citation → Exec (Shared backend) (Unit {0})
  unfolding index_embedding
  write normalized query answer m = do
    v ← versions w
    embedding ← embedding_for normalized
    now ← clock w
    let entry = entry_of normalized query answer m v embedding now
    let key = answer_key w.texts settings.namespace v normalized
    on_backend backend (backend.set key (w.codec.encode entry) settings.ttl_seconds)
    index_embedding v key embedding

  unfoldable pub written : Result (Unit {0}) → Gateway w → Bool × Gateway w
  written (ok _) g = (true, count w record_write g)
  written (raise x) g = (false, count w record_backend_error g)

  -- `store`: it never raises, and returns whether the answer was stored
  unfoldable pub store :
      String → String → Metadata floats.Float Citation → Gateway w → Bool × Gateway w
  unfolding written
  store query answer m g =
      let normalized = normalize_query w.texts query in
      let attempted = on_shared w (write normalized query answer m) g in
      if settings.enabled
      then (if is_blank normalized
          then (false, g)
          else elim (refuse floats settings.min_confidence answer m) [
            | some reason ↦ (false, g)
            | none ↦ written attempted.0 attempted.1
          ])
      else (false, g)
