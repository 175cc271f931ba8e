-- ===== src/Services/Embeddings.antt =====
-- app/services/embeddings.py: texts into vectors, with the cache of query vectors. The client of the
-- provider and the clock are parameters. `get_or_load` is run here by one caller with no other load of
-- the key in flight; among concurrent callers it is modelled in Core/TtlCache/Flight.
pub mod Kept
pub mod Once
use agentic_rag.Services.{not_reached}
use agentic_rag.Prelude.{
  ℕ, String, Bool, true, false, Option, none, some, List, [], ◌∷◌, if◌then◌else◌,
}
use agentic_rag.Prelude.Text.{string_discrete, ◌<>◌}
use agentic_rag.Core.Errors.{Exc, Result, ok, raise, configuration_error, dependency_error}
use agentic_rag.Core.Exec.{Exec, pure, fail, attempt, inside, ◌>>=◌, ◌>>◌}
use agentic_rag.Core.TtlCache.{TtlCache, read, set, enabled}

-- the client: its two calls
pub record Client (World Vec : Type 0) : Type 0 where
  pub embed_documents : List String → Exec World (List Vec)
  pub embed_query : String → Exec World Vec

-- the service, started or not, with the clock that its cache reads
pub record EmbeddingService (World Vec : Type 0) : Type 0 where
  pub model : String
  pub client : Option (Client World Vec)
  pub now : World → ℕ
  pub is_provider_error : Exc → Bool

-- what changes: the cache of query vectors, and the world
pub record Cached (World Vec : Type 0) : Type 0 where
  pub cache : TtlCache String Vec
  pub world : World

module _ {World Vec : Type 0} (service : EmbeddingService World Vec) where
  abbrev pub outside : {A : Type 0} → Exec World A → Exec (Cached World Vec) A
  outside m = inside (λ s. s.world) (λ s w. record s { world = w }) m

  -- `except OpenAIError as exc: raise DependencyError(…)`
  unfoldable pub wrapped : {A : Type 0} → Exec World A → Exec World A
  wrapped call =
      attempt call (λ x. if service.is_provider_error x then fail dependency_error else fail x)

  -- `_require_client`
  unfoldable pub with_client : {A : Type 0} → (Client World Vec → Exec World A) → Exec World A
  unfolding wrapped
  with_client call = elim (service.client) [
    | none ↦ fail configuration_error
    | some c ↦ wrapped (call c)
  ]

  -- `embed_texts`
  unfoldable pub embed_texts : List String → Exec World (List Vec)
  unfolding with_client
  embed_texts [] = pure []
  embed_texts (t ∷ ts) = with_client (λ c. c.embed_documents (t ∷ ts))

  -- `_embed_query`
  unfoldable pub embed_query : String → Exec World Vec
  unfolding with_client
  embed_query text = with_client (λ c. c.embed_query text)

  -- the key of a text: the model is part of it
  abbrev pub query_key : String → String
  query_key text = service.model <> "\0" <> text

  -- the value of a load is written when the load has ended
  unfoldable pub load : String → Exec (Cached World Vec) Vec
  unfolding embed_query
  load text = outside (embed_query text) >>= λ v s. (
    ok v,
    record s { cache = set string_discrete (service.now s.world) (query_key text) v s.cache },
  )

  -- what a read of the cache leads to
  abbrev pub after_read : String → TtlCache String Vec × Option Vec → Exec (Cached World Vec) Vec
  after_read text (c, some v) s = (ok v, record s { cache = c })
  after_read text (c, none) s = load text (record s { cache = c })

  -- `embed_text`
  unfoldable pub embed_text : String → Exec (Cached World Vec) Vec
  unfolding load
  embed_text text s =
      if enabled s.cache
      then after_read text (read string_discrete (service.now s.world) (query_key text) s.cache) s
      else outside (embed_query text) s

  -- `healthy`
  abbrev pub is_started : Option (Client World Vec) → Bool
  is_started none = false
  is_started (some c) = true

  unfoldable pub healthy : Bool
  healthy = is_started service.client

  -- `probe`
  unfoldable pub probe : Exec World Bool
  unfolding embed_texts healthy
  probe = if healthy then attempt (embed_texts ("ok" ∷ []) >> pure true) not_reached else pure false
