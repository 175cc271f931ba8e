-- ===== src/Cache/Agent.antt =====
-- app/cache/agent.py: `CachedRagAgent`, the cache in front of the graph. The wrapped agent is a
-- parameter: it may raise, and it changes the conversation memory and a world of its own.
pub mod Turns
pub mod Stream
use agentic_rag.Prelude.{
  ℕ, String, Bool, true, false, not, ◌||◌, Option, none, some, List, [], ◌∷◌, ◌++◌, is_empty,
  if◌then◌else◌,
}
use agentic_rag.Prelude.Text.{is_blank, strip, ◌<>◌}
use agentic_rag.Core.Errors.{Result, ok, raise}
use agentic_rag.Core.Exec.{Exec, continue}
use agentic_rag.Cache.Metrics.{CacheType, exact, semantic}
use agentic_rag.Cache.Metrics
use agentic_rag.Cache.Base.{CachedAnswer, CacheHit}
use agentic_rag.Cache.Gateway.{Wiring, Gateway, Hit, Metadata, CritiqueEntry}
use agentic_rag.Cache.Gateway.Lookup.{lookup}
use agentic_rag.Cache.Gateway.Store.{store}
use agentic_rag.Memory.Models.{Role, user, assistant, memory_record}
use agentic_rag.Memory.Store.{StoreSettings, Sessions, append, history}

-- `AgentRequest`
pub record Request : Type 0 where
  pub session_id : String
  pub query : String

-- the `cache` entry of a response's metadata
pub data Report (Float : Type 0) : Type 0 where
  unreported miss : Report Float
  hit : CacheType → ℕ → String → Float → Report Float

-- `AgentResponse`, with its metadata
pub record Response (Float Citation : Type 0) : Type 0 where
  pub session_id : String
  pub answer : String
  pub metadata : Metadata Float Citation
  pub cache : Report Float

-- `CachedRagAgent`: `invoke` is the wrapped agent's, `round` is `round(similarity, 4)`
pub record Wrapping (w : Wiring) : Type 1 where
  pub Inner : Type 0
  pub invoke : Request → Exec (Sessions × Inner) (Response w.floats.Float w.Citation)
  pub memory_enabled : Bool
  pub memory : StoreSettings
  pub round : w.floats.Float → w.floats.Float

pub record Service (w : Wiring) (a : Wrapping w) : Type 0 where
  pub gateway : Gateway w
  pub sessions : Sessions
  pub inner : a.Inner

abbrev pub kind_text : CacheType → String
kind_text exact = "exact"
kind_text semantic = "semantic"
kind_text _ = "none"

module _ (w : Wiring) where
  -- `_hit_metadata`
  unfoldable pub hit_metadata : Hit w → Metadata w.floats.Float w.Citation
  hit_metadata h = record {
    critique = some (record {
      sufficient_context = some h.entry.sufficient_context;
      grounded = some h.entry.grounded;
      confidence = some h.entry.confidence;
    });
    citations = h.entry.citations;
    tools = h.entry.tools;
    trace = h.entry.trace ++ ("cache:" <> kind_text h.cache_type) ∷ [];
    revisions = h.entry.revisions;
  }

module _ (w : Wiring) (a : Wrapping w) where
  -- `_response_from_hit`
  unfoldable pub response_from_hit : Request → Hit w → Response w.floats.Float w.Citation
  unfolding hit_metadata strip
  response_from_hit request h = record {
    session_id = request.session_id;
    answer = strip h.entry.answer;
    metadata = hit_metadata w h;
    cache = hit h.cache_type h.age h.cache_key (a.round h.similarity);
  }

  -- `_annotated(response, _miss_metadata())`
  abbrev pub annotated : Response w.floats.Float w.Citation → Response w.floats.Float w.Citation
  annotated response = record response { cache = miss }

  -- `_is_standalone`
  unfoldable pub is_standalone : Request → Service w a → Bool
  unfolding history
  is_standalone request s =
      if not w.settings.enabled
      then false
      else if is_blank request.session_id || not a.memory_enabled
      then true
      else is_empty (history a.memory request.session_id 1 s.sessions)

  -- `_lookup`, when the question stands alone
  unfoldable pub consult : Request → Bool → Service w a → Option (Hit w) × Service w a
  unfolding lookup
  consult request false s = (none, s)
  consult request true s =
      if w.settings.enabled
      then (let (found, g) = lookup w request.query s.gateway in (found, record s { gateway = g }))
      else (none, s)

  unfoldable pub remember_turn : String → Role → String → Sessions → Sessions
  unfolding append memory_record
  remember_turn session_id role content sessions =
      if is_blank content
      then sessions
      else append a.memory (memory_record session_id role content) sessions

  -- `_remember`
  unfoldable pub remember : Request → String → Service w a → Service w a
  unfolding remember_turn
  remember request answer s =
      if not a.memory_enabled || is_blank request.session_id then s else record s {
        sessions =
            remember_turn request.session_id assistant answer
              (remember_turn request.session_id user request.query s.sessions);
      }

  -- what follows the wrapped agent's run
  unfoldable pub finish :
      Request
      → Bool
      → Result (Response w.floats.Float w.Citation)
      → Service w a
      → Result (Response w.floats.Float w.Citation) × Service w a
  unfolding store
  finish request standalone (raise x) s = (raise x, s)
  finish request false (ok response) s = (ok (annotated response), s)
  finish request true (ok response) s = (
    ok (annotated response),
    record s { gateway = (store w request.query response.answer response.metadata s.gateway).1 },
  )

  -- the answer from the cache, or a run of the wrapped agent
  unfoldable pub respond :
      Request → Bool → Option (Hit w) → Exec (Service w a) (Response w.floats.Float w.Citation)
  unfolding remember response_from_hit finish
  respond request standalone (some h) s =
      (ok (response_from_hit request h), remember request h.entry.answer s)
  respond request standalone none s =
      let (r, (sessions, inner)) = a.invoke request (s.sessions, s.inner) in
      finish request standalone r (record s { sessions = sessions; inner = inner })

  unfoldable pub invoke_as :
      Request → Bool → Exec (Service w a) (Response w.floats.Float w.Citation)
  unfolding consult respond
  invoke_as request standalone s =
      let (found, s') = consult request standalone s in respond request standalone found s'

  -- `invoke`
  unfoldable pub invoke : Request → Exec (Service w a) (Response w.floats.Float w.Citation)
  unfolding is_standalone invoke_as
  invoke request s = invoke_as request (is_standalone request s) s
