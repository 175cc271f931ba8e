-- ===== src/Cache/Agent/Stream.antt =====
-- `stream_events` and `stream` of app/cache/agent.py: a run as the events that its caller sees. The
-- stream of the wrapped agent is a parameter. Every event is read by the caller; a caller that leaves
-- before the end is not modelled.
pub mod Mirror
use agentic_rag.Prelude.{
  String, Bool, true, false, Option, none, some, List, [], ◌∷◌, ◌++◌, if◌then◌else◌,
}
use agentic_rag.Prelude.Text.{is_blank, strip}
use agentic_rag.Core.Errors.{Result, ok, raise}
use agentic_rag.Memory.Store.{Sessions}
use agentic_rag.Cache.Gateway.{Wiring, Hit, Metadata}
use agentic_rag.Cache.Gateway.Store.{store}
use agentic_rag.Cache.Agent.{
  Request, Report, unreported, miss, hit, Wrapping, Service, hit_metadata, is_standalone, consult,
  remember,
}

-- the type of an event
pub data EventType : Type 0 where
  stage_type answer_type result_type : EventType

-- `AgentEvent`, with the `cache` entry of its metadata beside the rest
pub record AgentEvent (Float Citation : Type 0) : Type 0 where
  pub event_type : EventType
  pub stage : String
  pub answer : String
  pub metadata : Metadata Float Citation
  pub cache : Report Float

module _ (w : Wiring) where
  abbrev pub Event : Type 0
  Event = AgentEvent w.floats.Float w.Citation

  -- an event of the loop: a result is held back
  abbrev pub unless_result : EventType → Event → List Event → List Event
  unless_result result_type e es = es
  unless_result _ e es = e ∷ es

  -- the events that are passed on as they come
  unfoldable pub passed : List Event → List Event
  passed [] = []
  passed (e ∷ es) = unless_result e.event_type e (passed es)

  -- `final`: the last result, if there was one
  unfoldable pub final_of : Option Event → List Event → Option Event
  final_of final [] = final
  final_of final (e ∷ es) = elim (e.event_type) [
    | result_type ↦ final_of (some e) es
    | stage_type ↦ final_of final es
    | answer_type ↦ final_of final es
  ]

  -- the metadata that an event has when it is given none
  abbrev pub no_metadata : Metadata w.floats.Float w.Citation
  no_metadata = record { critique = none; citations = []; tools = []; trace = []; revisions = 0 }

module _ (w : Wiring) (a : Wrapping w) where
  -- the wrapped agent's `stream_events`: its events up to its end or to an error, and what it changes
  abbrev pub Streaming : Type 0
  Streaming =
      Request → Sessions × a.Inner → List (Event w) × Result (Unit {0}) × (Sessions × a.Inner)

  -- what a caller reads, how the stream ends, and the service after it
  abbrev pub Outcome : Type 0
  Outcome = List (Event w) × Result (Unit {0}) × Service w a

  -- the `cache` entry of a hit
  abbrev pub report_of : Hit w → Report w.floats.Float
  report_of h = hit h.cache_type h.age h.cache_key (a.round h.similarity)

  -- a hit as a complete run of one step: what comes before its result, and the result
  abbrev pub opening_of : Hit w → List (Event w)
  opening_of h =
      record {
        event_type = stage_type;
        stage = "cache";
        answer = "";
        metadata = no_metadata w;
        cache = unreported;
      }
      ∷ record {
        event_type = answer_type;
        stage = "cache";
        answer = strip h.entry.answer;
        metadata = no_metadata w;
        cache = unreported;
      }
      ∷ []

  unfoldable pub result_of : Hit w → Event w
  unfolding hit_metadata strip
  result_of h = record {
    event_type = result_type;
    stage = "";
    answer = strip h.entry.answer;
    metadata = hit_metadata w h;
    cache = report_of h;
  }

  abbrev pub events_from_hit : Hit w → List (Event w)
  events_from_hit h = opening_of h ++ result_of h ∷ []

  -- the closing result of a run that was not answered from the cache
  abbrev pub closing : Event w → Event w
  closing final = record final { event_type = result_type; cache = miss }

  -- what follows the last event of the wrapped agent
  unfoldable pub conclude_stream :
      Request → Bool → List (Event w) → Option (Event w) → Service w a → Outcome
  unfolding store
  conclude_stream request standalone events none s = (events, ok tt, s)
  conclude_stream request false events (some final) s = (events ++ closing final ∷ [], ok tt, s)
  conclude_stream request true events (some final) s = (
    events ++ closing final ∷ [],
    ok tt,
    record s { gateway = (store w request.query final.answer final.metadata s.gateway).1 },
  )

  -- an error of the wrapped agent ends the stream before the closing result
  abbrev pub after_stream :
      Request → Bool → List (Event w) → Result (Unit {0}) → Service w a → Outcome
  after_stream request standalone events (raise x) s = (passed w events, raise x, s)
  after_stream request standalone events (ok u) s =
      conclude_stream request standalone (passed w events) (final_of w none events) s

  module _ (streaming : Streaming) where
    -- the events of a hit, or those of a run
    unfoldable pub respond_stream : Request → Bool → Option (Hit w) → Service w a → Outcome
    unfolding remember result_of conclude_stream passed final_of
    respond_stream request standalone (some h) s =
        (events_from_hit h, ok tt, remember w a request h.entry.answer s)
    respond_stream request standalone none s =
        let (events, r, (sessions, inner)) = streaming request (s.sessions, s.inner) in
        after_stream request standalone events r (record s { sessions = sessions; inner = inner })

    unfoldable pub stream_events_as : Request → Bool → Service w a → Outcome
    unfolding consult respond_stream
    stream_events_as request standalone s =
        let (found, s') = consult w a request standalone s in
        respond_stream request standalone found s'

    -- `stream_events`
    unfoldable pub stream_events : Request → Service w a → Outcome
    unfolding is_standalone stream_events_as
    stream_events request s = stream_events_as request (is_standalone w a request s) s

  -- the answers that a caller of `stream` reads
  unfoldable pub answers_of : List (Event w) → List String
  answers_of [] = []
  answers_of (e ∷ es) =
      let rest = answers_of es in
      elim (e.event_type) [
        | answer_type ↦ if is_blank e.answer then rest else e.answer ∷ rest
        | stage_type ↦ rest
        | result_type ↦ rest
      ]
