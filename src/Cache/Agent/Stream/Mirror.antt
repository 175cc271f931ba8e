-- ===== src/Cache/Agent/Stream/Mirror.antt =====
-- A stream of app/cache/agent.py and an `invoke` of the same request come to the same.
use agentic_rag.Prelude.{
  ◌≡◌, refl, ap, ◌∙◌, String, Bool, true, false, Option, none, some, List, [], ◌∷◌, ◌++◌,
  if◌then◌else◌,
}
use agentic_rag.Core.Errors.{Result, ok}
use agentic_rag.Memory.Store.{Sessions}
use agentic_rag.Cache.Gateway.{Wiring, Hit, Metadata}
use agentic_rag.Cache.Gateway.Store.{store}
use agentic_rag.Cache.Gateway.Lookup.{lookup}
use agentic_rag.Cache.Agent.{
  Request, Response, Wrapping, Service, is_standalone, consult, finish, respond, invoke_as, invoke,
  response_from_hit, annotated,
}
use agentic_rag.Cache.Agent.Stream.{
  unless_result, EventType, stage_type, answer_type, result_type, Event, passed, final_of,
  Streaming, Outcome, opening_of, result_of, closing, conclude_stream, respond_stream,
  stream_events_as, stream_events,
}

module _ (w : Wiring) (a : Wrapping w) where
  -- an event that carries what a response carries
  pub record Carries (response : Response w.floats.Float w.Citation) (e : Event w) : Type 0 where
    pub closes : e.event_type ≡ result_type
    pub answer : e.answer ≡ response.answer
    pub metadata : e.metadata ≡ response.metadata
    pub cache : e.cache ≡ response.cache

  -- the wrapped agent streams a run that ends with what its `invoke` returns
  pub record IsMirrored (streaming : Streaming w a) (request : Request) (st : Sessions × a.Inner)
      : Type 0 where
    pub events : List (Event w)
    pub final : Event w
    pub response : Response w.floats.Float w.Citation
    pub after : Sessions × a.Inner
    pub streamed : streaming request st ≡ (events, ok tt, after)
    pub last_result : final_of w none events ≡ some final
    pub invoked : a.invoke request st ≡ (ok response, after)
    pub carries : Carries response final

  -- a stream that ends as an `invoke` returned: with a last event that carries the response, after
  -- events that are no results, and the same service
  pub record IsMirror (out : Outcome w a)
      (returned : Result (Response w.floats.Float w.Citation) × Service w a) : Type 0 where
    pub before : List (Event w)
    pub last_event : Event w
    pub response : Response w.floats.Float w.Citation
    pub read : out.0 ≡ before ++ last_event ∷ []
    pub only_one : passed w before ≡ before
    pub ended : out.1 ≡ ok tt
    pub returns : returned.0 ≡ ok response
    pub carries : Carries response last_event
    pub same : out.2 ≡ returned.1

  passed-unless_result :
      (t : EventType) (e : Event w) (es : List (Event w))
      → e.event_type ≡ t
      → passed w es ≡ es
      → passed w (unless_result w t e es) ≡ unless_result w t e es
  unfolding passed
  passed-unless_result result_type e es h same = same
  passed-unless_result stage_type e es h same =
      ap (λ (t : EventType). unless_result w t e (passed w es)) h ∙ ap (◌∷◌ e) same
  passed-unless_result answer_type e es h same =
      ap (λ (t : EventType). unless_result w t e (passed w es)) h ∙ ap (◌∷◌ e) same

  passed-passed : (es : List (Event w)) → passed w (passed w es) ≡ passed w es
  unfolding passed
  passed-passed [] = refl
  passed-passed (e ∷ es) = passed-unless_result e.event_type e (passed w es) refl (passed-passed es)

  module _ (streaming : Streaming w a) (request : Request) where
    abbrev stored : String → Metadata w.floats.Float w.Citation → Service w a → Service w a
    stored answer m t = record t { gateway = (store w request.query answer m t.gateway).1 }

    -- the end of a run that was not answered from the cache
    concluded-IsMirror :
        (alone : Bool) (events : List (Event w)) (final : Event w)
        (response : Response w.floats.Float w.Citation) (t : Service w a)
        → passed w events ≡ events
        → Carries response final
        → IsMirror
            (conclude_stream w a request alone events (some final) t)
            (finish w a request alone (ok response) t)
    unfolding conclude_stream finish
    concluded-IsMirror true events final response t once c = record {
      before = events;
      last_event = closing w a final;
      response = annotated w a response;
      read = refl;
      only_one = once;
      ended = refl;
      returns = refl;
      carries = record { closes = refl; answer = c.answer; metadata = c.metadata; cache = refl };
      same =
          ap (λ (x : String). stored x final.metadata t) c.answer
          ∙ ap (λ (m : Metadata w.floats.Float w.Citation). stored response.answer m t) c.metadata;
    }
    concluded-IsMirror false events final response t once c = record {
      before = events;
      last_event = closing w a final;
      response = annotated w a response;
      read = refl;
      only_one = once;
      ended = refl;
      returns = refl;
      carries = record { closes = refl; answer = c.answer; metadata = c.metadata; cache = refl };
      same = refl;
    }

    responded-IsMirror :
        (found : Option (Hit w)) (alone : Bool) (t : Service w a)
        → IsMirrored streaming request (t.sessions, t.inner)
        → IsMirror
            (respond_stream w a streaming request alone found t)
            (respond w a request alone found t)
    unfolding respond_stream respond result_of response_from_hit passed
    responded-IsMirror (some h) alone t m = record {
      before = opening_of w a h;
      last_event = result_of w a h;
      response = response_from_hit w a request h;
      read = refl;
      only_one = refl;
      ended = refl;
      returns = refl;
      carries = record { closes = refl; answer = refl; metadata = refl; cache = refl };
      same = refl;
    }
    responded-IsMirror none alone t m =
        rw (m.streamed, respond_stream, m.invoked, respond, m.last_result)
          (concluded-IsMirror alone (passed w m.events) m.final m.response _
            (passed-passed m.events) m.carries)

    -- the two ways agree after what the cache said
    abbrev Answers : Option (Hit w) × Service w a → Type 0
    Answers c =
        IsMirror (respond_stream w a streaming request true c.0 c.1)
          (respond w a request true c.0 c.1)

    either-Answers :
        (b : Bool) (c d : Option (Hit w) × Service w a)
        → Answers c
        → Answers d
        → Answers (if b then c else d)
    either-Answers true c d h k = h
    either-Answers false c d h k = k

    consulted-IsMirror :
        (alone : Bool) (s : Service w a)
        → IsMirrored streaming request (s.sessions, s.inner)
        → IsMirror (stream_events_as w a streaming request alone s) (invoke_as w a request alone s)
    unfolding stream_events_as invoke_as consult
    consulted-IsMirror false s m = responded-IsMirror none false s m
    consulted-IsMirror true s m =
        let (found, g) = lookup w request.query s.gateway in
        either-Answers w.settings.enabled (found, record s { gateway = g }) (none, s)
          (responded-IsMirror found true (record s { gateway = g }) m)
          (responded-IsMirror none true s m)

  -- If the wrapped agent's stream ends with the response that its `invoke` returns, then a stream of
  -- the cached agent, answered from the cache or not, ends with exactly one result, which carries
  -- what `invoke` returns for the same request, and leaves the cache and the memory as `invoke` does.
  pub stream_events-IsMirror :
      (streaming : Streaming w a) (request : Request) (s : Service w a)
      → IsMirrored streaming request (s.sessions, s.inner)
      → IsMirror (stream_events w a streaming request s) (invoke w a request s)
  unfolding stream_events invoke
  stream_events-IsMirror streaming request s m =
      consulted-IsMirror streaming request (is_standalone w a request s) s m
