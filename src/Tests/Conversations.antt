-- ===== src/Tests/Conversations.antt =====
-- Tests of app/memory and app/cache/agent.py.
use agentic_rag.Prelude.{
  ℕ, zero, suc, ◌≤◌, ◌<◌, ◌≡◌, refl, String, Bool, true, false, Option, none, some, List, [], ◌∷◌,
  arith,
}
use agentic_rag.Prelude.Text.{string_discrete, is_space, strip}
use agentic_rag.Dict.{Dict, get}
use agentic_rag.Core.Errors.{ok}
use agentic_rag.Memory.Models.{MemoryRecord, UserFact, user, fold_facts}
use agentic_rag.Memory.Models.Facts.{get-fold_facts}
use agentic_rag.Memory.Store.{
  StoreSettings, Session, fresh, append, history, update_session, summarised,
}
use agentic_rag.Memory.Store.Update.{kept, current, update_session_lem}
use agentic_rag.Memory.Store.Bounds.{IsValid, append-IsValid}
use agentic_rag.Memory.Store.Window.{
  Change, appended, facts_merged, run, log, IsRecent, run-IsRecent,
}
use agentic_rag.Cache.Agent.{Request, Wrapping, Service, invoke, consult, is_standalone, unreported}
use agentic_rag.Cache.Agent.Turns.{invoke-bypass, invoke-remembers}
use agentic_rag.Cache.Agent.Stream.{
  result_type, stage_type, Event, final_of, Streaming, stream_events,
}
use agentic_rag.Cache.Agent.Stream.Mirror.{IsMirrored, IsMirror, stream_events-IsMirror}
use agentic_rag.Tests.Samples.{
  wiring, empty_gateway, good_run, answered_gateway, leave_hit, leave_found,
}

abbrev tiny : StoreSettings
tiny = record { short_term_turns = 2; max_user_facts = 2; max_sessions = 2 }

abbrev said : String → String → MemoryRecord
said id text = record { session_id = id; role = user; content = text }

abbrev tea : UserFact
tea = record { key = "drink"; value = "tea" }

abbrev changes : List Change
changes =
    appended (said "a" "one")
    ∷ appended (said "b" "two")
    ∷ facts_merged "a" (tea ∷ [])
    ∷ appended (said "c" "three")
    ∷ appended (said "a" "four")
    ∷ []

run-IsRecent_example :
    IsValid tiny (run tiny changes [])
    × ((id : String) (s : Session)
        → get string_discrete id (run tiny changes []) ≡ some s
        → IsRecent 2 (log id changes) s)
run-IsRecent_example = run-IsRecent tiny changes (omega arith) (omega arith)

none-IsValid : IsValid tiny []
unfolding get
none-IsValid = record {
  bounded = omega arith;
  distinct = tt;
  fits = λ id s p. absurd (ground arith);
}

append-IsValid_example : IsValid tiny (append tiny (said "a" "one") [])
append-IsValid_example = append-IsValid tiny (said "a" "one") [] (omega arith) none-IsValid

update_session_lem_example :
    update_session tiny "a" (summarised tiny "s") [] ≡ ("a", summarised tiny "s" fresh) ∷ []
unfolding kept current get agentic_rag.Dict.trim
update_session_lem_example =
    update_session_lem tiny "a" (summarised tiny "s") [] (omega arith) (omega arith)

get-fold_facts_example :
    get string_discrete "drink" (fold_facts (tea ∷ []) (("drink", "milk") ∷ [])) ≡ some "tea"
unfolding string_discrete
get-fold_facts_example = get-fold_facts "drink" (tea ∷ []) (("drink", "milk") ∷ [])

-- an agent that always gives the same answer
abbrev parrot : Wrapping wiring
parrot = record {
  Inner = ℕ;
  invoke = λ request (sessions, runs). (
    ok (record {
      session_id = request.session_id;
      answer = "parrot";
      metadata = good_run;
      cache = unreported;
    }),
    (sessions, suc runs),
  );
  memory_enabled = true;
  memory = tiny;
  round = λ x. x;
}

abbrev question : Request
question = record { session_id = "a"; query = "Leave days?" }

abbrev talking : Service wiring parrot
talking = record {
  gateway = empty_gateway;
  sessions = ("a", record fresh { turns = said "a" "hello" ∷ []; turns_recorded = 1 }) ∷ [];
  inner = 0;
}

invoke-bypass_example : (invoke wiring parrot question talking).1.gateway ≡ empty_gateway
unfolding history get string_discrete agentic_rag.Prelude.last
invoke-bypass_example = invoke-bypass wiring parrot question talking refl refl refl

abbrev starting : Service wiring parrot
starting = record { gateway = answered_gateway; sessions = []; inner = 0 }

a_stripped : strip "a" ≡ "a"
unfolding strip is_space
a_stripped = refl

leave_consulted :
    (consult wiring parrot question (is_standalone wiring parrot question starting) starting).0
    ≡ some leave_hit
unfolding consult is_standalone history get
leave_consulted = leave_found

invoke-remembers_example :
    (invoke wiring parrot
      (record question { query = "Why?" })
      (invoke wiring parrot question starting).1).1.gateway
    ≡ (invoke wiring parrot question starting).1.gateway
invoke-remembers_example =
    invoke-remembers wiring parrot question "Why?" starting leave_hit (omega arith) (omega arith)
      none-IsValid refl refl a_stripped refl leave_consulted

-- the same agent as a stream
abbrev parrot_result : Event wiring
parrot_result = record {
  event_type = result_type;
  stage = "";
  answer = "parrot";
  metadata = good_run;
  cache = unreported;
}

abbrev parrot_stage : Event wiring
parrot_stage = record parrot_result { event_type = stage_type; stage = "critic"; answer = "" }

abbrev parrot_stream : Streaming wiring parrot
parrot_stream request (sessions, runs) =
    (parrot_stage ∷ parrot_result ∷ [], ok tt, (sessions, suc runs))

parrot-IsMirrored :
    IsMirrored wiring parrot parrot_stream question (talking.sessions, talking.inner)
unfolding final_of
parrot-IsMirrored = record {
  events = parrot_stage ∷ parrot_result ∷ [];
  final = parrot_result;
  response = record {
    session_id = "a";
    answer = "parrot";
    metadata = good_run;
    cache = unreported;
  };
  after = (talking.sessions, 1);
  streamed = refl;
  last_result = refl;
  invoked = refl;
  carries = record { closes = refl; answer = refl; metadata = refl; cache = refl };
}

stream_events-IsMirror_example :
    IsMirror wiring parrot
      (stream_events wiring parrot parrot_stream question talking)
      (invoke wiring parrot question talking)
stream_events-IsMirror_example =
    stream_events-IsMirror wiring parrot parrot_stream question talking parrot-IsMirrored
