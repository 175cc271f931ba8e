-- ===== src/Core/Timeout.antt =====
-- app/core/timeout.py: the middleware that abandons a request whose handler does not begin to respond.
-- A request is the sequence of what happens to it: the handler sends, the deadline passes, the
-- cancellation that the deadline requests is delivered at an await of the handler, at once or later,
-- or the handler ends. What happens after the end is not reached.
pub mod Responses
use agentic_rag.Prelude.{ℕ, Bool, true, false, not, ◌&&◌, List, [], ◌∷◌, ◌++◌, if◌then◌else◌}

-- a message to the client: the start of a response with its status, or a part of a body
pub data Message : Type 0 where
  response_start : ℕ → Message
  response_body : Message

-- What happens to a request. A requested cancellation arrives at an await of the handler's own, or at
-- the `await send(message)` of `guarded_send`; where none is requested, neither event does anything.
pub data Event : Type 0 where
  sends : Message → Event
  deadline_passes : Event
  cancellation_arrives : Event
  cancelled_in : Message → Event
  handler_ends : Event

-- the variables of `__call__`, the state of its cancel scope, and what has been sent
pub record Call : Type 0 where
  pub started : Bool
  pub lifted_deadline : Bool
  pub cancel_called : Bool
  pub cancelled_caught : Bool
  pub sent : List Message

abbrev pub is_start : Message → Bool
is_start (response_start status) = true
is_start response_body = false

abbrev pub fresh : Call
fresh = record {
  started = false;
  lifted_deadline = false;
  cancel_called = false;
  cancelled_caught = false;
  sent = [];
}

-- `guarded_send` before its `await send(message)`
unfoldable pub before_send : Message → Call → Call
before_send (response_start status) c = record c { started = true; lifted_deadline = true }
before_send response_body c = c

-- `guarded_send`
unfoldable pub guarded_send : Message → Call → Call
unfolding before_send
guarded_send m c = let ready = before_send m c in record ready { sent = c.sent ++ m ∷ [] }

-- the cancel scope: everything that happens under it
unfoldable pub run_scope : List Event → Call → Call
unfolding guarded_send before_send
run_scope [] c = c
run_scope (sends m ∷ events) c = run_scope events (guarded_send m c)
run_scope (deadline_passes ∷ events) c =
    let goes_on = run_scope events c in
    let requested = run_scope events (record c { cancel_called = true }) in
    if c.lifted_deadline then goes_on else requested
run_scope (cancellation_arrives ∷ events) c =
    let goes_on = run_scope events c in
    if c.cancel_called then record c { cancelled_caught = true } else goes_on
run_scope (cancelled_in m ∷ events) c =
    let goes_on = run_scope events c in
    let ready = before_send m c in
    if c.cancel_called then record ready { cancelled_caught = true } else goes_on
run_scope (handler_ends ∷ events) c = c

-- `_send_timeout`
abbrev pub timeout_response : List Message
timeout_response = response_start 504 ∷ response_body ∷ []

-- the end of `__call__`
unfoldable pub after_scope : Call → Call
after_scope c =
    if c.cancelled_caught && not c.started
    then record c { sent = c.sent ++ timeout_response }
    else c

-- `TimeoutMiddleware.__call__`, for an HTTP request
unfoldable pub respond : List Event → Call
unfolding run_scope after_scope
respond events = after_scope (run_scope events fresh)
