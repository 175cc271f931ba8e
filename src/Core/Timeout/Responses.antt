-- ===== src/Core/Timeout/Responses.antt =====
-- How many responses a client sees through the middleware of app/core/timeout.py.
use agentic_rag.Prelude.{
  ℕ, ◌+◌, ◌≤◌, ◌≡◌, ◌⊎◌, inl, inr, refl, sym, ap, subst, Bool, true, false, not, ◌&&◌, List, [],
  ◌∷◌, ◌++◌, arith, Bool-cases, if◌then◌else◌,
}
use agentic_rag.Core.Timeout.{
  Message, response_start, response_body, Event, sends, deadline_passes, cancellation_arrives,
  cancelled_in, handler_ends, Call, is_start, fresh, before_send, guarded_send, run_scope,
  timeout_response, after_scope, respond,
}

-- how many responses have been started
abbrev pub starts : List Message → ℕ
starts [] = 0
starts (m ∷ ms) = (if is_start m then 1 else 0) + starts ms

starts-append : (ms ns : List Message) → starts (ms ++ ns) ≡ starts ms + starts ns
starts-append [] ns = omega arith
starts-append (m ∷ ms) ns = omega (arith, starts-append ms ns)

-- a handler that keeps to the protocol: one start at most, no body before it
abbrev pub IsOrderly : Bool → List Event → Type 0
IsOrderly started [] = Unit
IsOrderly started (sends (response_start status) ∷ events) =
    (started ≡ false) × IsOrderly true events
IsOrderly started (sends response_body ∷ events) = (started ≡ true) × IsOrderly started events
IsOrderly started (handler_ends ∷ events) = Unit
IsOrderly started (e ∷ events) = IsOrderly started events

-- the handler starts a response before the deadline
abbrev pub begins_in_time : List Event → Bool
begins_in_time [] = false
begins_in_time (sends (response_start status) ∷ events) = true
begins_in_time (sends response_body ∷ events) = begins_in_time events
begins_in_time (deadline_passes ∷ events) = false
begins_in_time (cancellation_arrives ∷ events) = begins_in_time events
begins_in_time (cancelled_in m ∷ events) = begins_in_time events
begins_in_time (handler_ends ∷ events) = false

-- what the scope keeps true
pub record IsTracked (c : Call) : Type 0 where
  pub whole : c.cancelled_caught ≡ false → starts c.sent ≡ (if c.started then 1 else 0)
  pub counted : starts c.sent ≤ (if c.started then 1 else 0)
  pub silent : c.started ≡ false → c.sent ≡ []

if-elim :
    (P : Call → Type 0) (b : Bool) (c d : Call)
    → (b ≡ true → P c)
    → (b ≡ false → P d)
    → P (if b then c else d)
if-elim P true c d h k = h refl
if-elim P false c d h k = k refl

started-IsTracked :
    (status : ℕ) (c : Call)
    → c.started ≡ false
    → IsTracked c
    → IsTracked (guarded_send (response_start status) c)
unfolding guarded_send before_send
started-IsTracked status c fresh_call t = record {
  whole =
      λ e. ground (arith, starts-append c.sent (response_start status ∷ []), t.silent fresh_call);
  counted = ground (arith, starts-append c.sent (response_start status ∷ []), t.silent fresh_call);
  silent = λ e. absurd (cc e);
}

body-IsTracked :
    (c : Call) → c.started ≡ true → IsTracked c → IsTracked (guarded_send response_body c)
unfolding guarded_send before_send
body-IsTracked c begun t = record {
  whole = λ e. ground (arith, starts-append c.sent (response_body ∷ []), t.whole e);
  counted = ground (arith, starts-append c.sent (response_body ∷ []), t.counted);
  silent = λ e. absurd (cc (e, begun));
}

caught-IsTracked : (c : Call) → IsTracked c → IsTracked (record c { cancelled_caught = true })
caught-IsTracked c t = record { whole = λ e. absurd (cc e); counted = t.counted; silent = t.silent }

caught_in-IsTracked :
    (m : Message) (c : Call)
    → IsTracked c
    → IsTracked (record (before_send m c) { cancelled_caught = true })
unfolding before_send
caught_in-IsTracked (response_start status) c t = record {
  whole = λ e. absurd (cc e);
  counted = elim (Bool-cases c.started) [
    | inl begun ↦ ground (arith, t.counted)
    | inr waiting ↦ ground (arith, t.silent waiting)
  ];
  silent = λ e. absurd (cc e);
}
caught_in-IsTracked response_body c t = caught-IsTracked c t

run_scope-IsTracked :
    (events : List Event) (c : Call)
    → IsOrderly c.started events
    → IsTracked c
    → IsTracked (run_scope events c)
unfolding run_scope guarded_send before_send
run_scope-IsTracked [] c o t = t
run_scope-IsTracked (sends (response_start status) ∷ events) c o t =
    run_scope-IsTracked events (guarded_send (response_start status) c) o.1
      (started-IsTracked status c o.0 t)
run_scope-IsTracked (sends response_body ∷ events) c o t =
    run_scope-IsTracked events (guarded_send response_body c) o.1 (body-IsTracked c o.0 t)
run_scope-IsTracked (deadline_passes ∷ events) c o t =
    if-elim IsTracked c.lifted_deadline _ _ (λ gone. run_scope-IsTracked events c o t)
      (λ due.
        run_scope-IsTracked events (record c { cancel_called = true }) o
          (record { whole = t.whole; counted = t.counted; silent = t.silent }))
run_scope-IsTracked (cancellation_arrives ∷ events) c o t =
    if-elim IsTracked c.cancel_called _ _ (λ called. caught-IsTracked c t)
      (λ calm. run_scope-IsTracked events c o t)
run_scope-IsTracked (cancelled_in m ∷ events) c o t =
    if-elim IsTracked c.cancel_called _ _ (λ called. caught_in-IsTracked m c t)
      (λ calm. run_scope-IsTracked events c o t)
run_scope-IsTracked (handler_ends ∷ events) c o t = t

-- no cancellation is requested, and none has been delivered
abbrev IsCalm : Call → Type 0
IsCalm c = (c.cancel_called ≡ false) × (c.cancelled_caught ≡ false)

run_scope-lifted :
    (events : List Event) (c : Call)
    → c.lifted_deadline ≡ true
    → IsCalm c
    → (run_scope events c).cancelled_caught ≡ false
unfolding run_scope guarded_send before_send
run_scope-lifted [] c l n = n.1
run_scope-lifted (sends (response_start status) ∷ events) c l n =
    run_scope-lifted events (guarded_send (response_start status) c) refl n
run_scope-lifted (sends response_body ∷ events) c l n =
    run_scope-lifted events (guarded_send response_body c) l n
run_scope-lifted (deadline_passes ∷ events) c l n =
    if-elim (λ (d : Call). d.cancelled_caught ≡ false) c.lifted_deadline _ _
      (λ e. run_scope-lifted events c l n) (λ e. absurd (cc (e, l)))
run_scope-lifted (cancellation_arrives ∷ events) c l n =
    if-elim (λ (d : Call). d.cancelled_caught ≡ false) c.cancel_called _ _
      (λ e. absurd (cc (e, n.0))) (λ e. run_scope-lifted events c l n)
run_scope-lifted (cancelled_in m ∷ events) c l n =
    if-elim (λ (d : Call). d.cancelled_caught ≡ false) c.cancel_called _ _
      (λ e. absurd (cc (e, n.0))) (λ e. run_scope-lifted events c l n)
run_scope-lifted (handler_ends ∷ events) c l n = n.1

run_scope-in_time :
    (events : List Event) (c : Call)
    → IsCalm c
    → begins_in_time events ≡ true
    → (run_scope events c).cancelled_caught ≡ false
unfolding run_scope guarded_send before_send
run_scope-in_time [] c n b = absurd (cc b)
run_scope-in_time (sends (response_start status) ∷ events) c n b =
    run_scope-lifted events (guarded_send (response_start status) c) refl n
run_scope-in_time (sends response_body ∷ events) c n b =
    run_scope-in_time events (guarded_send response_body c) n b
run_scope-in_time (deadline_passes ∷ events) c n b = absurd (cc b)
run_scope-in_time (cancellation_arrives ∷ events) c n b =
    if-elim (λ (d : Call). d.cancelled_caught ≡ false) c.cancel_called _ _
      (λ e. absurd (cc (e, n.0))) (λ e. run_scope-in_time events c n b)
run_scope-in_time (cancelled_in m ∷ events) c n b =
    if-elim (λ (d : Call). d.cancelled_caught ≡ false) c.cancel_called _ _
      (λ e. absurd (cc (e, n.0))) (λ e. run_scope-in_time events c n b)
run_scope-in_time (handler_ends ∷ events) c n b = n.1

-- what a client may have got
abbrev pub IsAnswered : Call → Type 0
IsAnswered c =
    ((c.cancelled_caught ≡ true) × (c.started ≡ false) × (c.sent ≡ timeout_response))
    ⊎ (((c.cancelled_caught ≡ false) × (starts c.sent ≡ (if c.started then 1 else 0)))
        ⊎ ((c.cancelled_caught ≡ true) × (c.started ≡ true) × (starts c.sent ≤ 1)))

if-true : (b : Bool) (c d : Call) → b ≡ true → (if b then c else d) ≡ c
if-true true c d h = refl
if-true false c d h = absurd (cc h)

if-false : (b : Bool) (c d : Call) → b ≡ false → (if b then c else d) ≡ d
if-false true c d h = absurd (cc h)
if-false false c d h = refl

after_scope-IsAnswered : (c : Call) → IsTracked c → IsAnswered (after_scope c)
unfolding after_scope
after_scope-IsAnswered c t =
    let abandoned = c.cancelled_caught && not c.started in
    let answered = record c { sent = c.sent ++ timeout_response } in
    elim (Bool-cases c.cancelled_caught) [
      | inl stopped ↦ elim (Bool-cases c.started) [
        | inl begun ↦
            subst IsAnswered (sym (if-false abandoned answered c (ground (arith, stopped, begun))))
              (inr (inr (stopped, begun, ground (arith, t.counted, begun))))
        | inr waiting ↦
            subst IsAnswered (sym (if-true abandoned answered c (ground (arith, stopped, waiting))))
              (inl (
                stopped,
                waiting,
                ap (λ (ms : List Message). ms ++ timeout_response) (t.silent waiting),
              ))
      ]
      | inr ran ↦
          subst IsAnswered (sym (if-false abandoned answered c (ground (arith, ran))))
            (inr (inl (ran, t.whole ran)))
    ]

after_scope-caught : (c : Call) → (after_scope c).cancelled_caught ≡ c.cancelled_caught
unfolding after_scope
after_scope-caught c =
    if-elim (λ d. d.cancelled_caught ≡ c.cancelled_caught) (c.cancelled_caught && not c.started) _ _
      (λ e. refl) (λ e. refl)

-- Whatever happens to a request, if its handler keeps to the protocol of one start and no body before
-- it, then the client gets one response at most: a request cancelled before its handler began to
-- respond gets exactly the timeout response; one that is not cancelled gets one start if its handler
-- sent one, and none otherwise; and where the cancellation arrives after the handler began, no second
-- response is started. A handler that starts its response before the deadline is never cancelled.
pub respond-IsAnswered :
    (events : List Event)
    → IsOrderly false events
    → IsAnswered (respond events)
      × ((begins_in_time events && (respond events).cancelled_caught) ≡ false)
unfolding respond
respond-IsAnswered events o = (
  after_scope-IsAnswered (run_scope events fresh) (
      run_scope-IsTracked events fresh o
        (record { whole = λ e. refl; counted = omega arith; silent = λ e. refl })),
  elim (Bool-cases (begins_in_time events)) [
    | inl in_time ↦ ground (
      arith,
      after_scope-caught (run_scope events fresh),
      run_scope-in_time events fresh (refl, refl) in_time,
    )
    | inr late ↦ ground (arith, late)
  ],
)
