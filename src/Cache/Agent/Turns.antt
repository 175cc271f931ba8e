-- ===== src/Cache/Agent/Turns.antt =====
-- Conversations and the cache: app/cache/agent.py.
use agentic_rag.Prelude.{
  ℕ, ◌-◌, ◌<◌, ◌≡◌, refl, sym, subst, ◌⊎◌, String, Bool, true, false, not, ◌||◌, Option, none, some,
  List, [], ◌∷◌, ◌++◌, is_empty, length, last, length-append, length-drop, drop, from_end, arith,
  Bool-cases, inl, inr,
}
use agentic_rag.Prelude.Text.{is_blank, strip, string_discrete}
use agentic_rag.Dict.{get}
use agentic_rag.Dict.Lookup.{get-append}
use agentic_rag.Core.Errors.{Result, ok, raise}
use agentic_rag.Cache.Gateway.{Wiring, Hit}
use agentic_rag.Cache.Agent.{
  Request, Response, Wrapping, Service, is_standalone, consult, remember_turn, remember, finish,
  respond, invoke_as, invoke,
}
use agentic_rag.Memory.Models.{MemoryRecord, Role, user, assistant, memory_record}
use agentic_rag.Memory.Store.{StoreSettings, Sessions, append, history, add_turn, deque_append}
use agentic_rag.Memory.Store.Update.{kept, current, get-kept_self, update_session_lem}
use agentic_rag.Memory.Store.Bounds.{IsValid, append-IsValid}

not_empty {ℓ} : {A : Type ℓ} (xs : List A) → 0 < length xs → is_empty xs ≡ false
not_empty [] h = absurd (omega arith)
not_empty (x ∷ xs) h = refl

-- after an append the session has a turn to show
module _ (settings : StoreSettings) where
  get-append_turn :
      (turn : MemoryRecord) (d : Sessions)
      → 0 < settings.max_sessions
      → IsValid settings d
      → get string_discrete turn.session_id (append settings turn d)
        ≡ some (add_turn settings turn (current turn.session_id d))
  unfolding append get deque_append
  get-append_turn turn d room h =
      rw (update_session_lem settings turn.session_id (add_turn settings turn) d room h.bounded) (
        ground (
          arith,
          get-append string_discrete turn.session_id (kept settings turn.session_id d)
              ((turn.session_id, add_turn settings turn (current turn.session_id d)) ∷ []),
          get-kept_self settings turn.session_id d,
        ))

  deque_append-shows :
      (n : ℕ) (turns : List MemoryRecord) (turn : MemoryRecord)
      → 0 < n
      → is_empty (from_end 1 (deque_append n turns turn)) ≡ false
  unfolding deque_append last
  deque_append-shows n turns turn h =
      let ys = turns ++ turn ∷ [] in
      let window = drop (length ys - n) ys in
      not_empty (drop (length window - 1) window) (
        omega (
          arith,
          length-drop (length window - 1) window,
          length-drop (length ys - n) ys,
          length-append turns (turn ∷ []),
        ))

  pub history-append :
      (turn : MemoryRecord) (d : Sessions)
      → 0 < settings.max_sessions
      → 0 < settings.short_term_turns
      → IsValid settings d
      → is_empty (history settings turn.session_id 1 (append settings turn d)) ≡ false
  unfolding history
  history-append turn d room space h =
      rw (get-append_turn turn d room h, history)
        (deque_append-shows settings.short_term_turns (current turn.session_id d).turns turn space)

module _ (w : Wiring) (a : Wrapping w) where
  dependent :
      (request : Request) (s : Service w a)
      → a.memory_enabled ≡ true
      → is_blank request.session_id ≡ false
      → is_empty (history a.memory request.session_id 1 s.sessions) ≡ false
      → is_standalone w a request s ≡ false
  unfolding is_standalone
  dependent request s on named spoken = elim (Bool-cases w.settings.enabled) [
    | inl enabled ↦ rw (enabled, is_standalone) (simp (on, named, spoken))
    | inr disabled ↦ rw (disabled, is_standalone)
  ]

  finish_dependent :
      (request : Request) (r : Result (Response w.floats.Float w.Citation)) (s : Service w a)
      → (finish w a request false r s).1.gateway ≡ s.gateway
  unfolding finish
  finish_dependent request (ok response) s = refl
  finish_dependent request (raise x) s = refl

  invoke_as-dependent :
      (request : Request) (s : Service w a) → (invoke_as w a request false s).1.gateway ≡ s.gateway
  unfolding invoke_as consult respond
  invoke_as-dependent request s =
      let (r, (sessions, inner)) = a.invoke request (s.sessions, s.inner) in
      finish_dependent request r (record s { sessions = sessions; inner = inner })

  -- A question inside a conversation does not touch the cache, in either direction: with
  -- conversation memory on and a turn of the session in it, the gateway is what it was before.
  pub invoke-bypass :
      (request : Request) (s : Service w a)
      → a.memory_enabled ≡ true
      → is_blank request.session_id ≡ false
      → is_empty (history a.memory request.session_id 1 s.sessions) ≡ false
      → (invoke w a request s).1.gateway ≡ s.gateway
  unfolding invoke
  invoke-bypass request s on named spoken =
      subst (λ (alone : Bool). (invoke_as w a request alone s).1.gateway ≡ s.gateway)
        (sym (dependent request s on named spoken)) (invoke_as-dependent request s)

  remember_turn-IsValid :
      (session_id : String) (role : Role) (content : String) (d : Sessions)
      → 0 < a.memory.max_sessions
      → IsValid a.memory d
      → IsValid a.memory (remember_turn w a session_id role content d)
  unfolding remember_turn
  remember_turn-IsValid session_id role content d room h = elim (Bool-cases (is_blank content)) [
    | inl blank ↦ rw (blank, remember_turn) h
    | inr said ↦
        rw (said, remember_turn)
          (append-IsValid a.memory (memory_record session_id role content) d room h)
  ]

  history-remember_turn :
      (session_id : String) (role : Role) (content : String) (d : Sessions)
      → strip session_id ≡ session_id
      → 0 < a.memory.max_sessions
      → 0 < a.memory.short_term_turns
      → IsValid a.memory d
      → (is_blank content ≡ false) ⊎ (is_empty (history a.memory session_id 1 d) ≡ false)
      → is_empty (history a.memory session_id 1 (remember_turn w a session_id role content d))
        ≡ false
  unfolding remember_turn memory_record
  history-remember_turn session_id role content d stripped room space h known =
      elim (Bool-cases (is_blank content)) [
        | inl blank ↦
            rw (blank, remember_turn)
              (elim known [ inl said ↦ absurd (cc (blank, said)) | inr before ↦ before ])
        | inr said ↦
            rw (said, remember_turn)
              (subst
                (λ (id : String).
                  is_empty (
                    history a.memory id 1
                      (append a.memory (memory_record session_id role content) d))
                  ≡ false)
                stripped
                (history-append a.memory (memory_record session_id role content) d room space h))
      ]

  consult-sessions :
      (request : Request) (alone : Bool) (s : Service w a)
      → (consult w a request alone s).1.sessions ≡ s.sessions
  unfolding consult
  consult-sessions request false s = refl
  consult-sessions request true s = elim (Bool-cases w.settings.enabled) [
    | inl enabled ↦ rw (enabled, consult) refl
    | inr disabled ↦ rw (disabled, consult) refl
  ]

  remember-spoken :
      (request : Request) (answer : String) (s : Service w a)
      → 0 < a.memory.max_sessions
      → 0 < a.memory.short_term_turns
      → IsValid a.memory s.sessions
      → a.memory_enabled ≡ true
      → is_blank request.session_id ≡ false
      → strip request.session_id ≡ request.session_id
      → is_blank request.query ≡ false
      → is_empty (history a.memory request.session_id 1 (remember w a request answer s).sessions)
        ≡ false
  unfolding remember
  remember-spoken request answer s room space valid on named stripped asked =
      let asking = remember_turn w a request.session_id user request.query s.sessions in
      let heard : is_empty (history a.memory request.session_id 1 asking) ≡ false =
        history-remember_turn request.session_id user request.query s.sessions stripped room space
          valid (inl asked) in
      let answered =
        history-remember_turn request.session_id assistant answer asking stripped room space
          (remember_turn-IsValid request.session_id user request.query s.sessions room valid)
          (inr heard) in
      let written : (not a.memory_enabled || is_blank request.session_id) ≡ false =
        simp (on, named) in
      rw (remember, written) answered

  served-spoken :
      (request : Request) (alone : Bool) (found : Option (Hit w)) (hit : Hit w) (s : Service w a)
      → found ≡ some hit
      → is_empty
          (history a.memory request.session_id 1 (remember w a request hit.entry.answer s).sessions)
        ≡ false
      → is_empty
          (history a.memory request.session_id 1 (respond w a request alone found s).1.sessions)
        ≡ false
  unfolding respond
  served-spoken request alone none hit s e h = absurd (cc e)
  served-spoken request alone (some found) hit s e h =
      subst
        (λ (x : Option (Hit w)).
          is_empty
            (history a.memory request.session_id 1 (respond w a request alone x s).1.sessions)
          ≡ false)
        (sym e) h

  -- After a question with text was answered from the cache, with conversation memory on and a named
  -- session, the next question of the session does not touch the cache: the hit is part of
  -- the conversation although the graph did not run.
  pub invoke-remembers :
      (request : Request) (next_query : String) (s : Service w a) (hit : Hit w)
      → 0 < a.memory.max_sessions
      → 0 < a.memory.short_term_turns
      → IsValid a.memory s.sessions
      → a.memory_enabled ≡ true
      → is_blank request.session_id ≡ false
      → strip request.session_id ≡ request.session_id
      → is_blank request.query ≡ false
      → (consult w a request (is_standalone w a request s) s).0 ≡ some hit
      → (invoke w a (record request { query = next_query }) (invoke w a request s).1).1.gateway
        ≡ (invoke w a request s).1.gateway
  unfolding invoke invoke_as
  invoke-remembers request next_query s hit room space valid on named stripped asked found =
      invoke-bypass (record request { query = next_query }) (invoke w a request s).1 on named
        (let alone = is_standalone w a request s in
          let s' = (consult w a request alone s).1 in
          served-spoken request alone (consult w a request alone s).0 hit s' found (
            remember-spoken request hit.entry.answer s' room space
              (subst (IsValid a.memory) (sym (consult-sessions request alone s)) valid) on named
              stripped asked))
