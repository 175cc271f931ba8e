-- ===== src/Memory/Store/Window.antt =====
-- Which turns a session holds after any sequence of changes: app/memory/store.py.
use agentic_rag.Prelude.{
  ℕ, ◌+◌, ◌<◌, ◌≡◌, ◌≢◌, refl, sym, ap, subst, String, some, List, [], ◌∷◌, ◌++◌, arith, length,
  ite, last, drop, drop-append, last-last_append, length-append, inl, inr, Option-cases,
}
use agentic_rag.Prelude.Text.{string_discrete}
use agentic_rag.Dict.{get}
use agentic_rag.Dict.Lookup.{get-remove}
use agentic_rag.Memory.Models.{MemoryRecord, UserFact}
use agentic_rag.Memory.Store.{
  StoreSettings, Session, Sessions, fresh, deque_append, update_session, add_turn, append, clear,
  set_summary, summarised, with_facts, merge_user_context,
}
use agentic_rag.Memory.Store.Update.{kept, current, get-kept_self, update_session_lem}
use agentic_rag.Memory.Store.Bounds.{
  IsValid, get-kept, found_in_append, append-IsValid, set_summary-IsValid,
  merge_user_context-IsValid, clear-IsValid,
}

-- the operations that change the store
pub data Change : Type 0 where
  appended : MemoryRecord → Change
  summary_set : String → String → Change
  facts_merged : String → List UserFact → Change
  cleared : String → Change

unfoldable pub apply : StoreSettings → Change → Sessions → Sessions
apply settings (appended turn) d = append settings turn d
apply settings (summary_set id summary) d = set_summary settings id summary d
apply settings (facts_merged id facts) d = merge_user_context settings id facts d
apply settings (cleared id) d = clear settings id d

unfoldable pub run : StoreSettings → List Change → Sessions → Sessions
unfolding apply
run settings [] d = d
run settings (c ∷ cs) d = run settings cs (apply settings c d)

-- the turns that one change records for a session, and those of a sequence of changes
unfoldable pub recorded : String → Change → List MemoryRecord
recorded id (appended turn) = ite (string_discrete turn.session_id id) (turn ∷ []) []
recorded id (summary_set j summary) = []
recorded id (facts_merged j facts) = []
recorded id (cleared j) = []

unfoldable pub log : String → List Change → List MemoryRecord
unfolding recorded
log id [] = []
log id (c ∷ cs) = recorded id c ++ log id cs

-- the turns are the window at the end of what was logged since the session was opened, which is as many
-- turns as the session has counted
abbrev pub IsRecent : ℕ → List MemoryRecord → Session → Type 0
IsRecent n whole session =
    (k : ℕ) × (k + session.turns_recorded ≡ length whole) × (session.turns ≡ last n (drop k whole))

drop_all {ℓ} : {A : Type ℓ} (xs : List A) → drop (length xs) xs ≡ []
drop_all [] = refl
drop_all (x ∷ xs) = drop_all xs

append_nil {ℓ} : {A : Type ℓ} (xs : List A) → xs ++ [] ≡ xs
append_nil [] = refl
append_nil {A = A} (x ∷ xs) = ap (λ (r : List A). x ∷ r) (append_nil xs)

append_assoc {ℓ} : {A : Type ℓ} (xs ys zs : List A) → (xs ++ ys) ++ zs ≡ xs ++ (ys ++ zs)
append_assoc [] ys zs = refl
append_assoc {A = A} (x ∷ xs) ys zs = ap (λ (r : List A). x ∷ r) (append_assoc xs ys zs)

none-IsRecent : (n : ℕ) (whole : List MemoryRecord) → IsRecent n whole fresh
unfolding last
none-IsRecent n whole = (length whole, omega arith, rw (drop_all whole) (ground arith))

add-IsRecent :
    (settings : StoreSettings) (whole : List MemoryRecord) (s : Session) (turn : MemoryRecord)
    → IsRecent settings.short_term_turns whole s
    → IsRecent settings.short_term_turns (whole ++ turn ∷ []) (add_turn settings turn s)
unfolding deque_append
add-IsRecent settings whole s turn (k, counted, same) = (
  k,
  omega (arith, length-append whole (turn ∷ []), counted),
  rw (same, drop-append k whole (turn ∷ []) (omega (arith, counted)))
      (last-last_append settings.short_term_turns (drop k whole) turn),
)

module _ (settings : StoreSettings) where
  -- every session's turns are a window of its own log
  abbrev pub Follows : (String → List MemoryRecord) → Sessions → Type 0
  Follows whole d =
      (j : String) (s : Session)
      → get string_discrete j d ≡ some s
      → IsRecent settings.short_term_turns (whole j) s

  current-Follows :
      (whole : String → List MemoryRecord) (id : String) (d : Sessions)
      → Follows whole d
      → IsRecent settings.short_term_turns (whole id) (current id d)
  unfolding current
  current-Follows whole id d h = elim (Option-cases (get string_discrete id d)) [
    | inl missing ↦ rw (missing, current) (none-IsRecent settings.short_term_turns (whole id))
    | inr (s, found) ↦ rw (found, current) (h id s found)
  ]

  update_session-Follows :
      (whole grown : String → List MemoryRecord) (id : String) (f : Session → Session)
      (d : Sessions)
      → 0 < settings.max_sessions
      → IsValid settings d
      → Follows whole d
      → ((j : String) → (j ≢ id) → grown j ≡ whole j)
      → IsRecent settings.short_term_turns (grown id) (f (current id d))
      → Follows grown (update_session settings id f d)
  update_session-Follows whole grown id f d room valid h same mine =
      rw (update_session_lem settings id f d room valid.bounded) (λ j s p.
        elim (found_in_append settings id j (f (current id d)) s (kept settings id d) p) [
          | inl q ↦ elim (string_discrete id j) [
            | yes e ↦ absurd (let gone = get-kept_self settings id d in grind (arith, gone))
            | no ne ↦
                subst (λ (w : List MemoryRecord). IsRecent settings.short_term_turns w s)
                  (sym (same j (λ e. ne (sym e)))) (h j s (get-kept settings id j s d valid q))
          ]
          | inr (e, v) ↦
              subst (λ (i : String). IsRecent settings.short_term_turns (grown i) s) e
                (subst (λ (t : Session). IsRecent settings.short_term_turns (grown id) t) v mine)
        ])

  -- each change carries the invariant from a log to the log with its turns
  apply-Follows :
      (whole : String → List MemoryRecord) (c : Change) (d : Sessions)
      → 0 < settings.max_sessions
      → IsValid settings d
      → Follows whole d
      → Follows (λ j. whole j ++ recorded j c) (apply settings c d)
  unfolding apply recorded append set_summary clear merge_user_context
  apply-Follows whole (appended turn) d room valid h =
      update_session-Follows whole (λ j. whole j ++ recorded j (appended turn)) turn.session_id
        (add_turn settings turn) d room valid h (λ j ne. ground (arith, append_nil (whole j)))
        (let here : recorded turn.session_id (appended turn) ≡ turn ∷ [] = ground arith in
          subst
            (λ (r : List MemoryRecord).
              IsRecent settings.short_term_turns (whole turn.session_id ++ r)
                (add_turn settings turn (current turn.session_id d)))
            (sym here)
            (add-IsRecent settings (whole turn.session_id) (current turn.session_id d) turn
              (current-Follows whole turn.session_id d h)))
  apply-Follows whole (summary_set id summary) d room valid h =
      update_session-Follows whole (λ j. whole j ++ []) id (summarised settings summary) d room
        valid h (λ j ne. append_nil (whole j))
        (subst (λ (r : List MemoryRecord). IsRecent settings.short_term_turns r (current id d))
          (sym (append_nil (whole id))) (current-Follows whole id d h))
  apply-Follows whole (facts_merged id []) d room valid h = λ j s p.
      subst (λ (r : List MemoryRecord). IsRecent settings.short_term_turns r s)
        (sym (append_nil (whole j))) (h j s p)
  apply-Follows whole (facts_merged id (fact ∷ facts)) d room valid h =
      update_session-Follows whole (λ j. whole j ++ []) id (with_facts settings (fact ∷ facts)) d
        room valid h (λ j ne. append_nil (whole j))
        (subst (λ (r : List MemoryRecord). IsRecent settings.short_term_turns r (current id d))
          (sym (append_nil (whole id))) (current-Follows whole id d h))
  apply-Follows whole (cleared id) d room valid h = λ j s p.
      subst (λ (r : List MemoryRecord). IsRecent settings.short_term_turns r s)
        (sym (append_nil (whole j))) (h j s (ground (arith, get-remove string_discrete id j d)))

  apply-IsValid :
      (c : Change) (d : Sessions)
      → 0 < settings.max_sessions
      → 0 < settings.max_user_facts
      → IsValid settings d
      → IsValid settings (apply settings c d)
  unfolding apply
  apply-IsValid (appended turn) d room space h = append-IsValid settings turn d room h
  apply-IsValid (summary_set id summary) d room space h =
      set_summary-IsValid settings id summary d room h
  apply-IsValid (facts_merged id facts) d room space h =
      merge_user_context-IsValid settings id facts d room space h
  apply-IsValid (cleared id) d room space h = clear-IsValid settings id d h

  run-Follows :
      (whole : String → List MemoryRecord) (cs : List Change) (d : Sessions)
      → 0 < settings.max_sessions
      → 0 < settings.max_user_facts
      → IsValid settings d
      → Follows whole d
      → Follows (λ j. whole j ++ log j cs) (run settings cs d)
  unfolding run log
  run-Follows whole [] d room space valid h = λ j s p.
      subst (λ (r : List MemoryRecord). IsRecent settings.short_term_turns r s)
        (sym (append_nil (whole j))) (h j s p)
  run-Follows whole (c ∷ cs) d room space valid h = λ j s p.
      subst (λ (r : List MemoryRecord). IsRecent settings.short_term_turns r s)
        (append_assoc (whole j) (recorded j c) (log j cs))
        (run-Follows (λ i. whole i ++ recorded i c) cs (apply settings c d) room space
          (apply-IsValid c d room space valid) (apply-Follows whole c d room valid h) j s p)

  run-IsValid :
      (cs : List Change) (d : Sessions)
      → 0 < settings.max_sessions
      → 0 < settings.max_user_facts
      → IsValid settings d
      → IsValid settings (run settings cs d)
  unfolding run
  run-IsValid [] d room space h = h
  run-IsValid (c ∷ cs) d room space h =
      run-IsValid cs (apply settings c d) room space (apply-IsValid c d room space h)

  empty-IsValid : IsValid settings []
  unfolding get
  empty-IsValid = record {
    bounded = omega arith;
    distinct = tt;
    fits = λ id s p. absurd (ground arith);
  }

  -- After any sequence of appends, summaries, merges of facts and clears on an empty store, with room
  -- for one session and one fact, the store is within its bounds. A session that it holds has counted
  -- no more turns than were appended to it, and its turns are exactly the last `short_term_turns` of
  -- the last that many: in order, none missing, and no turn of another session among them.
  pub run-IsRecent :
      (cs : List Change)
      → 0 < settings.max_sessions
      → 0 < settings.max_user_facts
      → IsValid settings (run settings cs [])
        × ((id : String) (s : Session)
            → get string_discrete id (run settings cs []) ≡ some s
            → IsRecent settings.short_term_turns (log id cs) s)
  unfolding get
  run-IsRecent cs room space = (
    run-IsValid cs [] room space empty-IsValid,
    run-Follows (λ j. []) cs [] room space empty-IsValid (λ j s p. absurd (ground arith)),
  )
