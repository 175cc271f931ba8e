-- ===== src/Memory/Store/Bounds.antt =====
-- The sizes that every operation of the store keeps: app/memory/store.py.
use agentic_rag.Prelude.{
  ◌-◌, ◌≤◌, ◌<◌, ◌≡◌, subst, ◌⊎◌, String, none, some, List, [], ◌∷◌, ◌++◌, arith, length,
  length-last-le, length-last-le_length, length-append, inl, inr, Option-cases,
}
use agentic_rag.Prelude.Text.{string_discrete}
use agentic_rag.Dict.{get}
use agentic_rag.Dict.Lookup.{get-remove}
use agentic_rag.Dict.Trim.{get-trim}
use agentic_rag.Dict.Keys.{
  IsDistinct, Absent, length-remove-some, length-remove-le, remove-IsDistinct, trim-IsDistinct,
  remove-Absent, trim-Absent, length-trim-le, append-IsDistinct, remove-none,
}
use agentic_rag.Memory.Models.{MemoryRecord, UserFact}
use agentic_rag.Memory.Models.Facts.{length-merged_with-le}
use agentic_rag.Memory.Store.{
  StoreSettings, Session, Sessions, fresh, deque_append, update_session, add_turn, append, clear,
  set_summary, summarised, with_facts, merge_user_context,
}
use agentic_rag.Memory.Store.Update.{kept, current, update_session_lem}

pub record FitsSession (settings : StoreSettings) (s : Session) : Type 0 where
  pub window : length s.turns ≤ settings.short_term_turns
  pub recorded : length s.turns ≤ s.turns_recorded
  pub covered : s.turns_summarised ≤ s.turns_recorded
  pub facts : length s.user_context ≤ settings.max_user_facts

pub record IsValid (settings : StoreSettings) (d : Sessions) : Type 0 where
  pub bounded : length d ≤ settings.max_sessions
  pub distinct : IsDistinct d
  pub fits :
      (id : String) (s : Session) → get string_discrete id d ≡ some s → FitsSession settings s

module _ (settings : StoreSettings) where
  fresh-FitsSession : FitsSession settings fresh
  fresh-FitsSession = record {
    window = omega arith;
    recorded = omega arith;
    covered = omega arith;
    facts = omega arith;
  }

  current-FitsSession :
      (id : String) (d : Sessions) → IsValid settings d → FitsSession settings (current id d)
  unfolding current
  current-FitsSession id d h = elim (Option-cases (get string_discrete id d)) [
    | inl missing ↦ rw (missing, current) fresh-FitsSession
    | inr (s, found) ↦ rw (found, current) (h.fits id s found)
  ]

  Absent-of_none : (id : String) (d : Sessions) → get string_discrete id d ≡ none → Absent id d
  Absent-of_none id d h =
      subst (λ (e : Sessions). Absent id e) (remove-none string_discrete id d h)
        (remove-Absent string_discrete id d)

  kept_lem :
      (id : String) (d : Sessions)
      → 0 < settings.max_sessions
      → IsValid settings d
      → (length (kept settings id d) < settings.max_sessions)
        × IsDistinct (kept settings id d)
        × Absent id (kept settings id d)
  unfolding kept
  kept_lem id d room h = elim (Option-cases (get string_discrete id d)) [
    | inl missing ↦
        let bound = settings.max_sessions - 1 in
        rw (missing, kept)
          (
            omega (arith, length-trim-le bound d),
            trim-IsDistinct string_discrete bound d h.distinct,
            trim-Absent string_discrete bound id d (Absent-of_none id d missing),
          )
    | inr (s, found) ↦
        rw (found, kept)
          (
            omega (arith, h.bounded, length-remove-some string_discrete id s d found),
            remove-IsDistinct string_discrete id d h.distinct,
            remove-Absent string_discrete id d,
          )
  ]

  pub get-kept :
      (id j : String) (s : Session) (d : Sessions)
      → IsValid settings d
      → get string_discrete j (kept settings id d) ≡ some s
      → get string_discrete j d ≡ some s
  unfolding kept
  get-kept id j s d h = elim (Option-cases (get string_discrete id d)) [
    | inl missing ↦
        rw (missing, kept)
          (λ p. get-trim string_discrete (settings.max_sessions - 1) j s d h.distinct p)
    | inr (t, found) ↦ rw (found, kept) (λ p. ground (arith, get-remove string_discrete id j d))
  ]

  pub found_in_append :
      (id j : String) (v s : Session) (c : Sessions)
      → get string_discrete j (c ++ (id, v) ∷ []) ≡ some s
      → (get string_discrete j c ≡ some s) ⊎ ((id ≡ j) × (v ≡ s))
  unfolding get
  found_in_append id j v s [] p = ground arith
  found_in_append id j v s (e ∷ c) p = ground (arith, found_in_append id j v s c)

  pub update_session-IsValid :
      (id : String) (f : Session → Session) (d : Sessions)
      → 0 < settings.max_sessions
      → ((s : Session) → FitsSession settings s → FitsSession settings (f s))
      → IsValid settings d
      → IsValid settings (update_session settings id f d)
  update_session-IsValid id f d room keeps h =
      let (small, distinct, absent) = kept_lem id d room h in
      rw (update_session_lem settings id f d room h.bounded) (record {
        bounded = omega (arith, length-append (kept settings id d) ((id, f (current id d)) ∷ []));
        distinct =
            append-IsDistinct string_discrete id (f (current id d)) (kept settings id d) distinct
              absent;
        fits = λ j s p. elim (found_in_append id j (f (current id d)) s (kept settings id d) p) [
          | inl q ↦ h.fits j s (get-kept id j s d h q)
          | inr (e', e) ↦
              subst (FitsSession settings) e (keeps (current id d) (current-FitsSession id d h))
        ];
      })

  -- Starting from a store within its bounds, an append leaves a store within its bounds: at most
  -- `max_sessions` sessions under different keys, and in each session at most `short_term_turns`
  -- turns, no more turns than were recorded, no more summarised than recorded, and at most
  -- `max_user_facts` facts.
  pub append-IsValid :
      (turn : MemoryRecord) (d : Sessions)
      → 0 < settings.max_sessions
      → IsValid settings d
      → IsValid settings (append settings turn d)
  unfolding append deque_append
  append-IsValid turn d room h =
      update_session-IsValid turn.session_id (add_turn settings turn) d room
        (λ s fit. record {
          window = length-last-le settings.short_term_turns (s.turns ++ turn ∷ []);
          recorded = omega (
            arith,
            fit.recorded,
            length-last-le_length settings.short_term_turns (s.turns ++ turn ∷ []),
            length-append s.turns (turn ∷ []),
          );
          covered = omega (arith, fit.covered);
          facts = fit.facts;
        })
        h

  -- A new summary keeps the store within its bounds.
  pub set_summary-IsValid :
      (id summary : String) (d : Sessions)
      → 0 < settings.max_sessions
      → IsValid settings d
      → IsValid settings (set_summary settings id summary d)
  unfolding set_summary
  set_summary-IsValid id summary d room h =
      update_session-IsValid id (summarised settings summary) d room
        (λ s fit. record {
          window = fit.window;
          recorded = fit.recorded;
          covered = omega arith;
          facts = fit.facts;
        })
        h

  -- Merging facts keeps the store within its bounds, whatever facts come in.
  pub merge_user_context-IsValid :
      (id : String) (facts : List UserFact) (d : Sessions)
      → 0 < settings.max_sessions
      → 0 < settings.max_user_facts
      → IsValid settings d
      → IsValid settings (merge_user_context settings id facts d)
  unfolding merge_user_context
  merge_user_context-IsValid id [] d room space h = h
  merge_user_context-IsValid id (fact ∷ facts) d room space h =
      update_session-IsValid id (with_facts settings (fact ∷ facts)) d room
        (λ s fit. record {
          window = fit.window;
          recorded = fit.recorded;
          covered = fit.covered;
          facts = length-merged_with-le s.user_context (fact ∷ facts) settings.max_user_facts space;
        })
        h

  -- Clearing a session keeps the store within its bounds.
  pub clear-IsValid :
      (id : String) (d : Sessions) → IsValid settings d → IsValid settings (clear settings id d)
  unfolding clear
  clear-IsValid id d h = record {
    bounded = omega (arith, h.bounded, length-remove-le string_discrete id d);
    distinct = remove-IsDistinct string_discrete id d h.distinct;
    fits = λ j s p. h.fits j s (ground (arith, get-remove string_discrete id j d));
  }
