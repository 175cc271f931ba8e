-- ===== src/Memory/Store.antt =====
-- app/memory/store.py: `InMemoryStore`. Each operation runs under the lock, as one step.
pub mod Update
pub mod Bounds
pub mod Window
use agentic_rag.Prelude.{
  ℕ, zero, suc, ◌+◌, ◌-◌, String, Option, none, some, List, [], ◌∷◌, ◌++◌, length, last, from_end,
  is_empty, ltb, if◌then◌else◌,
}
use agentic_rag.Prelude.Text.{string_discrete}
use agentic_rag.Dict.{Dict, get, remove, assign, move_to_end}
use agentic_rag.Memory.Models.{MemoryRecord, UserFact, MemorySnapshot, empty_snapshot, merged_with}

-- the parts of `MemorySettings` that size the store
pub record StoreSettings : Type 0 where
  pub short_term_turns : ℕ
  pub max_user_facts : ℕ
  pub max_sessions : ℕ

-- `_Session`; `turns` is a deque of at most `short_term_turns` records
pub record Session : Type 0 where
  pub turns : List MemoryRecord
  pub summary : String
  pub user_context : List UserFact
  pub turns_recorded : ℕ
  pub turns_summarised : ℕ

abbrev pub Sessions : Type 0
Sessions = Dict String Session

abbrev pub fresh : Session
fresh = record {
  turns = [];
  summary = "";
  user_context = [];
  turns_recorded = 0;
  turns_summarised = 0;
}

-- `deque(maxlen=n).append(x)`
unfoldable pub deque_append : ℕ → List MemoryRecord → MemoryRecord → List MemoryRecord
unfolding last
deque_append maxlen turns x = last maxlen (turns ++ x ∷ [])

-- `popitem(last=False)` on a dictionary that is not empty
abbrev pub pop_oldest : Sessions → Sessions
pop_oldest [] = []
pop_oldest (e ∷ d) = d

module _ (settings : StoreSettings) where
  -- `_session`: the session, fetched or created, and the sessions with it at the end
  unfoldable pub open_session : String → Sessions → Session × Sessions
  open_session id sessions = elim (get string_discrete id sessions) [
    | some session ↦ (session, move_to_end string_discrete id sessions)
    | none ↦
        let grown = assign string_discrete id fresh sessions in
        (
          fresh,
          move_to_end string_discrete id
              (if ltb settings.max_sessions (length grown) then pop_oldest grown else grown),
        )
  ]

  -- the session of `_session` is changed in place
  unfoldable pub update_session : String → (Session → Session) → Sessions → Sessions
  unfolding open_session
  update_session id f sessions =
      let (session, opened) = open_session id sessions in
      assign string_discrete id (f session) opened

  abbrev pub add_turn : MemoryRecord → Session → Session
  add_turn turn session = record session {
    turns = deque_append settings.short_term_turns session.turns turn;
    turns_recorded = session.turns_recorded + 1;
  }

  unfoldable pub append : MemoryRecord → Sessions → Sessions
  unfolding update_session deque_append
  append turn sessions = update_session turn.session_id (add_turn turn) sessions

  -- `history`
  unfoldable pub history : String → ℕ → Sessions → List MemoryRecord
  history id limit sessions = elim (get string_discrete id sessions) [
    | none ↦ []
    | some session ↦ from_end limit session.turns
  ]

  unfoldable pub clear : String → Sessions → Sessions
  clear id sessions = remove string_discrete id sessions

  unfoldable pub snapshot : String → Sessions → MemorySnapshot
  snapshot id sessions = elim (get string_discrete id sessions) [
    | none ↦ empty_snapshot
    | some session ↦ record {
      summary = session.summary;
      recent = from_end settings.short_term_turns session.turns;
      user_context = session.user_context;
      turns_recorded = session.turns_recorded;
    }
  ]

  abbrev pub summarised : String → Session → Session
  summarised summary session = record session {
    summary = summary;
    turns_summarised = session.turns_recorded;
  }

  unfoldable pub set_summary : String → String → Sessions → Sessions
  unfolding update_session
  set_summary id summary sessions = update_session id (summarised summary) sessions

  abbrev pub with_facts : List UserFact → Session → Session
  with_facts facts session = record session {
    user_context = merged_with session.user_context facts settings.max_user_facts;
  }

  unfoldable pub merge_user_context : String → List UserFact → Sessions → Sessions
  unfolding update_session merged_with
  merge_user_context id facts sessions =
      if is_empty facts then sessions else update_session id (with_facts facts) sessions

  unfoldable pub turns_since_summary : String → Sessions → ℕ
  turns_since_summary id sessions = elim (get string_discrete id sessions) [
    | none ↦ 0
    | some session ↦ session.turns_recorded - session.turns_summarised
  ]

  -- `sessions`
  unfoldable pub session_count : Sessions → ℕ
  session_count sessions = length sessions
