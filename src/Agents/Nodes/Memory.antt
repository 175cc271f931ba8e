-- ===== src/Agents/Nodes/Memory.antt =====
-- app/agents/nodes: `MemoryLoaderNode` and `MemoryWriterNode`. The in-memory store raises nothing.
use agentic_rag.Prelude.{
  ℕ, String, Bool, true, false, not, ◌||◌, Option, none, some, [], ◌∷◌, ◌++◌, length, ltb,
  if◌then◌else◌,
}
use agentic_rag.Prelude.Text.{is_blank, strip, or_else, decimal, ◌<>◌}
use agentic_rag.Core.Errors.{ok}
use agentic_rag.Core.Exec.{Exec, pure, attempt, modify, ◌>>=◌, ◌>>◌}
use agentic_rag.Memory.Models.{
  Role, user, assistant, MemorySnapshot, empty_snapshot, memory_record, describe_transcript,
}
use agentic_rag.Memory.Store.{
  Sessions, append, snapshot, set_summary, merge_user_context, turns_since_summary,
}
use agentic_rag.Agents.Services.{Services, System, outside, rescue}
use agentic_rag.Agents.Nodes.Planning.{State}

abbrev pub summary_in : Option MemorySnapshot → String
summary_in none = ""
summary_in (some m) = m.summary

module _ (V : Services) where
  abbrev pub on_sessions : (Sessions → Sessions) → System V → System V
  on_sessions f s = record s { sessions = f s.sessions }

  abbrev pub loaded : State V → MemorySnapshot → String → State V
  loaded state m step = record state {
    memory = some m;
    trace = state.trace ++ ("memory_loader:" <> step) ∷ [];
  }

  -- `MemoryLoaderNode.__call__`
  unfoldable pub memory_loader : State V → Exec (System V) (State V)
  unfolding snapshot decimal
  memory_loader state =
      if V.settings.memory_enabled
      then (λ s.
          let m = snapshot V.settings.store state.session_id s.sessions in
          (ok (loaded state m (decimal (length m.recent))), s))
      else pure (loaded state empty_snapshot "disabled")

  unfoldable pub append_content : String → Role → String → System V → System V
  unfolding append memory_record
  append_content session_id role content s =
      if is_blank content
      then s
      else on_sessions (append V.settings.store (memory_record session_id role content)) s

  -- `_append`
  unfoldable pub append_exchange : String → String → String → System V → System V
  unfolding append_content
  append_exchange session_id query answer s =
      append_content session_id assistant answer (append_content session_id user query s)

  unfoldable pub summary_prompt : Option MemorySnapshot → MemorySnapshot → String
  unfolding describe_transcript
  summary_prompt memory m = V.render "conversation_summary" (
      ("summary", or_else (summary_in memory) "None yet.")
      ∷ ("transcript", or_else (describe_transcript m) "No turns recorded.")
      ∷ [])

  unfoldable pub write_summary :
      String → Option MemorySnapshot → MemorySnapshot → Exec (System V) Bool
  unfolding summary_prompt set_summary strip
  write_summary session_id memory m =
      rescue
        (outside V (V.complete (summary_prompt memory m) "Summarise the conversation.")
          >>= λ summary.
              (modify (on_sessions (set_summary V.settings.store session_id (strip summary)))
                >> pure true))
        (pure false)

  -- `_maybe_summarise`
  unfoldable pub maybe_summarise : String → Option MemorySnapshot → Exec (System V) Bool
  unfolding turns_since_summary write_summary snapshot
  maybe_summarise session_id memory s =
      if ltb (turns_since_summary V.settings.store session_id s.sessions)
        V.settings.summary_after_turns
      then (ok false, s)
      else write_summary session_id memory (snapshot V.settings.store session_id s.sessions) s

  -- `_maybe_extract`
  unfoldable pub maybe_extract : String → String → String → Exec (System V) ℕ
  unfolding merge_user_context
  maybe_extract session_id query answer =
      if not V.settings.extract_user_context || is_blank query
      then pure 0
      else rescue
          (outside V (
              V.user_context
                (V.render "user_context" (("question", query) ∷ ("answer", answer) ∷ [])) query)
            >>= λ facts.
                (modify (on_sessions (merge_user_context V.settings.store session_id facts))
                  >> pure (length facts)))
          (pure 0)

  abbrev pub wrote : State V → String → State V
  wrote state step = record state { trace = state.trace ++ ("memory_writer:" <> step) ∷ [] }

  unfoldable pub write_exchange : State V → Exec (System V) (State V)
  unfolding append_exchange maybe_summarise maybe_extract
  write_exchange state =
      modify (append_exchange state.session_id state.query state.answer)
      >> (maybe_summarise state.session_id state.memory >>= λ summarised.
          (maybe_extract state.session_id state.query state.answer >>= λ extracted.
          pure (wrote state "written")))

  -- `MemoryWriterNode.__call__`
  unfoldable pub memory_writer : State V → Exec (System V) (State V)
  unfolding write_exchange
  memory_writer state =
      if not V.settings.memory_enabled || is_blank state.session_id
      then pure (wrote state "disabled")
      else attempt (write_exchange state) (λ x. pure (wrote state "failed"))
