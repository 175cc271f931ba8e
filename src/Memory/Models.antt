-- ===== src/Memory/Models.antt =====
-- app/memory/models.py and app/memory/base.py: records, user facts and the read-side snapshot.
-- The schemas strip the white space round every text that they are built from.
pub mod Facts
use agentic_rag.Prelude.{
  ℕ, zero, suc, String, Bool, true, not, List, [], ◌∷◌, map, ◌&&◌, ◌||◌, length, from_end, is_empty,
  if◌then◌else◌,
}
use agentic_rag.Prelude.Text.{is_blank, strip, string_discrete, join, ◌<>◌}
use agentic_rag.Dict.{Dict, assign, remove, put_last}

pub data Role : Type 0 where
  user assistant : Role

pub record MemoryRecord : Type 0 where
  pub session_id : String
  pub role : Role
  pub content : String

-- `MemoryRecord(session_id=…, role=…, content=…)`
unfoldable pub memory_record : String → Role → String → MemoryRecord
unfolding strip
memory_record session_id role content = record {
  session_id = strip session_id;
  role = role;
  content = strip content;
}

pub record UserFact : Type 0 where
  pub key : String
  pub value : String

-- `UserFact(key=…, value=…)`
unfoldable pub user_fact : String × String → UserFact
unfolding strip
user_fact (key, value) = record { key = strip key; value = strip value }

-- `{fact.key: fact.value for fact in facts}`, over what is built so far
unfoldable pub fact_dict : List UserFact → Dict String String → Dict String String
fact_dict [] d = d
fact_dict (fact ∷ facts) d = fact_dict facts (assign string_discrete fact.key fact.value d)

abbrev pub is_usable : UserFact → Bool
is_usable fact = not (is_blank fact.key) && not (is_blank fact.value)

-- one round of the loop: the key is popped and set again, so it stands last
unfoldable pub fold_fact : UserFact → Dict String String → Dict String String
fold_fact fact d =
    if is_usable fact
    then assign string_discrete fact.key fact.value (remove string_discrete fact.key d)
    else d

unfoldable pub fold_facts : List UserFact → Dict String String → Dict String String
unfolding fold_fact
fold_facts [] d = d
fold_facts (fact ∷ facts) d = fold_facts facts (fold_fact fact d)

-- `UserContext.merged_with`; a `UserContext` is its tuple of facts
unfoldable pub merged_with : List UserFact → List UserFact → ℕ → List UserFact
unfolding fact_dict fold_facts user_fact
merged_with facts incoming limit =
    map user_fact (from_end limit (fold_facts incoming (fact_dict facts [])))

pub record MemorySnapshot : Type 0 where
  pub summary : String
  pub recent : List MemoryRecord
  pub user_context : List UserFact
  pub turns_recorded : ℕ

-- `MemorySnapshot()`
abbrev pub empty_snapshot : MemorySnapshot
empty_snapshot = record { summary = ""; recent = []; user_context = []; turns_recorded = 0 }

-- `MemorySnapshot.is_empty`
unfoldable pub is_empty_snapshot : MemorySnapshot → Bool
is_empty_snapshot m =
    not (not (is_blank m.summary) || not (is_empty m.recent) || not (is_empty m.user_context))

-- `UserContext.describe`
abbrev pub fact_line : UserFact → String
fact_line fact = "- " <> fact.key <> ": " <> fact.value

unfoldable pub describe_facts : List UserFact → String
unfolding join
describe_facts facts = join "\n" (map fact_line facts)

abbrev pub role_text : Role → String
role_text user = "user"
role_text assistant = "assistant"

abbrev pub turn_line : MemoryRecord → String
turn_line turn = role_text turn.role <> ": " <> turn.content

-- `MemorySnapshot.describe_transcript`
unfoldable pub describe_transcript : MemorySnapshot → String
unfolding join
describe_transcript m = join "\n" (map turn_line m.recent)

-- the sections of `describe` with a body, each under its title
abbrev pub sections_of : List (String × String) → List String
sections_of [] = []
sections_of ((title, body) ∷ sections) =
    let rest = sections_of sections in
    if is_blank body then rest else (title <> ":\n" <> body) ∷ rest

-- `MemorySnapshot.describe`
unfoldable pub describe_memory : MemorySnapshot → String
unfolding is_empty_snapshot join describe_facts describe_transcript
describe_memory m =
    if is_empty_snapshot m
    then "No prior conversation."
    else join "\n\n" (
        sections_of (
          ("Conversation summary", m.summary)
          ∷ ("Known about the user", describe_facts m.user_context)
          ∷ ("Recent turns", describe_transcript m)
          ∷ []))
