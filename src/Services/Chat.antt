-- ===== src/Services/Chat.antt =====
-- app/services/llm.py: free and structured replies of a chat model. The client of the provider is a
-- parameter; the records of prompts and usage are left out.
pub mod Dependable
use agentic_rag.Prelude.{
  String, Bool, true, false, ◌||◌, Option, none, some, List, [], ◌∷◌, if◌then◌else◌,
}
use agentic_rag.Prelude.Text.{◌<>◌}
use agentic_rag.Core.Errors.{Exc, Result, ok, raise, configuration_error, dependency_error}
use agentic_rag.Core.Exec.{Exec, pure, fail, attempt, ◌>>=◌, ◌>>◌}
use agentic_rag.Services.{not_reached}

-- a block of a reply: a text, a dictionary with a text or without, or anything else
pub data Block : Type 0 where
  text_block : String → Block
  dict_block : Option String → Block
  other_block : Block

-- the content of a reply: a text, a list of blocks, or anything else, by its `str`
pub data Content : Type 0 where
  text_content : String → Content
  block_content : List Block → Content
  other_content : String → Content

-- what is sent to the model
pub data ChatMessage : Type 0 where
  system_message human_message : String → ChatMessage

-- a structured reply: the envelope with the parsed value, if there is one, and whether there is a
-- parsing error; or the parsed value alone
pub data Envelope (A : Type 0) : Type 0 where
  enveloped : Option A → Bool → Envelope A
  bare : Option A → Envelope A

-- `_messages`
abbrev pub messages : String → String → List ChatMessage
messages system user = system_message system ∷ human_message user ∷ []

-- `"".join(parts)` over the blocks that have a text
unfoldable pub joined : List Block → String
joined [] = ""
joined (text_block text ∷ blocks) = text <> joined blocks
joined (dict_block none ∷ blocks) = joined blocks
joined (dict_block (some text) ∷ blocks) = text <> joined blocks
joined (other_block ∷ blocks) = joined blocks

-- `_text_of`
unfoldable pub text_of : Content → String
unfolding joined
text_of (text_content text) = text
text_of (block_content blocks) = joined blocks
text_of (other_content text) = text

-- `_unwrap`
unfoldable pub unwrap : {A : Type 0} → Envelope A → Option A × Bool
unwrap (enveloped parsed failed) = (parsed, failed)
unwrap (bare parsed) = (parsed, false)

-- the client: its free reply
pub record ChatClient (World : Type 0) : Type 0 where
  pub ainvoke : List ChatMessage → Exec World Content

-- the service, started or not, and the two classes of errors that it names
pub record ChatService (World : Type 0) : Type 0 where
  pub client : Option (ChatClient World)
  pub is_provider_error : Exc → Bool
  pub is_schema_error : Exc → Bool

-- the value of a structured reply, if it has one and no error
abbrev pub checked : {W A : Type 0} → Option A × Bool → Exec W A
checked (some value, false) = pure value
checked _ = fail dependency_error

module _ {World : Type 0} (service : ChatService World) where
  -- `start`, with the key of the settings and the constructor of the client
  unfoldable pub start : Option String → (String → ChatClient World) → Result (ChatService World)
  start none build = raise configuration_error
  start (some api_key) build = ok (record service { client = some (build api_key) })

  -- `close`
  unfoldable pub close : ChatService World
  close = record service { client = none }

  -- the handlers round a free reply
  abbrev pub not_answered : {A : Type 0} → Exc → Exec World A
  not_answered x = if service.is_provider_error x then fail dependency_error else fail x

  -- the handlers round a structured reply
  abbrev pub not_structured : {A : Type 0} → Exc → Exec World A
  not_structured x =
      if service.is_provider_error x || service.is_schema_error x
      then fail dependency_error
      else fail x

  -- `complete`
  unfoldable pub complete : String → String → Exec World String
  unfolding text_of
  complete system user = elim (service.client) [
    | none ↦ fail configuration_error
    | some c ↦ attempt (c.ainvoke (messages system user)) not_answered >>= λ m. pure (text_of m)
  ]

  -- `structured`, with the client's `with_structured_output` for the schema
  unfoldable pub structured :
      {A : Type 0}
      → (ChatClient World → List ChatMessage → Exec World (Envelope A))
      → String
      → String
      → Exec World A
  unfolding unwrap
  structured runnable system user = elim (service.client) [
    | none ↦ fail configuration_error
    | some c ↦
        attempt (runnable c (messages system user)) not_structured >>= λ e. checked (unwrap e)
  ]

  -- `healthy`
  unfoldable pub healthy : Bool
  healthy = elim (service.client) [ none ↦ false | some c ↦ true ]

  -- `probe`
  unfoldable pub probe : Exec World Bool
  unfolding complete healthy
  probe =
      if healthy
      then attempt
          (complete "You are a health probe." "Reply with the single word: ok" >> pure true)
          not_reached
      else pure false
