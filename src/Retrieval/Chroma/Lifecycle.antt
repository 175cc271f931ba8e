-- ===== src/Retrieval/Chroma/Lifecycle.antt =====
-- The connection of app/retrieval/chroma.py: `start`, `close` and `healthy`. The library that connects
-- is a parameter.
pub mod Opened
use agentic_rag.Prelude.{ℕ, ◌≡◌, ◌⊎◌, inl, inr, refl, String, Bool, true, false, Option, none, some}
use agentic_rag.Prelude.Floats.{Floats}
use agentic_rag.Core.Errors.{Exc, Result, ok, raise, configuration_error, dependency_error}
use agentic_rag.Core.Exec.{Exec, pure, fail, attempt, inside, continue, handled, ◌>>=◌, ◌>>◌}
use agentic_rag.Retrieval.Chroma.{Collection}

-- `ChromaSettings`
pub record ChromaSettings : Type 0 where
  pub host : Option String
  pub port : Option ℕ
  pub persist_directory : String
  pub collection : String

module _ (F : Floats) (World : Type 0) where
  -- a client: the methods that the store calls
  pub record Client : Type 0 where
    pub get_or_create_collection : String → String → Exec World (Collection F World)
    pub heartbeat : Exec World (Unit {0})

  -- the library: its two ways to connect
  pub record Library : Type 0 where
    pub http_client : String → ℕ → Exec World Client
    pub persistent_client : String → Exec World Client

  -- what `start` and `close` change, beside the world
  pub record Connection : Type 0 where
    pub client : Option Client
    pub collection : Option (Collection F World)
    pub world : World

module _ (F : Floats) {World : Type 0} (settings : ChromaSettings) (library : Library F World) where
  abbrev pub outside : {A : Type 0} → Exec World A → Exec (Connection F World) A
  outside m = inside (λ s. s.world) (λ s w. record s { world = w }) m

  -- `_connect` to a host
  abbrev pub connect_to : Option ℕ → String → Exec World (Client F World)
  connect_to none host = fail configuration_error
  connect_to (some port) host = library.http_client host port

  -- `_connect`
  abbrev pub connect_by : Option String → Exec World (Client F World)
  connect_by none = library.persistent_client settings.persist_directory
  connect_by (some host) = connect_to settings.port host

  -- `_open_collection`, with the distance space of the store
  abbrev pub open_collection : Client F World → Exec World (Collection F World)
  open_collection client = client.get_or_create_collection settings.collection "cosine"

  -- the `try` of `start`: each attribute is set as soon as its value is there
  unfoldable pub open_store : Exec (Connection F World) (Unit {0})
  open_store = outside (connect_by settings.host) >>= λ client s.
      (outside (open_collection client) >>= λ collection t.
      (ok tt, record t { collection = some collection }))
        (record s { client = some client })

  -- the handlers of `start`
  abbrev pub not_opened : Exc → Exec (Connection F World) (Unit {0})
  not_opened configuration_error = fail configuration_error
  not_opened _ = fail dependency_error

  -- `start`
  unfoldable pub start : Exec (Connection F World) (Unit {0})
  unfolding open_store
  start = attempt open_store not_opened

  -- `close`
  unfoldable pub close : Exec (Connection F World) (Unit {0})
  close s = (ok tt, record s { client = none; collection = none })

  -- the heartbeat of a client, if there is one
  abbrev pub beats : Option (Client F World) → Exec (Connection F World) Bool
  beats none = pure false
  beats (some client) = attempt (outside client.heartbeat >> pure true) (λ x. pure false)

  -- `healthy`
  unfoldable pub healthy : Exec (Connection F World) Bool
  healthy s = beats s.client s
