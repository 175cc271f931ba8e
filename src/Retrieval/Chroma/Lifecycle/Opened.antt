-- ===== src/Retrieval/Chroma/Lifecycle/Opened.antt =====
-- What `start` of app/retrieval/chroma.py leaves, whether it succeeds or not.
use agentic_rag.Prelude.{◌≡◌, ◌⊎◌, inl, inr, refl, some, none}
use agentic_rag.Prelude.Floats.{Floats}
use agentic_rag.Core.Errors.{Exc, Result, ok, raise, configuration_error, dependency_error}
use agentic_rag.Core.Exec.{continue, handled}
use agentic_rag.Retrieval.Chroma.{Collection}
use agentic_rag.Retrieval.Chroma.Lifecycle.{
  ChromaSettings, Client, Library, Connection, connect_by, open_collection, not_opened, open_store,
  start,
}

module _ (F : Floats) {World : Type 0} (settings : ChromaSettings) (library : Library F World) where
  -- a store that is not started
  abbrev pub closed : World → Connection F World
  closed w = record { client = none; collection = none; world = w }

  -- a client and a collection are held
  pub record IsOpen (s : Connection F World) : Type 0 where
    pub held_client : Client F World
    pub held_collection : Collection F World
    pub has_client : s.client ≡ some held_client
    pub has_collection : s.collection ≡ some held_collection

  -- started and open, or refused by one of two errors and without a collection
  abbrev pub IsStarted : Result (Unit {0}) × Connection F World → Type 0
  IsStarted (ok u, s) = IsOpen s
  IsStarted (raise x, s) =
      ((x ≡ configuration_error) ⊎ (x ≡ dependency_error)) × (s.collection ≡ none)

  not_opened-IsStarted :
      (x : Exc) (s : Connection F World)
      → s.collection ≡ none
      → IsStarted (not_opened F settings library x s)
  not_opened-IsStarted configuration_error s h = (inl refl, h)
  not_opened-IsStarted dependency_error s h = (inr refl, h)
  not_opened-IsStarted _ s h = (inr refl, h)

  opened-IsStarted :
      (client : Client F World) (r : Result (Collection F World)) (w : World)
      → let held : Connection F World = record (closed w) { client = some client } in
        let out =
          continue r (λ collection t. (ok tt, record t { collection = some collection })) held in
        IsStarted (handled (not_opened F settings library) out.0 out.1)
  opened-IsStarted client (ok k) w = record {
    held_client = client;
    held_collection = k;
    has_client = refl;
    has_collection = refl;
  }
  opened-IsStarted client (raise x) w = not_opened-IsStarted x _ refl

  -- what `start` does with a client
  abbrev opening : Client F World → Connection F World → Result (Unit {0}) × Connection F World
  opening client s =
      let held : Connection F World = record s { client = some client } in
      let (r, w) = open_collection F settings library client held.world in
      continue r (λ collection t. (ok tt, record t { collection = some collection }))
        (record held { world = w })

  connected-IsStarted :
      (r : Result (Client F World)) (w : World)
      → let out = continue r opening (closed w) in
        IsStarted (handled (not_opened F settings library) out.0 out.1)
  connected-IsStarted (ok client) w =
      let (r, v) = open_collection F settings library client w in opened-IsStarted client r v
  connected-IsStarted (raise x) w = not_opened-IsStarted x _ refl

  -- Whatever the library raises, starting a closed store either leaves it open, with a client and a
  -- collection, or raises a configuration or dependency error and leaves it without a collection.
  pub start-IsStarted : (w : World) → IsStarted (start F settings library (closed w))
  unfolding start open_store
  start-IsStarted w =
      let (r, v) = connect_by F settings library settings.host w in connected-IsStarted r v
