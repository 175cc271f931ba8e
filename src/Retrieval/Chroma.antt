-- ===== src/Retrieval/Chroma.antt =====
-- app/retrieval/chroma.py: the vector store over a Chroma collection. The collection is a parameter,
-- and each of its methods may raise.
pub mod Matches
pub mod Rejections
pub mod Lifecycle
use agentic_rag.Prelude.{
  ℕ, zero, suc, String, Bool, true, false, not, Option, none, some, List, [], ◌∷◌, map, any,
  is_empty, if◌then◌else◌,
}
use agentic_rag.Prelude.Floats.{Floats}
use agentic_rag.Dict.{Dict}
use agentic_rag.Core.Errors.{Exc, configuration_error, dependency_error}
use agentic_rag.Core.Exec.{Exec, pure, fail, attempt, ◌>>=◌}
use agentic_rag.Core.Retry.{with_retry}
use agentic_rag.Retrieval.Base.{Document, document_of, ScoredDocument, VectorMatch, as_scored}
use agentic_rag.Retrieval.Filters.{Clause}

-- one key of a response: rows by query, each of them perhaps absent
abbrev pub Rows : Type 0 → Type 0
Rows A = Option (List (Option (List A)))

-- a response to a query: parallel arrays
pub record Response (Float : Type 0) : Type 0 where
  pub ids : Rows String
  pub documents : Rows (Option String)
  pub metadatas : Rows (Option (Dict String String))
  pub distances : Rows Float
  pub embeddings : Rows (List Float)

-- the arguments of a query
pub record StoreQuery (Float : Type 0) : Type 0 where
  pub embedding : List Float
  pub n_results : ℕ
  pub filters : Option Clause
  pub contains : Option String
  pub with_embeddings : Bool

-- the arguments of an upsert
pub record Rowset (Float : Type 0) : Type 0 where
  pub ids : List String
  pub documents : List String
  pub metadatas : Option (List (Option (Dict String String)))
  pub embeddings : List (List Float)

-- `_row`
unfoldable pub row : {A : Type 0} → Rows A → List A
row none = []
row (some []) = []
row (some (none ∷ rows)) = []
row (some (some items ∷ rows)) = items

-- `items[index] if index < len(items) else default`
unfoldable pub item_or : {A : Type 0} → A → List A → ℕ → A
item_or default [] i = default
item_or default (x ∷ xs) zero = x
item_or default (x ∷ xs) (suc i) = item_or default xs i

abbrev pub text_or : Option String → String
text_or none = ""
text_or (some text) = text

abbrev pub dict_or : Option (Dict String String) → Dict String String
dict_or none = []
dict_or (some d) = d

abbrev pub present : {A : Type 0} → A → Option A
present a = some a

-- `dict(d.metadata) or None`
abbrev pub metadata_row : Document → Option (Dict String String)
metadata_row d = if is_empty d.metadata then none else some d.metadata

abbrev pub is_present : {A : Type 0} → Option A → Bool
is_present none = false
is_present (some a) = true

-- `_metadatas`
unfoldable pub metadatas_of : List Document → Option (List (Option (Dict String String)))
metadatas_of documents =
    let rows = map metadata_row documents in if any is_present rows then some rows else none

module _ (F : Floats) where
  open F use {Float, nil, unit, sub, leb}

  -- `distance_to_score` of app/retrieval/similarity.py
  unfoldable pub distance_to_score : Float → Float
  distance_to_score distance =
      let complement = sub unit distance in
      let raised = if leb complement nil then nil else complement in
      if leb unit raised then unit else raised

  -- one match, at its index in the arrays
  unfoldable pub match_at : Response Float → ℕ → String → VectorMatch Float
  unfolding row item_or distance_to_score document_of
  match_at r index id = record {
    document =
        document_of id (text_or (item_or (some "") (row r.documents) index))
          (dict_or (item_or none (row r.metadatas) index));
    score = distance_to_score (item_or nil (row r.distances) index);
    embedding = item_or none (map present (row r.embeddings)) index;
  }

  unfoldable pub matches_from : Response Float → ℕ → List String → List (VectorMatch Float)
  unfolding match_at
  matches_from r index [] = []
  matches_from r index (id ∷ ids) = match_at r index id ∷ matches_from r (suc index) ids

  -- `_to_matches`
  unfoldable pub to_matches : Response Float → List (VectorMatch Float)
  unfolding matches_from row
  to_matches r = matches_from r 0 (row r.ids)

  -- the methods of a collection
  pub record Collection (World : Type 0) : Type 0 where
    pub query : StoreQuery Float → Exec World (Response Float)
    pub upsert : Rowset Float → Exec World (Unit {0})
    pub delete : List String → Exec World (Unit {0})
    pub count : Exec World ℕ

  -- the store, once started or not; the embedding service; the retries and their sleep
  pub record Store (World : Type 0) : Type 0 where
    pub collection : Option (Collection World)
    pub embed_text : String → Exec World (List Float)
    pub embed_texts : List String → Exec World (List (List Float))
    pub max_attempts : ℕ
    pub sleep : ℕ → World → World

  module _ {World : Type 0} (store : Store World) where
    -- `call` of `_invoke`: whatever the client raises is wrapped
    unfoldable pub wrapped : {A : Type 0} → Exec World A → Exec World A
    wrapped call = attempt call (λ x. fail dependency_error)

    -- `_invoke`
    unfoldable pub invoke : {A : Type 0} → (Collection World → Exec World A) → Exec World A
    unfolding wrapped with_retry
    invoke method = elim (store.collection) [
      | none ↦ fail configuration_error
      | some c ↦ with_retry store.sleep (wrapped (method c)) store.max_attempts
    ]

    -- `search_by_vector`
    unfoldable pub search_by_vector : StoreQuery Float → Exec World (List (VectorMatch Float))
    unfolding invoke to_matches
    search_by_vector q = elim (q.n_results) [
      | zero ↦ pure []
      | suc n ↦ invoke (λ c. c.query q) >>= λ response. pure (to_matches response)
    ]

    -- `search`, through `search_by_text`
    unfoldable pub search : String → ℕ → Exec World (List (ScoredDocument Float))
    unfolding search_by_vector
    search query top_k = do
      embedding ← store.embed_text query
      matches ← search_by_vector (record {
        embedding = embedding;
        n_results = top_k;
        filters = none;
        contains = none;
        with_embeddings = false;
      })
      pure (map as_scored matches)

    -- `upsert`
    unfoldable pub upsert : List Document → Exec World (Unit {0})
    unfolding invoke metadatas_of
    upsert [] = pure tt
    upsert (d ∷ ds) = do
      let documents = d ∷ ds
      vectors ← store.embed_texts (map (λ e. e.content) documents)
      invoke λ c. c.upsert (record {
        ids = map (λ e. e.id) documents;
        documents = map (λ e. e.content) documents;
        metadatas = metadatas_of documents;
        embeddings = vectors;
      })

    -- `delete`
    unfoldable pub delete : List String → Exec World (Unit {0})
    unfolding invoke
    delete [] = pure tt
    delete (id ∷ ids) = invoke (λ c. c.delete (id ∷ ids))

    -- `count`
    unfoldable pub count : Exec World ℕ
    unfolding invoke
    count = invoke (λ c. c.count)
