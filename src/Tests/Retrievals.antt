-- ===== src/Tests/Retrievals.antt =====
-- Tests of the retrieval pipeline of app/retrieval.
use agentic_rag.Prelude.{
  ℕ, suc, ◌≡◌, ◌⊎◌, refl, String, true, false, none, some, List, [], ◌∷◌, map, length-take, take,
  All, All-take, arith, leb,
}
use agentic_rag.Prelude.Text.{strip}
use agentic_rag.Core.Errors.{ok, raise, validation_error, dependency_error, other}
use agentic_rag.Core.Exec.{Exec, pure}
use agentic_rag.Core.Exec.Ensures.{Ensures, Ensures-pure}
use agentic_rag.Retrieval.Base.{
  Document, ScoredDocument, SearchType, similarity, mmr, hybrid, RetrievalQuery, VectorMatch,
  as_scored,
}
use agentic_rag.Retrieval.Query.{
  RetrievalSettings, AreValid, RetrieverCapabilities, Retriever, prepare, supports, or_number,
}
use agentic_rag.Retrieval.Query.Defaults.{IsPrepared, prepare-IsPrepared}
use agentic_rag.Retrieval.Diversity.{maximal_marginal_relevance}
use agentic_rag.Retrieval.Diversity.Selection.{IsSelection, maximal_marginal_relevance-IsSelection}
use agentic_rag.Retrieval.Compressors.{within_budget, drop_near}
use agentic_rag.Retrieval.Compressors.Budget.{IsBudgeted, within_budget-IsBudgeted}
use agentic_rag.Retrieval.Compressors.Spread.{IsThinned, drop_near-IsThinned}
use agentic_rag.Retrieval.Compression.{compressed_search, default_pipeline}
use agentic_rag.Retrieval.Compression.Bounds.{IsCompressed, compressed_search-IsCompressed}
use agentic_rag.Retrieval.Chroma.{Response, StoreQuery, Collection, Store, to_matches, invoke, row}
use agentic_rag.Retrieval.Chroma.Matches.{HasScore, to_matches-HasScore}
use agentic_rag.Retrieval.Chroma.Rejections.{invoke-retries}
use agentic_rag.Retrieval.Vector.{vector_search}
use agentic_rag.Retrieval.Vector.Page.{IsPage, vector_search-IsPage}
use agentic_rag.Retrieval.Hybrid.{fuse}
use agentic_rag.Retrieval.Hybrid.Fused.{IsFused, fuse-IsFused}
use agentic_rag.Retrieval.Factory.{Parts, for_query}
use agentic_rag.Retrieval.Factory.Service.{Fits, for_query-Fits}
use agentic_rag.Retrieval.Chroma.Lifecycle.{ChromaSettings, Library, start}
use agentic_rag.Retrieval.Chroma.Lifecycle.Opened.{closed, IsStarted, start-IsStarted}
use agentic_rag.Tests.Samples.{whole}

abbrev settings : RetrievalSettings ℕ
settings = record {
  default_search_type = similarity;
  top_k = 2;
  fetch_k = 4;
  mmr_lambda = 1;
  score_threshold = 0;
  compression_enabled = true;
  compression_fetch_multiplier = 3;
  compression_min_relevance = 0;
  compression_redundancy_threshold = 1;
  compression_max_characters = 20;
  compression_sentence_level = true;
  dense_weight = 1;
  rrf_k = 60;
}

settings-AreValid : AreValid settings
settings-AreValid = record { page = omega arith; covers = omega arith }

-- a query that sets a strategy and nothing else
abbrev asking : SearchType → RetrievalQuery ℕ
asking t = record {
  text = "leave days";
  top_k = none;
  search_type = some t;
  fetch_k = none;
  mmr_lambda = none;
  score_threshold = none;
  filters = none;
  content_contains = none;
  compress = none;
}

abbrev dense_only : RetrieverCapabilities
dense_only = record { name = "vector"; search_types = similarity ∷ mmr ∷ []; compresses = false }

prepare-IsPrepared_example :
    ((resolved : RetrievalQuery ℕ) × (supports dense_only mmr ≡ true)
      × (prepare settings dense_only (asking mmr) ≡ ok resolved)
      × IsPrepared settings (asking mmr) resolved)
    ⊎ ((supports dense_only mmr ≡ false)
        × (prepare settings dense_only (asking mmr) ≡ raise validation_error))
prepare-IsPrepared_example = prepare-IsPrepared settings dense_only (asking mmr) settings-AreValid

abbrev vectors : List (List ℕ)
vectors = (1 ∷ 0 ∷ []) ∷ (0 ∷ 1 ∷ []) ∷ (1 ∷ 1 ∷ []) ∷ []

maximal_marginal_relevance-IsSelection_example :
    (out : List ℕ) × (maximal_marginal_relevance whole (1 ∷ 0 ∷ []) vectors 2 1 ≡ ok out)
    × IsSelection whole (1 ∷ 0 ∷ []) vectors 2 out
maximal_marginal_relevance-IsSelection_example =
    maximal_marginal_relevance-IsSelection whole (1 ∷ 0 ∷ []) vectors 2 1 (refl, (refl, (refl, tt)))

abbrev page : String → String → Document
page id content = record { id = id; content = content; metadata = [] }

abbrev found : List (ScoredDocument ℕ)
found =
    record { document = page "a" "21 days of leave."; score = 3 }
    ∷ record { document = page "b" "Leave is 21 days."; score = 2 }
    ∷ record { document = page "c" "Ask them."; score = 1 }
    ∷ []

within_budget-IsBudgeted_example : IsBudgeted 20 found (within_budget 20 found)
within_budget-IsBudgeted_example = within_budget-IsBudgeted 20 found

drop_near-IsThinned_example :
    (out : List (ScoredDocument ℕ) × List (List ℕ)) × (drop_near whole 1 [] [] found vectors
      ≡ ok out)
    × IsThinned whole 1 found vectors out
drop_near-IsThinned_example =
    drop_near-IsThinned whole 1 2 found vectors refl (refl, (refl, (refl, tt)))

-- a world that nothing changes
abbrev embed_text : String → Exec (Unit {0}) (List ℕ)
embed_text text = pure (1 ∷ 0 ∷ [])

abbrev embed_texts : List String → Exec (Unit {0}) (List (List ℕ))
embed_texts texts = pure (map (λ _. 1 ∷ 0 ∷ []) texts)

abbrev finder : Retriever (Unit {0}) ℕ
finder = record {
  name = "finder";
  capabilities = dense_only;
  search = λ q. pure (record {
    documents = found;
    search_type = similarity;
    retriever = "finder";
    candidates = 3;
    stages = [];
  });
}

abbrev IsScored : ScoredDocument ℕ → Type 0
IsScored d = leb 1 d.score ≡ true

compressed_search-IsCompressed_example :
    Ensures (IsCompressed whole embed_texts settings IsScored (asking similarity)) (
      compressed_search settings finder embed_text
        (default_pipeline whole embed_texts settings)
        (asking similarity))
unfolding agentic_rag.Retrieval.Compressors.replace_content
compressed_search-IsCompressed_example =
    compressed_search-IsCompressed whole embed_texts settings finder embed_text IsScored
      (record { under = λ d content h. h }) (asking similarity) refl
      (Ensures-pure _ (refl, (refl, (refl, tt))))

abbrev response : Response ℕ
response = record {
  ids = some (some ("a" ∷ "b" ∷ []) ∷ []);
  documents = some (some (some "21 days" ∷ none ∷ []) ∷ []);
  metadatas = none;
  distances = some (some (0 ∷ 2 ∷ []) ∷ []);
  embeddings = none;
}

to_matches-HasScore_example :
    (map (λ m. m.document.id) (to_matches whole response) ≡ map strip (row response.ids))
    × All (HasScore whole refl) (to_matches whole response)
to_matches-HasScore_example = to_matches-HasScore whole refl response

-- a collection that refuses everything, in a world that counts the calls
abbrev refused : {A : Type 0} → Exec ℕ A
refused n = (raise other, suc n)

abbrev refusing : Collection whole ℕ
refusing = record {
  query = λ q. refused;
  upsert = λ rows. refused;
  delete = λ ids. refused;
  count = refused;
}

abbrev store : Store whole ℕ
store = record {
  collection = some refusing;
  embed_text = λ text. pure (1 ∷ []);
  embed_texts = λ texts. pure [];
  max_attempts = 3;
  sleep = λ n w. w;
}

invoke-retries_example :
    ((invoke whole store (λ c. c.count) 0).0 ≡ raise dependency_error)
    × ((invoke whole store (λ c. c.count) 0).1 ≡ 3)
invoke-retries_example =
    invoke-retries whole store (λ n. n) (λ n w. refl) refusing (λ c. c.count) other 0 refl
      (omega arith) (record { raised = λ s. refl; counted = λ s. refl })

abbrev matches : List (VectorMatch ℕ)
matches =
    record { document = page "a" "21 days"; score = 1; embedding = some (1 ∷ 0 ∷ []) }
    ∷ record { document = page "b" "22 days"; score = 1; embedding = some (0 ∷ 1 ∷ []) }
    ∷ record { document = page "c" "23 days"; score = 1; embedding = none }
    ∷ []

-- a store that honours its limit
abbrev nearest : StoreQuery ℕ → Exec (Unit {0}) (List (VectorMatch ℕ))
nearest q = pure (take q.n_results matches)

vector_search-IsPage_example :
    Ensures
      (IsPage whole settings IsScored (asking mmr))
      (vector_search whole settings nearest embed_text (asking mmr))
vector_search-IsPage_example =
    vector_search-IsPage whole settings nearest embed_text IsScored (asking mmr) settings-AreValid
      (λ q. Ensures-pure _ (
        omega (arith, length-take q.n_results matches),
        All-take (λ m. IsScored (as_scored m)) q.n_results matches (refl, (refl, (refl, tt))),
      ))

abbrev sparse_found : List (ScoredDocument ℕ)
sparse_found = record { document = page "b" "Leave is 21 days."; score = 9 } ∷ []

fuse-IsFused_example :
    (out : List (ScoredDocument ℕ)) × (fuse whole settings found sparse_found (asking hybrid)
      ≡ ok out)
    × IsFused whole settings found sparse_found out 2
unfolding or_number
fuse-IsFused_example = fuse-IsFused whole settings found sparse_found (asking hybrid)

abbrev parts : Parts whole (Unit {0})
parts = record {
  settings = settings;
  search_by_vector = nearest;
  embed_text = embed_text;
  embed_texts = embed_texts;
  sparse = some (λ q. pure (record {
    documents = sparse_found;
    search_type = similarity;
    retriever = "sparse";
    candidates = 1;
    stages = [];
  }));
}

for_query-Fits_example :
    Ensures
      (Fits whole parts (asking hybrid))
      ((for_query whole parts (asking hybrid)).search (asking hybrid))
for_query-Fits_example =
    for_query-Fits whole parts settings-AreValid
      (λ q. Ensures-pure _ (omega (arith, length-take q.n_results matches))) (asking hybrid)

abbrev remote : ChromaSettings
remote = record {
  host = some "chroma";
  port = some 8000;
  persist_directory = "./.chroma";
  collection = "documents";
}

-- a library that reaches the host and may not create the collection
abbrev library : Library whole ℕ
library = record {
  http_client = λ host port n. (
    ok (record {
      get_or_create_collection = λ name space m. (raise other, suc m);
      heartbeat = λ m. (ok tt, suc m);
    }),
    suc n,
  );
  persistent_client = λ path n. (raise other, suc n);
}

start-IsStarted_example :
    IsStarted whole remote library (start whole remote library (closed whole remote library 0))
start-IsStarted_example = start-IsStarted whole remote library 0
