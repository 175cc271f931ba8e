-- ===== src/Retrieval/Base.antt =====
-- app/retrieval/base.py and app/retrieval/query.py: documents and the request a plan makes.
use agentic_rag.Prelude.{ℕ, String, Bool, Option, none, some, List, [], ◌∷◌, ◌++◌, if◌then◌else◌}
use agentic_rag.Prelude.Text.{is_blank, strip, string_discrete}
use agentic_rag.Dict.{Dict, assign}
use agentic_rag.Core.Errors.{Result, ok, raise, value_error}
use agentic_rag.Retrieval.Filters.{MetadataFilters}

pub record Document : Type 0 where
  pub id : String
  pub content : String
  pub metadata : Dict String String

-- the texts of a mapping, stripped; of two keys that become one the last counts
unfoldable pub stripped : Dict String String → Dict String String → Dict String String
unfolding strip string_discrete
stripped d [] = d
stripped d (entry ∷ entries) =
    stripped (assign string_discrete (strip entry.0) (strip entry.1) d) entries

-- `Document(id=…, content=…, metadata=…)`: every text is stripped, as in every `Schema`
unfoldable pub document_of : String → String → Dict String String → Document
unfolding stripped
document_of id content metadata = record {
  id = strip id;
  content = strip content;
  metadata = stripped [] metadata;
}

pub record ScoredDocument (Float : Type 0) : Type 0 where
  pub document : Document
  pub score : Float

pub data SearchType : Type 0 where
  similarity mmr hybrid : SearchType

unfoldable pub search_type_text : SearchType → String
search_type_text similarity = "similarity"
search_type_text mmr = "mmr"
search_type_text hybrid = "hybrid"

-- `RetrievalQuery`: what is left out is `none`, and takes the configured default
pub record RetrievalQuery (Float : Type 0) : Type 0 where
  pub text : String
  pub top_k : Option ℕ
  pub search_type : Option SearchType
  pub fetch_k : Option ℕ
  pub mmr_lambda : Option Float
  pub score_threshold : Option Float
  pub filters : Option MetadataFilters
  pub content_contains : Option String
  pub compress : Option Bool

-- `RetrievalQuery(text=…, top_k=…, search_type=…, filters=…)`: the text is stripped and may not be
-- empty; a plan's `top_k` is at least 1 by its own schema
unfoldable pub retrieval_query :
    {Float : Type 0}
    → String
    → ℕ
    → SearchType
    → Option MetadataFilters
    → Result (RetrievalQuery Float)
unfolding strip
retrieval_query text top_k search_type filters =
    if is_blank (strip text)
    then raise value_error
    else ok (record {
      text = strip text;
      top_k = some top_k;
      search_type = some search_type;
      fetch_k = none;
      mmr_lambda = none;
      score_threshold = none;
      filters = filters;
      content_contains = none;
      compress = none;
    })

-- `RetrievalResult`
pub record RetrievalResult (Float : Type 0) : Type 0 where
  pub documents : List (ScoredDocument Float)
  pub search_type : SearchType
  pub retriever : String
  pub candidates : ℕ
  pub stages : List String

-- `VectorMatch`
pub record VectorMatch (Float : Type 0) : Type 0 where
  pub document : Document
  pub score : Float
  pub embedding : Option (List Float)

module _ {Float : Type 0} where
  -- `VectorMatch.as_scored`
  abbrev pub as_scored : VectorMatch Float → ScoredDocument Float
  as_scored m = record { document = m.document; score = m.score }

  -- `RetrievalResult.with_stage`
  abbrev pub with_stage : String → RetrievalResult Float → RetrievalResult Float
  with_stage stage r = record r { stages = r.stages ++ stage ∷ [] }
