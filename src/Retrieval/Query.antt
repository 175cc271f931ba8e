-- ===== src/Retrieval/Query.antt =====
-- app/retrieval/query.py and app/retrieval/retriever.py: how a query takes its defaults from the
-- configuration, and what every retriever offers.
pub mod Defaults
use agentic_rag.Prelude.{
  ℕ, String, Bool, true, false, Option, none, some, List, zero, suc, any, ltb, if◌then◌else◌, ◌<◌,
  ◌≤◌,
}
use agentic_rag.Core.Errors.{Result, ok, raise, validation_error}
use agentic_rag.Core.Exec.{Exec}
use agentic_rag.Retrieval.Base.{
  SearchType, similarity, mmr, hybrid, RetrievalQuery, RetrievalResult,
}

-- `RetrievalSettings`
pub record RetrievalSettings (Float : Type 0) : Type 0 where
  pub default_search_type : SearchType
  pub top_k : ℕ
  pub fetch_k : ℕ
  pub mmr_lambda : Float
  pub score_threshold : Float
  pub compression_enabled : Bool
  pub compression_fetch_multiplier : ℕ
  pub compression_min_relevance : Float
  pub compression_redundancy_threshold : Float
  pub compression_max_characters : ℕ
  pub compression_sentence_level : Bool
  pub dense_weight : Float
  pub rrf_k : ℕ

-- the field constraints of `RetrievalSettings`, and its validator `_fetch_k_covers_top_k`
pub record AreValid {Float : Type 0} (settings : RetrievalSettings Float) : Type 0 where
  pub page : 0 < settings.top_k
  pub covers : settings.top_k ≤ settings.fetch_k

-- `RetrieverCapabilities`
pub record RetrieverCapabilities : Type 0 where
  pub name : String
  pub search_types : List SearchType
  pub compresses : Bool

-- `==` on the enumeration
unfoldable pub is_type : SearchType → SearchType → Bool
is_type similarity similarity = true
is_type mmr mmr = true
is_type hybrid hybrid = true
is_type _ _ = false

-- `RetrieverCapabilities.supports`
unfoldable pub supports : RetrieverCapabilities → SearchType → Bool
unfolding is_type
supports c t = any (is_type t) c.search_types

-- `BaseRetriever`: what its subclasses implement
pub record Retriever (World Float : Type 0) : Type 0 where
  pub name : String
  pub capabilities : RetrieverCapabilities
  pub search : RetrievalQuery Float → Exec World (RetrievalResult Float)

-- an explicit value stays, an unset one takes the default
abbrev pub fill : {A : Type 0} → A → Option A → Option A
fill default none = some default
fill default (some value) = some value

-- `value or default` on an optional number
unfoldable pub or_number : Option ℕ → ℕ → ℕ
or_number none default = default
or_number (some zero) default = default
or_number (some (suc n)) default = suc n

-- `value or default` on an optional strategy
abbrev pub or_type : Option SearchType → SearchType → SearchType
or_type none default = default
or_type (some t) default = t

module _ {Float : Type 0} (settings : RetrievalSettings Float) where
  -- `query.with_defaults(…)` at the values that `prepare` passes
  unfoldable pub with_defaults : RetrievalQuery Float → RetrievalQuery Float
  with_defaults query = record query {
    top_k = fill settings.top_k query.top_k;
    search_type = fill settings.default_search_type query.search_type;
    fetch_k = fill settings.fetch_k query.fetch_k;
    mmr_lambda = fill settings.mmr_lambda query.mmr_lambda;
    score_threshold = fill settings.score_threshold query.score_threshold;
  }

  -- the candidate pool is at least as large as the page
  unfoldable pub widen : RetrievalQuery Float → RetrievalQuery Float
  unfolding or_number
  widen resolved =
      let top_k = or_number resolved.top_k settings.top_k in
      if ltb (or_number resolved.fetch_k 0) top_k
      then record resolved { fetch_k = some top_k }
      else resolved

  -- `BaseRetriever.prepare`
  unfoldable pub prepare :
      RetrieverCapabilities → RetrievalQuery Float → Result (RetrievalQuery Float)
  unfolding with_defaults widen supports
  prepare capabilities query =
      let resolved = with_defaults query in
      if supports capabilities (or_type resolved.search_type similarity)
      then ok (widen resolved)
      else raise validation_error
