-- ===== src/Retrieval/Query/Defaults.antt =====
-- `BaseRetriever.prepare` of app/retrieval/retriever.py: precedence of the query over the
-- configuration, and the size of the candidate pool.
use agentic_rag.Prelude.{
  ℕ, ◌≤◌, ◌<◌, ◌≡◌, ◌⊎◌, inl, inr, refl, true, false, none, some, Option, arith, Bool-cases, zero,
  suc, max,
}
use agentic_rag.Core.Errors.{ok, raise, validation_error}
use agentic_rag.Core.Errors.Yields.{Yields, Yields-ok, Yields-raise}
use agentic_rag.Retrieval.Base.{RetrievalQuery, SearchType, similarity}
use agentic_rag.Retrieval.Query.{
  RetrievalSettings, RetrieverCapabilities, AreValid, supports, fill, or_number, or_type,
  with_defaults, widen, prepare,
}

module _ {Float : Type 0} (settings : RetrievalSettings Float) where
  -- what a prepared query is, given the query that was asked
  pub record IsPrepared (query resolved : RetrievalQuery Float) : Type 0 where
    pub text : resolved.text ≡ query.text
    pub page : resolved.top_k ≡ fill settings.top_k query.top_k
    pub strategy : resolved.search_type ≡ fill settings.default_search_type query.search_type
    pub diversity : resolved.mmr_lambda ≡ fill settings.mmr_lambda query.mmr_lambda
    pub threshold : resolved.score_threshold ≡ fill settings.score_threshold query.score_threshold
    pub filters : resolved.filters ≡ query.filters
    pub content : resolved.content_contains ≡ query.content_contains
    pub compress : resolved.compress ≡ query.compress
    pub pool_size :
        or_number resolved.fetch_k 0
        ≡ max
            (or_number (fill settings.fetch_k query.fetch_k) 0)
            (or_number query.top_k settings.top_k)
    pub pool : or_number resolved.top_k settings.top_k ≤ or_number resolved.fetch_k 0

  or_number-some : (n d : ℕ) → 0 < n → or_number (some n) d ≡ n
  unfolding or_number
  or_number-some zero d h = elim h [ ]
  or_number-some (suc n) d h = refl

  or_number_pos : (o : Option ℕ) (d : ℕ) → 0 < d → 0 < or_number o d
  unfolding or_number
  or_number_pos none d h = h
  or_number_pos (some zero) d h = h
  or_number_pos (some (suc n)) d h = omega arith

  widen-pool :
      (resolved : RetrievalQuery Float)
      → 0 < settings.top_k
      → or_number (widen settings resolved).top_k settings.top_k
        ≤ or_number (widen settings resolved).fetch_k 0
  unfolding widen
  widen-pool resolved h = ground (
    arith,
    or_number_pos resolved.top_k settings.top_k h,
    or_number-some (or_number resolved.top_k settings.top_k) 0,
  )

  or_number-fill : (o : Option ℕ) (d : ℕ) → or_number (fill d o) d ≡ or_number o d
  unfolding or_number
  or_number-fill none zero = refl
  or_number-fill none (suc d) = refl
  or_number-fill (some zero) d = refl
  or_number-fill (some (suc n)) d = refl

  widen-pool_size :
      (query : RetrievalQuery Float)
      → 0 < settings.top_k
      → or_number (widen settings (with_defaults settings query)).fetch_k 0
        ≡ max
            (or_number (fill settings.fetch_k query.fetch_k) 0)
            (or_number query.top_k settings.top_k)
  unfolding widen with_defaults
  widen-pool_size query h = ground (
    arith,
    or_number-fill query.top_k settings.top_k,
    or_number_pos query.top_k settings.top_k h,
    or_number-some (or_number query.top_k settings.top_k) 0,
  )

  widen-IsPrepared :
      (query : RetrievalQuery Float)
      → AreValid settings
      → IsPrepared query (widen settings (with_defaults settings query))
  unfolding widen with_defaults
  widen-IsPrepared query valid = record {
    text = ground arith;
    page = ground arith;
    strategy = ground arith;
    diversity = ground arith;
    threshold = ground arith;
    filters = ground arith;
    content = ground arith;
    compress = ground arith;
    pool_size = widen-pool_size query valid.page;
    pool = widen-pool (with_defaults settings query) valid.page;
  }

  or_type-fill :
      (o : Option SearchType)
      → or_type (fill settings.default_search_type o) similarity
        ≡ or_type o settings.default_search_type
  or_type-fill none = refl
  or_type-fill (some t) = refl

  -- Preparing a query of a supported strategy keeps the explicit page, strategy, weight and
  -- threshold, the filters and the flag, and gives those that are unset the configured values. The
  -- candidate pool is the explicit one, or else the configured one, raised to the page if the page is
  -- larger. A strategy that the retriever does not support is refused with a validation error, and
  -- nothing else is.
  pub prepare-IsPrepared :
      (capabilities : RetrieverCapabilities) (query : RetrievalQuery Float)
      → AreValid settings
      → let strategy = or_type query.search_type settings.default_search_type in
        ((resolved : RetrievalQuery Float) × (supports capabilities strategy ≡ true)
          × (prepare settings capabilities query ≡ ok resolved)
          × IsPrepared query resolved)
        ⊎ ((supports capabilities strategy ≡ false)
            × (prepare settings capabilities query ≡ raise validation_error))
  unfolding prepare
  prepare-IsPrepared capabilities query valid =
      let strategy = or_type query.search_type settings.default_search_type in
      let same : or_type (with_defaults settings query).search_type similarity ≡ strategy =
        or_type-fill query.search_type in
      elim (Bool-cases (supports capabilities strategy)) [
        | inl served ↦ inl (
          widen settings (with_defaults settings query),
          served,
          rw (same, prepare, served) refl,
          widen-IsPrepared query valid,
        )
        | inr refused ↦ inr (refused, rw (same, prepare, refused) refl)
      ]

  pub prepare-Yields :
      (capabilities : RetrieverCapabilities) (query : RetrievalQuery Float)
      → AreValid settings
      → Yields (IsPrepared query) (prepare settings capabilities query)
  prepare-Yields capabilities query valid = elim (prepare-IsPrepared capabilities query valid) [
    | inl (resolved, served, done, p) ↦ rw done (Yields-ok resolved p)
    | inr (refused, done) ↦ rw done (Yields-raise _)
  ]
