-- ===== src/Cache/Metrics.antt =====
-- app/cache/metrics.py: `CacheMetrics`, and the kinds of hit of app/cache/base.py.
use agentic_rag.Prelude.{ℕ, ◌+◌, ◌*◌}

pub data CacheType : Type 0 where
  exact semantic none : CacheType

pub record CacheMetrics : Type 0 where
  pub cache_hits_total : ℕ
  pub cache_misses_total : ℕ
  pub exact_cache_hits : ℕ
  pub semantic_cache_hits : ℕ
  pub entries_written : ℕ
  pub backend_errors_total : ℕ

abbrev pub llm_calls_per_run : ℕ
llm_calls_per_run = 5

unfoldable pub zeros : CacheMetrics
zeros = record {
  cache_hits_total = 0;
  cache_misses_total = 0;
  exact_cache_hits = 0;
  semantic_cache_hits = 0;
  entries_written = 0;
  backend_errors_total = 0;
}

unfoldable pub record_hit : CacheType → CacheMetrics → CacheMetrics
record_hit exact m = record m {
  cache_hits_total = m.cache_hits_total + 1;
  exact_cache_hits = m.exact_cache_hits + 1;
}
record_hit semantic m = record m {
  cache_hits_total = m.cache_hits_total + 1;
  semantic_cache_hits = m.semantic_cache_hits + 1;
}
record_hit none m = record m { cache_hits_total = m.cache_hits_total + 1 }

unfoldable pub record_miss : CacheMetrics → CacheMetrics
record_miss m = record m { cache_misses_total = m.cache_misses_total + 1 }

unfoldable pub record_write : CacheMetrics → CacheMetrics
record_write m = record m { entries_written = m.entries_written + 1 }

unfoldable pub record_backend_error : CacheMetrics → CacheMetrics
record_backend_error m = record m { backend_errors_total = m.backend_errors_total + 1 }

unfoldable pub lookups_total : CacheMetrics → ℕ
lookups_total m = m.cache_hits_total + m.cache_misses_total

unfoldable pub estimated_llm_calls_saved : CacheMetrics → ℕ
estimated_llm_calls_saved m = m.cache_hits_total * llm_calls_per_run
