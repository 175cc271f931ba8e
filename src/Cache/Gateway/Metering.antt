-- ===== src/Cache/Gateway/Metering.antt =====
-- The counters of the gateway: each lookup that is attempted counts once, and hits add up.
use agentic_rag.Prelude.{
  ℕ, ◌+◌, String, Option, none, some, ◌≡◌, ◌⊎◌, inl, inr, refl, arith, true, false, Bool-cases,
  Bool, not, ◌&&◌, if◌then◌else◌,
}
use agentic_rag.Prelude.Text.{is_blank}
use agentic_rag.Core.Errors.{Result, ok, raise}
use agentic_rag.Cache.Metrics.{
  CacheType, CacheMetrics, exact, semantic, record_hit, record_miss, record_backend_error,
}
use agentic_rag.Cache.Keys.{normalize_query}
use agentic_rag.Cache.Gateway.{Wiring, Hit, Gateway, on_shared}
use agentic_rag.Cache.Gateway.Lookup.{find, conclude, lookup}
use agentic_rag.Cache.Gateway.Safety.{find-IsSound}

abbrev pub is_hit : {A : Type 0} → Option A → ℕ
is_hit none = 0
is_hit (some a) = 1

-- `==` on the kinds of hit
abbrev pub is_kind : CacheType → CacheType → Bool
is_kind exact exact = true
is_kind semantic semantic = true
is_kind _ _ = false

-- what the total of the hits differs from their sum by kind stays the same
abbrev pub KeepsBalance : CacheMetrics → CacheMetrics → Type 0
KeepsBalance before after =
    after.cache_hits_total + (before.exact_cache_hits + before.semantic_cache_hits)
    ≡ before.cache_hits_total + (after.exact_cache_hits + after.semantic_cache_hits)

-- how many hits of the kind a lookup returned
abbrev pub of_kind : (w : Wiring) → CacheType → Option (Hit w) → ℕ
of_kind w kind none = 0
of_kind w kind (some hit) = if is_kind kind hit.cache_type then 1 else 0

-- a lookup that was attempted and returned `found` moves exactly these counters
pub record IsCounted (w : Wiring) (found : Option (Hit w)) (before after : CacheMetrics)
    : Type 0 where
  pub hits : after.cache_hits_total ≡ before.cache_hits_total + is_hit found
  pub misses : after.cache_misses_total + is_hit found ≡ before.cache_misses_total + 1
  pub exact_hits : after.exact_cache_hits ≡ before.exact_cache_hits + of_kind w exact found
  pub semantic_hits :
      after.semantic_cache_hits ≡ before.semantic_cache_hits + of_kind w semantic found
  pub writes : after.entries_written ≡ before.entries_written

module _ (w : Wiring) where
  conclude-KeepsBalance :
      (r : Result (Option (Hit w))) (g : Gateway w)
      → ((hit : Hit w) → r ≡ ok (some hit) → (hit.cache_type ≡ exact) ⊎ (hit.cache_type ≡ semantic))
      → KeepsBalance g.metrics (conclude w r g).1.metrics
  unfolding conclude record_miss record_backend_error record_hit
  conclude-KeepsBalance (raise x) g kinds = omega arith
  conclude-KeepsBalance (ok none) g kinds = omega arith
  conclude-KeepsBalance (ok (some hit)) g kinds = elim (kinds hit refl) [
    | inl as_exact ↦ ground (arith, as_exact)
    | inr as_semantic ↦ ground (arith, as_semantic)
  ]

  conclude-IsCounted :
      (r : Result (Option (Hit w))) (g : Gateway w)
      → IsCounted w (conclude w r g).0 g.metrics (conclude w r g).1.metrics
  unfolding conclude record_miss record_backend_error record_hit
  conclude-IsCounted (raise x) g = record {
    hits = omega arith;
    misses = omega arith;
    exact_hits = omega arith;
    semantic_hits = omega arith;
    writes = refl;
  }
  conclude-IsCounted (ok none) g = record {
    hits = omega arith;
    misses = omega arith;
    exact_hits = omega arith;
    semantic_hits = omega arith;
    writes = refl;
  }
  conclude-IsCounted (ok (some hit)) g = record {
    hits = ground arith;
    misses = ground arith;
    exact_hits = ground arith;
    semantic_hits = ground arith;
    writes = ground arith;
  }

  -- With the cache on and a query that is not blank once normalised, a lookup adds exactly one to the
  -- hits or to the misses, by whether it returns a hit, and a hit adds one to the count of its own
  -- kind and of no other. Otherwise no counter moves. Either way the hits by kind move by as much as
  -- the total of the hits.
  pub lookup-IsCounted :
      (query : String) (g : Gateway w)
      → ((((w.settings.enabled && not (is_blank (normalize_query w.texts query))) ≡ true)
            × IsCounted w (lookup w query g).0 g.metrics (lookup w query g).1.metrics)
          ⊎ (((w.settings.enabled && not (is_blank (normalize_query w.texts query))) ≡ false)
              × ((lookup w query g).0 ≡ none)
              × ((lookup w query g).1.metrics ≡ g.metrics)))
        × KeepsBalance g.metrics (lookup w query g).1.metrics
  unfolding lookup
  lookup-IsCounted query g =
      let normalized = normalize_query w.texts query in
      let attempted = on_shared w (find w normalized) g in
      elim (Bool-cases w.settings.enabled) [
        | inr off ↦ simp off (inr (refl, refl, refl), refl)
        | inl on ↦ elim (Bool-cases (is_blank normalized)) [
          | inl blank ↦ simp (on, blank) (inr (refl, refl, refl), refl)
          | inr said ↦
              simp (on, said)
                (
                  inl (refl, conclude-IsCounted attempted.0 attempted.1),
                  conclude-KeepsBalance attempted.0 attempted.1 (λ hit e.
                      let (v, resolved, sound) = find-IsSound w normalized g.shared hit e in
                      sound.kind),
                )
        ]
      ]
