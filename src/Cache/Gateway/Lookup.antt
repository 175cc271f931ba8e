-- ===== src/Cache/Gateway/Lookup.antt =====
-- app/cache/gateway.py: `lookup` and its helpers `_exact`, `_semantic` and `_read`.
use agentic_rag.Prelude.{
  ℕ, String, Option, none, some, List, [], ◌∷◌, Bool, is_empty, if◌then◌else◌,
}
use agentic_rag.Prelude.Text.{is_blank}
use agentic_rag.Core.Errors.{Result, ok, raise}
use agentic_rag.Core.Exec.{Exec, pure, ◌>>=◌, ◌>>◌}
use agentic_rag.Cache.Metrics.{
  CacheType, exact, semantic, record_hit, record_miss, record_backend_error,
}
use agentic_rag.Cache.Keys.{CacheVersions, normalize_query, answer_key, index_namespace}
use agentic_rag.Cache.Base.{age_seconds, is_live, matches}
use agentic_rag.Cache.Versions.{Shared, on_backend}
use agentic_rag.Cache.Gateway.{
  Wiring, Answer, Hit, Gateway, ranked_candidates, on_shared, count, clock, versions,
}

module _ (w : Wiring) where
  open w use {floats, backend, settings}

  -- the checks of `_read` on an entry that could be decoded
  unfoldable pub judge :
      String → CacheVersions → Answer w → ℕ → Exec (Shared backend) (Option (Answer w))
  judge key v entry now =
      if is_live entry now
      then (if matches entry v
          then pure (some entry)
          else (do on_backend backend (backend.delete key); pure none))
      else (do on_backend backend (backend.delete key); pure none)

  unfoldable pub check_entry :
      String → CacheVersions → Answer w → Exec (Shared backend) (Option (Answer w))
  unfolding judge
  check_entry key v entry = do now ← clock w; judge key v entry now

  unfoldable pub decoded :
      String → CacheVersions → Option (Answer w) → Exec (Shared backend) (Option (Answer w))
  unfolding check_entry
  decoded key v none = do on_backend backend (backend.delete key); pure none
  decoded key v (some entry) = check_entry key v entry

  unfoldable pub found_raw :
      String → CacheVersions → Option String → Exec (Shared backend) (Option (Answer w))
  unfolding decoded
  found_raw key v none = pure none
  found_raw key v (some raw) = decoded key v (w.codec.decode raw)

  -- `_read`
  unfoldable pub read : String → CacheVersions → Exec (Shared backend) (Option (Answer w))
  unfolding found_raw
  read key v = do raw ← on_backend backend (backend.get key); found_raw key v raw

  abbrev pub hit_of : CacheType → String → floats.Float → Answer w → ℕ → Hit w
  hit_of kind key similarity entry now = record {
    entry = entry;
    cache_type = kind;
    cache_key = key;
    age = age_seconds entry now;
    similarity = similarity;
  }

  -- the clock is read once more for the age
  unfoldable pub aged_hit :
      CacheType → String → floats.Float → Answer w → Exec (Shared backend) (Option (Hit w))
  aged_hit kind key similarity entry = do
    now ← clock w
    pure (some (hit_of kind key similarity entry now))

  unfoldable pub exact_hit : String → Option (Answer w) → Exec (Shared backend) (Option (Hit w))
  unfolding aged_hit
  exact_hit key none = pure none
  exact_hit key (some entry) = aged_hit exact key floats.unit entry

  -- `_exact`
  unfoldable pub exact_lookup : String → CacheVersions → Exec (Shared backend) (Option (Hit w))
  unfolding exact_hit
  exact_lookup normalized v = do
    let key = answer_key w.texts settings.namespace v normalized
    entry ← read key v
    exact_hit key entry

  -- what the loop of `_semantic` does with one candidate; `rest` is what it does with the others
  unfoldable pub candidate_hit :
      String
      → String
      → floats.Float
      → Exec (Shared backend) (Option (Hit w))
      → Option (Answer w)
      → Exec (Shared backend) (Option (Hit w))
  unfolding aged_hit
  candidate_hit namespace key similarity rest none = do
    on_backend backend (backend.index_remove namespace key)
    rest
  candidate_hit namespace key similarity rest (some entry) = aged_hit semantic key similarity entry

  unfoldable pub try_candidates :
      String → CacheVersions → List (String × floats.Float) → Exec (Shared backend) (Option (Hit w))
  unfolding candidate_hit
  try_candidates namespace v [] = pure none
  try_candidates namespace v ((key, similarity) ∷ ranked) =
      let rest = try_candidates namespace v ranked in
      (do entry ← read key v; candidate_hit namespace key similarity rest entry)

  unfoldable pub lift : {A : Type 0} → Result A → Exec (Shared backend) A
  lift r s = (r, s)

  unfoldable pub try_ranked :
      String
      → CacheVersions
      → List (String × List floats.Float)
      → List floats.Float
      → Exec (Shared backend) (Option (Hit w))
  unfolding try_candidates lift
  try_ranked namespace v indexed embedding = do
    ranked ← lift (ranked_candidates floats settings.similarity_threshold embedding indexed)
    try_candidates namespace v ranked

  unfoldable pub rank_index :
      (String → Exec backend.State (List floats.Float))
      → String
      → String
      → CacheVersions
      → List (String × List floats.Float)
      → Exec (Shared backend) (Option (Hit w))
  unfolding try_ranked
  rank_index embed namespace normalized v indexed = if is_empty indexed then pure none else (do
    embedding ← on_backend backend (embed normalized)
    try_ranked namespace v indexed embedding)

  unfoldable pub search_index :
      (String → Exec backend.State (List floats.Float))
      → String
      → CacheVersions
      → Exec (Shared backend) (Option (Hit w))
  unfolding rank_index
  search_index embed normalized v = do
    let namespace = index_namespace w.texts settings.namespace v
    indexed ← on_backend backend (backend.index_entries namespace)
    rank_index embed namespace normalized v indexed

  unfoldable pub semantic_with :
      Option (String → Exec backend.State (List floats.Float))
      → Bool
      → String
      → CacheVersions
      → Exec (Shared backend) (Option (Hit w))
  unfolding search_index
  semantic_with none enabled normalized v = pure none
  semantic_with (some embed) enabled normalized v =
      if enabled then search_index embed normalized v else pure none

  -- `_semantic`
  unfoldable pub semantic_lookup : String → CacheVersions → Exec (Shared backend) (Option (Hit w))
  unfolding semantic_with
  semantic_lookup = semantic_with w.embed_text settings.semantic_enabled

  unfoldable pub or_semantic :
      String → CacheVersions → Option (Hit w) → Exec (Shared backend) (Option (Hit w))
  or_semantic normalized v (some hit) = pure (some hit)
  or_semantic normalized v none = semantic_lookup normalized v

  -- the `try` block of `lookup`
  unfoldable pub find : String → Exec (Shared backend) (Option (Hit w))
  unfolding or_semantic
  find normalized = do v ← versions w; hit ← exact_lookup normalized v; or_semantic normalized v hit

  -- what follows the `try` block, with what it returned or raised
  unfoldable pub conclude : Result (Option (Hit w)) → Gateway w → Option (Hit w) × Gateway w
  conclude (raise x) g = (none, count w record_miss (count w record_backend_error g))
  conclude (ok none) g = (none, count w record_miss g)
  conclude (ok (some hit)) g = (some hit, count w (record_hit hit.cache_type) g)

  -- `lookup`: it never raises, so what it returns is no `Result`
  unfoldable pub lookup : String → Gateway w → Option (Hit w) × Gateway w
  unfolding conclude
  lookup query g =
      let normalized = normalize_query w.texts query in
      let attempted = on_shared w (find normalized) g in
      if settings.enabled
      then (if is_blank normalized then (none, g) else conclude attempted.0 attempted.1)
      else (none, g)
