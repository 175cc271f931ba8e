-- ===== src/Ingestion/Pipeline/Outdated.antt =====
-- An ingestion makes the cached answers outdated: app/ingestion/pipeline.py with app/cache/versions.py.
use text.Mathlib.TextEquality.{eq_iff}
use agentic_rag.Prelude.{ℕ, suc, ◌≡◌, ◌≢◌, sym, ap, ◌∙◌, String, false, arith}
use agentic_rag.Core.Errors.{Result, ok}
use agentic_rag.Core.Exec.{Exec, inside}
use agentic_rag.Cache.Base.{Backend, CachedAnswer, matches}
use agentic_rag.Cache.Keys.{CacheVersions}
use agentic_rag.Cache.Versions.{Numerals, Shared, current, bump}
use agentic_rag.Cache.Versions.Bump.{IsReadBack, bump_ne_current, bump-current}
use agentic_rag.Ingestion.Pipeline.{Pipeline, ingest}
use agentic_rag.Ingestion.Pipeline.Announced.{announcing, unannounced, announced, ingest-announced}

module _ {Vec : Type 0} (B : Backend Vec) (n : Numerals) (key : String) {World : Type 0}
    (p : Pipeline (World × Shared B)) where
  -- the versioner over a world that has the shared backend beside it
  abbrev pub version_bump : String → Exec (World × Shared B) String
  version_bump reason = inside (λ w. w.1) (λ w s. (w.0, s)) (bump B n key)

  matches_ne :
      {Float Citation : Type 0} (e : CachedAnswer Float Citation) (v : CacheVersions)
      → e.knowledge_base_version ≢ v.knowledge_base_version
      → matches e v ≡ false
  unfolding matches
  matches_ne e v other =
      ground (arith, eq_iff e.knowledge_base_version v.knowledge_base_version, other)

  module _ (uri : String) (w : World × Shared B) (chunks : ℕ) (old next : String) where
    abbrev pub after_index : Shared B
    after_index = (ingest (unannounced p version_bump) uri w).1.1

    after_bump :
        (ingest (unannounced p version_bump) uri w).0 ≡ ok (suc chunks)
        → ingest (announcing p version_bump) uri w
          ≡ (ok (suc chunks), (version_bump uri (ingest (unannounced p version_bump) uri w).1).1)
    after_bump done =
        let out = ingest (unannounced p version_bump) uri w in
        ingest-announced p version_bump uri w
        ∙ ap (λ (r : Result ℕ). announced p version_bump uri (r, out.1)) done

    -- If an ingestion indexes a chunk or more, the version can be read and advanced, and the backend
    -- reads back what it wrote under the version's key, then the version in force after the ingestion
    -- is the new one, and it matches no answer that was stored under the version before.
    pub ingest-outdates :
        {Float Citation : Type 0} (e : CachedAnswer Float Citation) (model prompts : String)
        → e.knowledge_base_version ≡ old
        → (ingest (unannounced p version_bump) uri w).0 ≡ ok (suc chunks)
        → (current B key after_index).0 ≡ ok old
        → (bump B n key after_index).0 ≡ ok next
        → IsReadBack B n key after_index (current B key after_index).1.backend
        → ((ingest (announcing p version_bump) uri w).0 ≡ ok (suc chunks))
          × ((ingest (announcing p version_bump) uri w).1.1.last_known ≡ next)
          × ((current B key (ingest (announcing p version_bump) uri w).1.1).0 ≡ ok next)
          × (matches e (record {
            knowledge_base_version = next;
            model_version = model;
            prompt_version = prompts;
          })
              ≡ false)
    ingest-outdates e model prompts stale done was advanced law =
        let moved = after_bump done in
        let (other, known) = bump_ne_current B n key after_index old next was advanced in
        (
          ap (λ (o : Result ℕ × (World × Shared B)). o.0) moved,
          ap (λ (o : Result ℕ × (World × Shared B)). o.1.1.last_known) moved ∙ known,
          ap (λ (o : Result ℕ × (World × Shared B)). (current B key o.1.1).0) moved
              ∙ bump-current B n key after_index next law advanced,
          matches_ne e _ (λ same. other (sym same ∙ stale)),
        )
