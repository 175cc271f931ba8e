-- ===== src/Cache/Gateway/Safety.antt =====
-- A hit is an entry of the backend that was live when it was read and that was written under the
-- versions in force.
use agentic_rag.Prelude.{
  ◌⊎◌, String, Option, none, some, List, [], ◌∷◌, ◌≡◌, refl, arith, Bool, true, false, All, inl,
  inr, subst,
}
use agentic_rag.Core.Errors.{Result, ok, raise}
use agentic_rag.Core.Exec.{Exec, pure, continue, ◌>>=◌}
use agentic_rag.Core.Exec.Ensures.{Ensures, Ensures-pure, Ensures-bind}
use agentic_rag.Cache.Metrics.{exact, semantic}
use agentic_rag.Cache.Keys.{CacheVersions, normalize_query, answer_key, index_namespace}
use agentic_rag.Cache.Versions.{Shared, on_backend}
use agentic_rag.Cache.Gateway.{Wiring, Answer, Hit, Gateway, clock, versions}
use agentic_rag.Cache.Gateway.Ranking.{Reaches, ranked_candidates_total}
use agentic_rag.Cache.Gateway.Lookup.{
  aged_hit, hit_of, try_ranked, rank_index, read, exact_hit, exact_lookup, candidate_hit,
  try_candidates, search_index, semantic_with, semantic_lookup, or_semantic, find, conclude, lookup,
}
use agentic_rag.Cache.Gateway.Usable.{
  IsUsable, IfSome, IsUsableSomewhere, read-IsUsable, read-Ensures,
}

-- a hit stands in the backend under its own key; `start` is the backend once the versions are read
pub record IsSound (w : Wiring) (v : CacheVersions) (normalized : String) (start : w.backend.State)
    (hit : Hit w) : Type 0 where
  pub read_at : w.backend.State
  pub usable : IsUsable w v hit.cache_key read_at hit.entry
  pub kind : (hit.cache_type ≡ exact) ⊎ (hit.cache_type ≡ semantic)
  pub by_key :
      hit.cache_type ≡ exact
      → (hit.cache_key ≡ answer_key w.texts w.settings.namespace v normalized) × (read_at ≡ start)
  pub by_similarity :
      hit.cache_type ≡ semantic → w.floats.leb w.settings.similarity_threshold hit.similarity ≡ true

module _ (w : Wiring) (v : CacheVersions) where
  open w use {backend, settings}

  module _ (normalized : String) (start : backend.State) where
    semantic_hit-Ensures :
        (key : String) (similarity : w.floats.Float) (entry : Answer w)
        → IsUsableSomewhere w v key entry
        → w.floats.leb settings.similarity_threshold similarity ≡ true
        → Ensures (IfSome (IsSound w v normalized start)) (aged_hit w semantic key similarity entry)
    unfolding aged_hit
    semantic_hit-Ensures key similarity entry u reach =
        Ensures-bind (λ _. Unit) (clock w)
          (λ now. pure (some (hit_of w semantic key similarity entry now)))
          (record { at = λ s a e. tt })
          (λ now _. Ensures-pure (some (hit_of w semantic key similarity entry now)) (record {
            read_at = u.0;
            usable = u.1;
            kind = inr refl;
            by_key = λ e. absurd (cc e);
            by_similarity = λ e. reach;
          }))

    candidate_hit-Ensures :
        (namespace key : String) (similarity : w.floats.Float)
        (rest : Exec (Shared backend) (Option (Hit w))) (o : Option (Answer w))
        → w.floats.leb settings.similarity_threshold similarity ≡ true
        → Ensures (IfSome (IsSound w v normalized start)) rest
        → IfSome (IsUsableSomewhere w v key) o
        → Ensures
            (IfSome (IsSound w v normalized start))
            (candidate_hit w namespace key similarity rest o)
    unfolding candidate_hit
    candidate_hit-Ensures namespace key similarity rest none reach others u =
        Ensures-bind (λ _. Unit) _ (λ _. rest) (record { at = λ s a e. tt }) (λ a _. others)
    candidate_hit-Ensures namespace key similarity rest (some entry) reach others u =
        semantic_hit-Ensures key similarity entry u reach

    try_candidates-Ensures :
        (namespace : String) (ranked : List (String × w.floats.Float))
        → All (Reaches w.floats settings.similarity_threshold) ranked
        → Ensures (IfSome (IsSound w v normalized start)) (try_candidates w namespace v ranked)
    unfolding try_candidates
    try_candidates-Ensures namespace [] reach = Ensures-pure none tt
    try_candidates-Ensures namespace ((key, similarity) ∷ ranked) reach =
        Ensures-bind (IfSome (IsUsableSomewhere w v key)) (read w key v) _ (read-Ensures w v key)
          (λ o u.
            candidate_hit-Ensures namespace key similarity _ o reach.0
              (try_candidates-Ensures namespace ranked reach.1) u)

    try_ranked-Ensures :
        (namespace : String) (indexed : List (String × List w.floats.Float))
        (embedding : List w.floats.Float)
        → Ensures
            (IfSome (IsSound w v normalized start))
            (try_ranked w namespace v indexed embedding)
    unfolding try_ranked
    try_ranked-Ensures namespace indexed embedding =
        let (ranked, done, descending, reach) =
          ranked_candidates_total w.floats settings.similarity_threshold embedding indexed in
        rw done (try_candidates-Ensures namespace ranked reach)

    rank_index-Ensures :
        (embed : String → Exec backend.State (List w.floats.Float)) (namespace : String)
        (indexed : List (String × List w.floats.Float))
        → Ensures
            (IfSome (IsSound w v normalized start))
            (rank_index w embed namespace normalized v indexed)
    unfolding rank_index
    rank_index-Ensures embed namespace [] = Ensures-pure none tt
    rank_index-Ensures embed namespace (e ∷ indexed) =
        Ensures-bind (λ _. Unit) (on_backend backend (embed normalized))
          (try_ranked w namespace v (e ∷ indexed)) (record { at = λ s a e. tt })
          (λ embedding _. try_ranked-Ensures namespace (e ∷ indexed) embedding)

    semantic_with-Ensures :
        (o : Option (String → Exec backend.State (List w.floats.Float))) (enabled : Bool)
        → Ensures (IfSome (IsSound w v normalized start)) (semantic_with w o enabled normalized v)
    unfolding semantic_with search_index
    semantic_with-Ensures none enabled = Ensures-pure none tt
    semantic_with-Ensures (some embed) false = Ensures-pure none tt
    semantic_with-Ensures (some embed) true =
        let namespace = index_namespace w.texts settings.namespace v in
        Ensures-bind (λ _. Unit) (on_backend backend (backend.index_entries namespace))
          (rank_index w embed namespace normalized v) (record { at = λ s a e. tt })
          (λ indexed _. rank_index-Ensures embed namespace indexed)

    semantic_lookup-Ensures :
        Ensures (IfSome (IsSound w v normalized start)) (semantic_lookup w normalized v)
    unfolding semantic_lookup
    semantic_lookup-Ensures = semantic_with-Ensures w.embed_text settings.semantic_enabled

  module _ (normalized : String) where
    -- an exact hit is what the read of the query's key finds
    exact_hit-IsSound :
        (s t : Shared backend) (o : Option (Answer w)) (hit : Hit w)
        → (read w (answer_key w.texts settings.namespace v normalized) v s).0 ≡ ok o
        → (exact_hit w (answer_key w.texts settings.namespace v normalized) o t).0 ≡ ok (some hit)
        → IsSound w v normalized s.backend hit
    unfolding exact_hit aged_hit
    exact_hit-IsSound s t none hit found e = absurd (cc e)
    exact_hit-IsSound s t (some entry) hit found e =
        let key = answer_key w.texts settings.namespace v normalized in
        let served : hit_of w exact key w.floats.unit entry (backend.clock t.backend).0 ≡ hit =
          cc in
        subst (IsSound w v normalized s.backend) served (record {
          read_at = s.backend;
          usable = read-IsUsable w v key s entry found;
          kind = inl refl;
          by_key = λ e. (refl, refl);
          by_similarity = λ e. absurd (cc e);
        })

    exact_lookup-IsSound :
        (s : Shared backend) (hit : Hit w)
        → (exact_lookup w normalized v s).0 ≡ ok (some hit)
        → IsSound w v normalized s.backend hit
    unfolding exact_lookup
    exact_lookup-IsSound s hit e =
        let key = answer_key w.texts settings.namespace v normalized in
        sound (read w key v s).0 refl e
      where
        sound :
            (r : Result (Option (Answer w)))
            → (read w (answer_key w.texts settings.namespace v normalized) v s).0 ≡ r
            → (continue r
                (exact_hit w (answer_key w.texts settings.namespace v normalized))
                (read w (answer_key w.texts settings.namespace v normalized) v s).1).0
              ≡ ok (some hit)
            → IsSound w v normalized s.backend hit
        sound (ok o) found e =
            exact_hit-IsSound s (read w (answer_key w.texts settings.namespace v normalized) v s).1
              o hit found e
        sound (raise x) found e = absurd (cc e)

    found-IsSound :
        (s : Shared backend) (hit : Hit w)
        → ((exact_lookup w normalized v >>= or_semantic w normalized v) s).0 ≡ ok (some hit)
        → IsSound w v normalized s.backend hit
    unfolding or_semantic
    found-IsSound s hit e = sound (exact_lookup w normalized v s).0 refl e
      where
        sound :
            (r : Result (Option (Hit w)))
            → (exact_lookup w normalized v s).0 ≡ r
            → (continue r (or_semantic w normalized v) (exact_lookup w normalized v s).1).0
              ≡ ok (some hit)
            → IsSound w v normalized s.backend hit
        sound (ok none) found e =
            (semantic_lookup-Ensures normalized s.backend).at (exact_lookup w normalized v s).1
              (some hit) e
        sound (ok (some other)) found e = exact_lookup-IsSound s hit (cc)
        sound (raise x) found e = absurd (cc e)

module _ (w : Wiring) where
  abbrev IsFound : String → Shared w.backend → Hit w → Type 0
  IsFound normalized s hit =
      (v : CacheVersions) × ((versions w s).0 ≡ ok v)
      × IsSound w v normalized (versions w s).1.backend hit

  pub find-IsSound :
      (normalized : String) (s : Shared w.backend) (hit : Hit w)
      → (find w normalized s).0 ≡ ok (some hit)
      → IsFound normalized s hit
  unfolding find
  find-IsSound normalized s hit e = sound (versions w s).0 refl e
    where
      sound :
          (r : Result CacheVersions)
          → (versions w s).0 ≡ r
          → (continue r
              (λ v. exact_lookup w normalized v >>= or_semantic w normalized v)
              (versions w s).1).0
            ≡ ok (some hit)
          → IsFound normalized s hit
      sound (ok v) p q = (v, p, found-IsSound w v normalized (versions w s).1 hit q)
      sound (raise x) p q = absurd (cc)

  -- A hit stands in the backend under the key that it names: a read of that key found a text that
  -- decodes to the entry, which carried the very versions in force and was live when the clock was
  -- read next. An exact hit is under the key of the query, as the backend stood once the versions
  -- were resolved; a semantic hit reaches the similarity threshold.
  pub lookup-IsSound :
      (query : String) (g : Gateway w) (hit : Hit w)
      → (lookup w query g).0 ≡ some hit
      → (v : CacheVersions) × ((versions w g.shared).0 ≡ ok v)
        × IsSound w v (normalize_query w.texts query) (versions w g.shared).1.backend hit
  unfolding lookup conclude
  lookup-IsSound query g hit e =
      find-IsSound (normalize_query w.texts query) g.shared hit (ground (arith, e))
