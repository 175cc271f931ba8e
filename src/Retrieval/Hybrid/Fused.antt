-- ===== src/Retrieval/Hybrid/Fused.antt =====
-- What the fusion of app/retrieval/hybrid.py returns.
use agentic_rag.Prelude.{
  ℕ, ◌≤◌, ◌≡◌, inl, inr, sym, ap, ◌∙◌, subst, String, true, some, List, [], ◌∷◌, ◌++◌, map, length,
  length-map, length-take, take, All, AllPairs, AllPairs-take, All-take, All-weaken, arith,
}
use agentic_rag.Prelude.Text.{string_discrete}
use agentic_rag.Prelude.Floats.{Floats}
use agentic_rag.Prelude.Sort.{
  sort_desc, IsDescending, sort_desc-IsDescending, sort_desc-All, sort_desc-AllPairs,
  IsDescending-take,
}
use agentic_rag.Dict.{Dict, get}
use agentic_rag.Core.Errors.{Result, ok, ◌>>=◌}
use agentic_rag.Retrieval.Base.{ScoredDocument, RetrievalQuery}
use agentic_rag.Retrieval.Query.{RetrievalSettings, or_number}
use agentic_rag.Retrieval.Fusion.{reciprocal_rank_fusion}
use agentic_rag.Retrieval.Fusion.Ids.{is_some, IsFusion, reciprocal_rank_fusion-IsFusion}
use agentic_rag.Retrieval.Hybrid.{documents_by_id, rebuilt, fused_score, rankings, fuse}
use agentic_rag.Retrieval.Hybrid.Documents.{
  entries-found, Differ, IsDistinct-AllPairs, Holds, documents_by_id-found, documents_by_id-Holds,
  IsAmong, IsOwn, IsOwn-self, row_of, rebuilt_total, ranks-append,
}

module _ (F : Floats) (settings : RetrievalSettings F.Float) where
  open F use {Float, unit, sub}

  -- what a fusion of two rankings must be, for a page of the given size
  pub record IsFused (dense sparse out : List (ScoredDocument Float)) (page : ℕ) : Type 0 where
    pub fits : length out ≤ page
    pub among : All (λ d. IsAmong (sparse ++ dense) d.document) out
    pub descending : IsDescending F (fused_score F settings) (map row_of out)
    pub distinct : AllPairs Differ (map row_of out)
    pub fused : Dict String Float
    pub fusion : IsFusion F (rankings F settings dense sparse) fused
    pub best : map row_of out ≡ take page (sort_desc F (fused_score F settings) fused)

  module _ (dense sparse : List (ScoredDocument Float)) (fused : Dict String Float)
      (f : IsFusion F (rankings F settings dense sparse) fused) where
    by_id-found :
        (id : String)
        → is_some (get string_discrete id fused) ≡ true
        → is_some (get string_discrete id (documents_by_id (sparse ++ dense) [])) ≡ true
    unfolding get
    by_id-found id ranked = ground (
      arith,
      documents_by_id-found (sparse ++ dense) [] id,
      ranks-append id sparse dense,
      f.scored id,
      ranked,
    )

    ranked-found :
        All
          (λ r. is_some (get string_discrete r.0 (documents_by_id (sparse ++ dense) [])) ≡ true)
          (sort_desc F (fused_score F settings) fused)
    ranked-found =
        sort_desc-All F (fused_score F settings) _ fused
          (All-weaken _ _ fused (λ r h. by_id-found r.0 h) (entries-found fused fused (λ id h. h)))

    no_documents : Holds (IsOwn (sparse ++ dense)) []
    unfolding get
    no_documents id x e = absurd (cc e)

    out_of_fused :
        (page : ℕ)
        → (out : List (ScoredDocument Float)) × (rebuilt
              (documents_by_id (sparse ++ dense) [])
              (take page (sort_desc F (fused_score F settings) fused))
            ≡ ok out)
          × IsFused dense sparse out page
    out_of_fused page =
        let both = sparse ++ dense in
        let ranked = sort_desc F (fused_score F settings) fused in
        let (out, done, rows, all) =
          rebuilt_total both (documents_by_id both [])
            (documents_by_id-Holds (IsOwn both) both [] (IsOwn-self both) no_documents)
            (take page ranked) (All-take _ page ranked ranked-found) in
        (
          out,
          done,
          record {
            fits = omega (arith, length-map row_of out, ap length rows, length-take page ranked);
            among = all;
            descending = subst (IsDescending F (fused_score F settings)) (sym rows) (
                IsDescending-take F (fused_score F settings) page ranked
                  (sort_desc-IsDescending F (fused_score F settings) fused));
            distinct = subst (AllPairs Differ) (sym rows) (
                AllPairs-take Differ page ranked (
                  sort_desc-AllPairs F (fused_score F settings) Differ (λ r s h e. h (sym e)) fused
                    (IsDistinct-AllPairs fused f.distinct)));
            fused = fused;
            fusion = f;
            best = rows;
          },
        )

  -- what follows the fusion
  finish :
      List (ScoredDocument Float)
      → List (ScoredDocument Float)
      → RetrievalQuery Float
      → Dict String Float
      → Result (List (ScoredDocument Float))
  finish dense sparse query fused =
      rebuilt (documents_by_id (sparse ++ dense) [])
        (take (or_number query.top_k settings.top_k) (sort_desc F (fused_score F settings) fused))

  -- Fusing two rankings never raises, whatever they hold: the result fits the page, each document of
  -- it is one that a side returned, no id stands twice, the scores descend, and they are the best of
  -- a fusion that scores exactly the ids of the two sides.
  pub fuse-IsFused :
      (dense sparse : List (ScoredDocument Float)) (query : RetrievalQuery Float)
      → (out : List (ScoredDocument Float)) × (fuse F settings dense sparse query ≡ ok out)
        × IsFused dense sparse out (or_number query.top_k settings.top_k)
  unfolding fuse reciprocal_rank_fusion finish
  fuse-IsFused dense sparse query =
      let weights = settings.dense_weight ∷ sub unit settings.dense_weight ∷ [] in
      elim (reciprocal_rank_fusion-IsFusion F (rankings F settings dense sparse) (some weights)
        settings.rrf_k) [
          | inl (fused, done, f) ↦
              let (out, made, good) =
                out_of_fused dense sparse fused f (or_number query.top_k settings.top_k) in
              (
                out,
                ap (λ (r : Result (Dict String Float)). r >>= finish dense sparse query) done
                    ∙ made,
                good,
              )
          | inr (ws, given, other, raised) ↦
              let same : weights ≡ ws = cc given in absurd (other (ap length (sym same)))
        ]
