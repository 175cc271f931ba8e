-- ===== src/Retrieval/Hybrid/Documents.antt =====
-- The table of documents by id in app/retrieval/hybrid.py, and what is rebuilt from it.
use agentic_rag.Prelude.{
  ◌≡◌, ◌≢◌, inl, inr, refl, sym, ap, ◌∙◌, subst, String, true, Option, none, some, List, [], ◌∷◌,
  ◌++◌, map, All, Any, AllPairs, arith, ite, if◌then◌else◌,
}
use agentic_rag.Prelude.Text.{string_discrete}
use agentic_rag.Dict.{Dict, get, assign}
use agentic_rag.Dict.Keys.{IsDistinct, Absent}
use agentic_rag.Dict.Lookup.{get-assign}
use agentic_rag.Core.Errors.{ok}
use agentic_rag.Retrieval.Base.{Document, ScoredDocument}
use agentic_rag.Retrieval.Fusion.Ids.{is_some, ranks}
use agentic_rag.Retrieval.Hybrid.{id_of, documents_by_id, document_at, rebuilt}

-- every key of a dictionary is found in it
pub entries-found :
    {V : Type 0} (whole d : Dict String V)
    → ((id : String)
        → is_some (get string_discrete id d) ≡ true
        → is_some (get string_discrete id whole) ≡ true)
    → All (λ e. is_some (get string_discrete e.0 whole) ≡ true) d
unfolding get
entries-found whole [] h = tt
entries-found whole (e ∷ d) h =
    (h e.0 (ground arith), entries-found whole d (λ id found. h id (ground (arith, found))))

Absent-All : {V : Type 0} (k : String) (d : Dict String V) → Absent k d → All (λ e. e.0 ≢ k) d
Absent-All k [] h = tt
Absent-All k (e ∷ d) h = (h.0, Absent-All k d h.1)

-- two rows of different keys
abbrev pub Differ : {V : Type 0} → String × V → String × V → Type 0
Differ r s = s.0 ≢ r.0

pub IsDistinct-AllPairs : {V : Type 0} (d : Dict String V) → IsDistinct d → AllPairs Differ d
IsDistinct-AllPairs [] h = tt
IsDistinct-AllPairs (e ∷ d) h = (Absent-All e.0 d h.0, IsDistinct-AllPairs d h.1)

-- every document of the dictionary has the property, at its key
abbrev pub Holds : (String → Document → Type 0) → Dict String Document → Type 0
Holds K d = (id : String) (x : Document) → get string_discrete id d ≡ some x → K id x

assign-Holds :
    (K : String → Document → Type 0) (k : String) (v : Document) (d : Dict String Document)
    → K k v
    → Holds K d
    → Holds K (assign string_discrete k v d)
assign-Holds K k v d h old id x e =
    pick (string_discrete k id) (sym (get-assign string_discrete k id v d) ∙ e)
  where
    pick : (q : Dec (k ≡ id)) → ite q (some v) (get string_discrete id d) ≡ some x → K id x
    pick (yes p) found =
        subst (λ (y : Document). K id y) (cc found) (subst (λ (j : String). K j v) p h)
    pick (no p) found = old id x found

module _ {Float : Type 0} where
  pub documents_by_id-found :
      (xs : List (ScoredDocument Float)) (d : Dict String Document) (id : String)
      → is_some (get string_discrete id (documents_by_id xs d))
        ≡ (if ranks id (map id_of xs) then true else is_some (get string_discrete id d))
  unfolding documents_by_id
  documents_by_id-found [] d id = refl
  documents_by_id-found (x ∷ xs) d id = ground (
    arith,
    documents_by_id-found xs (assign string_discrete (id_of x) x.document d) id,
    get-assign string_discrete (id_of x) id x.document d,
  )

  module _ (K : String → Document → Type 0) where
    pub documents_by_id-Holds :
        (xs : List (ScoredDocument Float)) (d : Dict String Document)
        → All (λ s. K (id_of s) s.document) xs
        → Holds K d
        → Holds K (documents_by_id xs d)
    unfolding documents_by_id
    documents_by_id-Holds [] d h old = old
    documents_by_id-Holds (x ∷ xs) d h old =
        documents_by_id-Holds xs (assign string_discrete (id_of x) x.document d) h.1
          (assign-Holds K (id_of x) x.document d h.0 old)

  -- a document of the list
  abbrev pub IsAmong : List (ScoredDocument Float) → Document → Type 0
  IsAmong xs x = Any (λ (s : ScoredDocument Float). x ≡ s.document) xs

  -- a document of the list, under its own id
  abbrev pub IsOwn : List (ScoredDocument Float) → String → Document → Type 0
  IsOwn xs id x = (x.id ≡ id) × IsAmong xs x

  pub IsOwn-self : (xs : List (ScoredDocument Float)) → All (λ s. IsOwn xs (id_of s) s.document) xs
  IsOwn-self xs = go xs xs (λ x h. h)
    where
      go :
          (ys zs : List (ScoredDocument Float))
          → ((x : Document) → IsAmong ys x → IsAmong zs x)
          → All (λ s. IsOwn zs (id_of s) s.document) ys
      go [] zs f = tt
      go (y ∷ ys) zs f = ((refl, f y.document (inl refl)), go ys zs (λ x h. f x (inr h)))

  -- an id with its score, as the ranking has it
  abbrev pub row_of : ScoredDocument Float → String × Float
  row_of d = (id_of d, d.score)

  module _ (xs : List (ScoredDocument Float)) (d : Dict String Document)
      (own : Holds (IsOwn xs) d) where
    document_at_total :
        (id : String)
        → is_some (get string_discrete id d) ≡ true
        → (x : Document) × (document_at d id ≡ ok x) × IsOwn xs id x
    unfolding document_at
    document_at_total id found = at (get string_discrete id d) refl found
      where
        at :
            (o : Option Document)
            → get string_discrete id d ≡ o
            → is_some o ≡ true
            → (x : Document) × (document_at d id ≡ ok x) × IsOwn xs id x
        at none e h = absurd (cc h)
        at (some x) e h = (x, rw (e, document_at) refl, own id x e)

    pub rebuilt_total :
        (ranked : List (String × Float))
        → All (λ r. is_some (get string_discrete r.0 d) ≡ true) ranked
        → (out : List (ScoredDocument Float)) × (rebuilt d ranked ≡ ok out)
          × (map row_of out ≡ ranked)
          × All (λ s. IsAmong xs s.document) out
    unfolding rebuilt
    rebuilt_total [] h = ([], refl, refl, tt)
    rebuilt_total ((id, score) ∷ ranked) h =
        let (x, at, o) = document_at_total id h.0 in
        let (out, done, rows, all) = rebuilt_total ranked h.1 in
        let first : ScoredDocument Float = record { document = x; score = score } in
        (
          first ∷ out,
          rw (at, done) refl,
          ap (λ (j : String). (j, score) ∷ map row_of out) o.0 ∙ ap (◌∷◌ (id, score)) rows,
          (o.1, all),
        )

  pub ranks-append :
      (id : String) (xs ys : List (ScoredDocument Float))
      → ranks id (map id_of (xs ++ ys))
        ≡ (if ranks id (map id_of xs) then true else ranks id (map id_of ys))
  ranks-append id [] ys = refl
  ranks-append id (x ∷ xs) ys = ground (arith, ranks-append id xs ys)
