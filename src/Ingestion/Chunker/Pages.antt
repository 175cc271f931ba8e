-- ===== src/Ingestion/Chunker/Pages.antt =====
-- Chunking the pages of app/ingestion: every chunk has text and can be traced to its page.
use agentic_rag.Prelude.{
  ℕ, suc, ◌≡◌, refl, ap, ◌∙◌, String, true, List, [], ◌∷◌, ◌++◌, select, All, All-append,
  All-weaken, Any, Bool-cases, inl, inr,
}
use agentic_rag.Core.Errors.{ok}
use agentic_rag.Retrieval.Base.{Document, stripped}
use agentic_rag.Ingestion.Metadata.{Formats, PageMetadata, for_page, from_mapping, page_mapping}
use agentic_rag.Ingestion.Metadata.Mapping.{IsReadable, from_mapping-stripped}
use agentic_rag.Prelude.Strip.{strip-strip}
use agentic_rag.Ingestion.Chunker.{has_text, to_document, documents_from, split, chunk}

module _ (T : Formats) (split_text : String → List String) where
  -- a document of a page, as the loader makes it
  pub record IsPage (document : Document) : Type 0 where
    pub page : PageMetadata T
    pub described : document.metadata ≡ stripped [] (page_mapping T page)
    pub readable : IsReadable T page

  -- a chunk with text, which names the page that it was cut from
  pub record IsChunkOf (page : PageMetadata T) (c : Document) : Type 0 where
    pub some_text : has_text c.content ≡ true
    pub traced : from_mapping T c.metadata ≡ ok page

  -- a chunk of one of the documents
  abbrev pub IsCutFrom : List Document → Document → Type 0
  IsCutFrom documents c =
      Any
        (λ (d : Document).
          (page : PageMetadata T) × (d.metadata ≡ stripped [] (page_mapping T page))
          × IsChunkOf page c)
        documents

  documents_from-All :
      (page : PageMetadata T) (index : ℕ) (texts : List String)
      → IsReadable T page
      → All (IsChunkOf page) (documents_from T split_text page index (select has_text texts))
  unfolding documents_from to_document has_text
  documents_from-All page index [] s = tt
  documents_from-All page index (text ∷ texts) s = elim (Bool-cases (has_text text)) [
    | inl some_text ↦ rw some_text (
      record {
        some_text = rw (strip-strip text) some_text;
        traced = (from_mapping-stripped T (for_page T page index) s).1;
      },
      documents_from-All page (suc index) texts s,
    )
    | inr blank ↦ rw blank (documents_from-All page index texts s)
  ]

  split-All :
      (d : Document) (p : IsPage d)
      → (out : List Document) × (split T split_text d ≡ ok out) × All (IsChunkOf p.page) out
  unfolding split
  split-All d p =
      let read : from_mapping T d.metadata ≡ ok p.page =
        ap (from_mapping T) p.described
        ∙ (from_mapping-stripped T (for_page T p.page 0) p.readable).0 in
      (
        documents_from T split_text p.page 0 (select has_text (split_text d.content)),
        rw (read, split) refl,
        documents_from-All p.page 0 (split_text d.content) p.readable,
      )

  IsCutFrom-head :
      (d : Document) (ds : List Document) (p : IsPage d) (cs : List Document)
      → All (IsChunkOf p.page) cs
      → All (IsCutFrom (d ∷ ds)) cs
  IsCutFrom-head d ds p cs h =
      All-weaken (IsChunkOf p.page) (IsCutFrom (d ∷ ds)) cs (λ c k. inl (p.page, p.described, k)) h

  -- Chunking documents that the loader made returns, and raises nothing: each chunk has text that is
  -- not blank, and its metadata read back name the page of one of the documents.
  pub chunk-IsCutFrom :
      (documents : List Document)
      → All IsPage documents
      → (chunks : List Document) × (chunk T split_text documents ≡ ok chunks)
        × All (IsCutFrom documents) chunks
  unfolding chunk
  chunk-IsCutFrom [] h = ([], refl, tt)
  chunk-IsCutFrom (d ∷ ds) h =
      let (first, cut, good) = split-All d h.0 in
      let (rest, more, all) = chunk-IsCutFrom ds h.1 in
      (
        first ++ rest,
        rw (cut, chunk, more) refl,
        All-append (IsCutFrom (d ∷ ds)) first rest (IsCutFrom-head d ds h.0 first good)
            (All-weaken (IsCutFrom ds) (IsCutFrom (d ∷ ds)) rest (λ c k. inr k) all),
      )
