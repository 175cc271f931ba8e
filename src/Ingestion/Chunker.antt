-- ===== src/Ingestion/Chunker.antt =====
-- app/ingestion/chunker.py: pages into chunks. The splitter of the library is a parameter.
pub mod Pages
use agentic_rag.Prelude.{ℕ, suc, String, Bool, not, List, [], ◌∷◌, ◌++◌, select}
use agentic_rag.Prelude.Text.{is_blank, strip}
use agentic_rag.Core.Errors.{Result, ok, raise, ◌>>=◌}
use agentic_rag.Retrieval.Base.{Document, document_of}
use agentic_rag.Ingestion.Metadata.{
  Formats, PageMetadata, for_page, from_mapping, chunk_mapping, chunk_id,
}

-- `if text.strip()`
unfoldable pub has_text : String → Bool
unfolding strip
has_text text = not (is_blank (strip text))

module _ (T : Formats) (split_text : String → List String) where
  -- `_to_document`
  unfoldable pub to_document : PageMetadata T → ℕ → String → Document
  unfolding chunk_id chunk_mapping document_of
  to_document page index text =
      document_of (chunk_id T (for_page T page index) text) text
        (chunk_mapping T (for_page T page index))

  -- `[self._to_document(page, index, text) for index, text in enumerate(texts)]`
  unfoldable pub documents_from : PageMetadata T → ℕ → List String → List Document
  unfolding to_document
  documents_from page index [] = []
  documents_from page index (text ∷ texts) =
      to_document page index text ∷ documents_from page (suc index) texts

  -- `_split`
  unfoldable pub split : Document → Result (List Document)
  unfolding documents_from has_text
  split document = do
    page ← from_mapping T document.metadata
    ok (documents_from page 0 (select has_text (split_text document.content)))

  -- `chunk`
  unfoldable pub chunk : List Document → Result (List Document)
  chunk [] = ok []
  chunk (document ∷ documents) = do
    first ← split document
    rest ← chunk documents
    ok (first ++ rest)
