-- ===== src/Ingestion/Metadata/Mapping.antt =====
-- The flat mapping of app/ingestion/metadata.py is read back as it was written.
use agentic_rag.Prelude.{◌≡◌, refl, String, some, []}
use agentic_rag.Prelude.Text.{strip, decimal, string_discrete}
use agentic_rag.Prelude.Strip.{strip-strip}
use agentic_rag.Dict.{Dict, get}
use agentic_rag.Retrieval.Base.{stripped}
use agentic_rag.Core.Errors.{ok}
use agentic_rag.Ingestion.Metadata.{
  Formats, PageMetadata, ChunkMetadata, page_mapping, chunk_mapping, field, from_mapping,
}

module _ (T : Formats) where
  -- the texts have been stripped, as every model of the program does, and the libraries read back the
  -- number and the instant that they print
  pub record IsReadable (m : PageMetadata T) : Type 0 where
    pub filename : strip m.filename ≡ m.filename
    pub source : strip m.source ≡ m.source
    pub page : T.read_int (strip (decimal m.page)) ≡ some m.page
    pub created_at : T.read_instant (strip (T.isoformat m.created_at)) ≡ some m.created_at

  -- a mapping with the texts of the four fields, each as `f` writes it
  record IsMappingOf (f : String → String) (m : PageMetadata T) (d : Dict String String)
      : Type 0 where
    pub filename : get string_discrete "filename" d ≡ some (f m.filename)
    pub page : get string_discrete "page" d ≡ some (f (decimal m.page))
    pub created_at : get string_discrete "created_at" d ≡ some (f (T.isoformat m.created_at))
    pub source : get string_discrete "source" d ≡ some (f m.source)

  -- texts as a model leaves them
  module _ (f : String → String) (same : (s : String) → strip (f s) ≡ strip s) where
    field_of :
        (key text : String) (d : Dict String String)
        → get string_discrete key d ≡ some (f text)
        → field T key d ≡ ok (strip text)
    unfolding field
    field_of key text d h = rw (h, field, same text) refl

    from_mapping_of :
        (m : PageMetadata T) (d : Dict String String)
        → IsReadable m
        → IsMappingOf f m d
        → from_mapping T d ≡ ok m
    unfolding from_mapping
    from_mapping_of m d s h =
        rw
          (
            field_of "filename" m.filename d h.filename,
            from_mapping,
            field_of "page" (decimal m.page) d h.page,
            s.page,
            field_of "created_at" (T.isoformat m.created_at) d h.created_at,
            s.created_at,
            field_of "source" m.source d h.source,
            s.filename,
            s.source,
          )
          refl

  -- the mappings of a page and of a chunk as their documents hold them
  pub from_mapping-stripped :
      (m : ChunkMetadata T)
      → IsReadable m.on_page
      → (from_mapping T (stripped [] (page_mapping T m.on_page)) ≡ ok m.on_page)
        × (from_mapping T (stripped [] (chunk_mapping T m)) ≡ ok m.on_page)
  unfolding page_mapping chunk_mapping stripped get string_discrete agentic_rag.Dict.assign strip
  from_mapping-stripped m s = (
    from_mapping_of strip strip-strip m.on_page (stripped [] (page_mapping T m.on_page)) s
        (record { filename = refl; page = refl; created_at = refl; source = refl }),
    from_mapping_of strip strip-strip m.on_page (stripped [] (chunk_mapping T m)) s
        (record { filename = refl; page = refl; created_at = refl; source = refl }),
  )

  -- If the texts of a page are stripped, and its number and instant are read back from their own texts,
  -- then reading the mapping of the page gives the page again, and reading that of a chunk gives the
  -- page that the chunk is on.
  pub from_mapping-roundtrip :
      (m : ChunkMetadata T)
      → IsReadable m.on_page
      → (from_mapping T (page_mapping T m.on_page) ≡ ok m.on_page)
        × (from_mapping T (chunk_mapping T m) ≡ ok m.on_page)
  unfolding page_mapping chunk_mapping get string_discrete
  from_mapping-roundtrip m s = (
    from_mapping_of (λ t. t) (λ t. refl) m.on_page (page_mapping T m.on_page) s
        (record { filename = refl; page = refl; created_at = refl; source = refl }),
    from_mapping_of (λ t. t) (λ t. refl) m.on_page (chunk_mapping T m) s
        (record { filename = refl; page = refl; created_at = refl; source = refl }),
  )
