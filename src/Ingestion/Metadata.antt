-- ===== src/Ingestion/Metadata.antt =====
-- app/ingestion/metadata.py: the provenance of pages and chunks, and the ids derived from it. The
-- lower-case table, the digest and the text form of an instant are parameters.
pub mod Slugs
pub mod Mapping
use Prim.Native.Char.{code}
use Prim.Native.String
use agentic_rag.Prelude.{
  ℕ, zero, suc, ◌-◌, ◌≡◌, String, Bool, true, false, not, ◌&&◌, ◌||◌, Option, none, some, List, [],
  ◌∷◌, leb, ltb, ◌==◌, if◌then◌else◌,
}
use agentic_rag.Prelude.Text.{
  is_blank, or_else, lstrip, rstrip, strip, decimal, string_discrete, ◌<>◌,
}
use agentic_rag.Prelude.Slices.{text_length, text_take}
use agentic_rag.Dict.{Dict, get}
use agentic_rag.Core.Errors.{Result, ok, raise, value_error, ◌>>=◌}

-- `[a-z0-9]`
unfoldable pub is_slug_char : ℕ → Bool
is_slug_char c = (leb 97 c && leb c 122) || (leb 48 c && leb c 57)

abbrev pub is_dash : ℕ → Bool
is_dash c = c == 45

-- `_NON_SLUG.sub("-", text)`: each run of other characters becomes one dash
unfoldable pub dashed : Bool → String → String
unfolding is_slug_char
dashed in_run String.[] = String.[]
dashed in_run (String.◌∷◌ c s) =
    let kept = String.◌∷◌ c (dashed false s) in
    let rest = dashed true s in
    if is_slug_char (code c) then kept else if in_run then rest else String.◌∷◌ "-" rest

-- `slugify`, over a text in lower case
unfoldable pub slug_of : String → String
unfolding dashed lstrip rstrip
slug_of lowered = or_else (rstrip is_dash (lstrip is_dash (dashed false lowered))) "document"

-- `Path(name).stem` for a bare file name: up to the last dot, unless it is the first or the last
-- character
unfoldable pub before_dot : String → Option String
before_dot String.[] = none
before_dot (String.◌∷◌ c s) = elim (before_dot s) [
  | some p ↦ some (String.◌∷◌ c p)
  | none ↦ if code c == 46 then some String.[] else none
]

unfoldable pub ends_with_dot : String → Bool
ends_with_dot String.[] = false
ends_with_dot (String.◌∷◌ c s) = if is_blank s then code c == 46 else ends_with_dot s

unfoldable pub stem : String → String
unfolding before_dot ends_with_dot
stem name = elim (before_dot name) [
  | none ↦ name
  | some p ↦ if is_blank p || ends_with_dot name then name else p
]

-- `f"{n:04d}"`
unfoldable pub padded : ℕ → String
unfolding decimal
padded n = text_take (4 - text_length (decimal n)) "0000" <> decimal n

-- what is read from the interpreter and from libraries: `str.lower`, `hashlib.sha256(…).hexdigest()`,
-- `datetime.isoformat`, and how pydantic reads an integer and an instant
pub record Formats : Type 1 where
  pub Instant : Type 0
  pub lower : String → String
  pub sha256_hex : String → String
  pub isoformat : Instant → String
  pub read_instant : String → Option Instant
  pub read_int : String → Option ℕ

module _ (T : Formats) where
  open T use {Instant}

  -- `slugify`
  unfoldable pub slugify : String → String
  unfolding slug_of
  slugify value = slug_of (T.lower value)

  -- `PageMetadata`
  pub record PageMetadata : Type 0 where
    pub filename : String
    pub page : ℕ
    pub created_at : Instant
    pub source : String

  -- `ChunkMetadata`
  pub record ChunkMetadata : Type 0 where
    pub on_page : PageMetadata
    pub chunk : ℕ

  -- `ChunkMetadata.for_page`
  abbrev pub for_page : PageMetadata → ℕ → ChunkMetadata
  for_page page chunk = record { on_page = page; chunk = chunk }

  -- `as_mapping`, of a page and of a chunk
  unfoldable pub page_mapping : PageMetadata → Dict String String
  unfolding decimal
  page_mapping m =
      ("filename", m.filename)
      ∷ ("page", decimal m.page)
      ∷ ("created_at", T.isoformat m.created_at)
      ∷ ("source", m.source)
      ∷ []

  unfoldable pub chunk_mapping : ChunkMetadata → Dict String String
  unfolding decimal
  chunk_mapping m =
      ("filename", m.on_page.filename)
      ∷ ("page", decimal m.on_page.page)
      ∷ ("created_at", T.isoformat m.on_page.created_at)
      ∷ ("source", m.on_page.source)
      ∷ ("chunk", decimal m.chunk)
      ∷ []

  -- a required field, stripped; a missing one is refused by the validation
  unfoldable pub field : String → Dict String String → Result String
  unfolding strip
  field key d = elim (get string_discrete key d) [
    | none ↦ raise value_error
    | some s ↦ ok (strip s)
  ]

  abbrev pub required : {A : Type 0} → Option A → Result A
  required none = raise value_error
  required (some a) = ok a

  -- `PageMetadata.from_mapping`
  unfoldable pub from_mapping : Dict String String → Result PageMetadata
  from_mapping d = do
    filename ← field "filename" d
    page_text ← field "page" d
    page ← required (T.read_int page_text)
    created_text ← field "created_at" d
    created_at ← required (T.read_instant created_text)
    source ← field "source" d
    ok (record { filename = filename; page = page; created_at = created_at; source = source })

  -- `document_id`
  unfoldable pub document_id : PageMetadata → String
  unfolding slugify stem padded
  document_id m = slugify (stem m.filename) <> "-p" <> padded m.page

  -- `chunk_id`
  unfoldable pub chunk_id : ChunkMetadata → String → String
  unfolding document_id padded text_take
  chunk_id m content =
      document_id m.on_page <> "-c" <> padded m.chunk <> "-" <> text_take 8 (T.sha256_hex content)
