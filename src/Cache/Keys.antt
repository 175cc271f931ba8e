-- ===== src/Cache/Keys.antt =====
-- app/cache/keys.py: query normalisation and cache keys. `unicodedata.normalize("NFKC", …)` and
-- `str.casefold` are tables of the Unicode standard, and `hashlib.sha256` is a digest: parameters.
pub mod Normal
use Prim.Native.Char.{Char, code, nul}
use agentic_rag.Prelude.{
  ℕ, zero, suc, String, Bool, true, false, ◌&&◌, ◌||◌, ◌==◌, leb, if◌then◌else◌,
}
use agentic_rag.Prelude.Text.{is_blank, is_space, rstrip, strip, ◌<>◌}

pub record Texts : Type 0 where
  pub nfkc : String → String
  pub casefold : String → String
  pub sha256_hex : String → String

-- `_PUNCTUATION_VARIANTS`, over code points
unfoldable pub punctuation_variant : Char → Char
punctuation_variant c =
    let n = code c in
    if n == 0x2018 || n == 0x2019 || n == 0x201a
    then "'"
    else if n == 0x201c || n == 0x201d
    then "\""
    else if n == 0x2013 || n == 0x2014 || n == 0x2212
    then "-"
    else c

unfoldable pub translate : (Char → Char) → String → String
translate f String.[] = String.[]
translate f (String.◌∷◌ c s) = String.◌∷◌ (f c) (translate f s)

-- `_TRAILING_PUNCTUATION` and the class of `_REPEATED_PUNCTUATION`: ? ! . , ; :
unfoldable pub is_punctuation : ℕ → Bool
is_punctuation c = c == b'?' || c == b'!' || c == b'.' || c == b',' || c == b';' || c == b':'

-- `_WHITESPACE.sub(" ", text)`; `in_run` tells whether the character before was white space
unfoldable pub collapse_spaces : Bool → String → String
unfolding is_space
collapse_spaces in_run String.[] = String.[]
collapse_spaces in_run (String.◌∷◌ c s) =
    let rest = collapse_spaces (is_space (code c)) s in
    if is_space (code c) then (if in_run then rest else String.◌∷◌ " " rest) else String.◌∷◌ c rest

-- `_REPEATED_PUNCTUATION.sub(r"\1", text)`; `before` is the code of the character before, and 0
-- at the start
unfoldable pub collapse_repeats : ℕ → String → String
unfolding is_punctuation
collapse_repeats before String.[] = String.[]
collapse_repeats before (String.◌∷◌ c s) =
    let rest = collapse_repeats (code c) s in
    if is_punctuation (code c) && code c == before then rest else String.◌∷◌ c rest

-- the steps of `normalize_query` that follow the two Unicode tables
unfoldable pub tidy : String → String
unfolding collapse_spaces collapse_repeats strip rstrip
tidy text = strip (rstrip is_punctuation (collapse_repeats 0 (strip (collapse_spaces false text))))

unfoldable pub normalize_query : Texts → String → String
unfolding tidy translate punctuation_variant
normalize_query t query = tidy (t.casefold (translate punctuation_variant (t.nfkc query)))

-- the first characters of a text, `text[:n]`
unfoldable pub take_text : ℕ → String → String
take_text zero s = String.[]
take_text (suc n) String.[] = String.[]
take_text (suc n) (String.◌∷◌ c s) = String.◌∷◌ c (take_text n s)

-- app/cache/base.py: `CacheVersions`
pub record CacheVersions : Type 0 where
  pub knowledge_base_version : String
  pub model_version : String
  pub prompt_version : String

unfoldable pub fingerprint : Texts → CacheVersions → String
unfolding take_text
fingerprint t v = take_text 16 (
    t.sha256_hex (
      v.knowledge_base_version
      <> String.◌∷◌ nul (v.model_version <> String.◌∷◌ nul v.prompt_version)))

unfoldable pub query_digest : Texts → String → String
query_digest t normalized = t.sha256_hex normalized

unfoldable pub answer_key : Texts → String → CacheVersions → String → String
unfolding fingerprint query_digest
answer_key t namespace v normalized =
    "rag:answer:v1:" <> namespace <> ":" <> fingerprint t v <> ":" <> query_digest t normalized

unfoldable pub index_namespace : Texts → String → CacheVersions → String
unfolding fingerprint
index_namespace t namespace v = "rag:semantic:v1:" <> namespace <> ":" <> fingerprint t v

unfoldable pub knowledge_base_key : String → String
knowledge_base_key namespace = "rag:answer:v1:" <> namespace <> ":kb-version"
