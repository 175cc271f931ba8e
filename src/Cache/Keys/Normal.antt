-- ===== src/Cache/Keys/Normal.antt =====
-- What normalised queries look like: `normalize_query` of app/cache/keys.py.
use Prim.Native.Char.{code}
use agentic_rag.Prelude.{ℕ, String, ◌≡◌, refl, Bool, true, false, ◌&&◌, ◌==◌, Bool-cases, inl, inr}
use agentic_rag.Prelude.Text.{is_blank, is_space, lstrip, rstrip, strip}
use agentic_rag.Prelude.Strip.{strip-strip}
use agentic_rag.Cache.Keys.{
  Texts, normalize_query, tidy, collapse_spaces, is_punctuation, collapse_repeats, translate,
  punctuation_variant,
}

-- the white space characters of a text are single blanks
abbrev pub IsSpaced : String → Type 0
IsSpaced String.[] = Unit
IsSpaced (String.◌∷◌ c s) = (is_space (code c) ≡ true → code c ≡ 32) × IsSpaced s

collapse_spaces-IsSpaced : (b : Bool) (s : String) → IsSpaced (collapse_spaces b s)
unfolding collapse_spaces
collapse_spaces-IsSpaced b String.[] = tt
collapse_spaces-IsSpaced b (String.◌∷◌ c s) = elim (Bool-cases (is_space (code c))) [
  | inl space ↦ elim (Bool-cases b) [
    | inl inside ↦ rw (space, inside) (collapse_spaces-IsSpaced true s)
    | inr first ↦ rw (space, first) (λ h. refl, collapse_spaces-IsSpaced true s)
  ]
  | inr other ↦ rw other (λ h. absurd (cc (h, other)), collapse_spaces-IsSpaced false s)
]

lstrip-IsSpaced : (p : ℕ → Bool) (s : String) → IsSpaced s → IsSpaced (lstrip p s)
unfolding lstrip
lstrip-IsSpaced p String.[] h = tt
lstrip-IsSpaced p (String.◌∷◌ c s) (here, more) = elim (Bool-cases (p (code c))) [
  | inl hit ↦ rw hit (lstrip-IsSpaced p s more)
  | inr clean ↦ rw clean (here, more)
]

rstrip-IsSpaced : (p : ℕ → Bool) (s : String) → IsSpaced s → IsSpaced (rstrip p s)
unfolding rstrip
rstrip-IsSpaced p String.[] h = tt
rstrip-IsSpaced p (String.◌∷◌ c s) (here, more) =
    elim (Bool-cases (is_blank (rstrip p s) && p (code c))) [
      | inl dropped ↦ rw dropped tt
      | inr stays ↦ rw stays (here, rstrip-IsSpaced p s more)
    ]

collapse_repeats-IsSpaced :
    (before : ℕ) (s : String) → IsSpaced s → IsSpaced (collapse_repeats before s)
unfolding collapse_repeats
collapse_repeats-IsSpaced before String.[] h = tt
collapse_repeats-IsSpaced before (String.◌∷◌ c s) (here, more) =
    elim (Bool-cases (is_punctuation (code c) && code c == before)) [
      | inl again ↦ rw again (collapse_repeats-IsSpaced (code c) s more)
      | inr fresh ↦ rw fresh (here, collapse_repeats-IsSpaced (code c) s more)
    ]

-- A normalised query has no white space at either end, and every white space character inside
-- it is a plain blank, whatever the query and the Unicode tables are.
pub normalize_query-IsSpaced :
    (t : Texts) (query : String)
    → (strip (normalize_query t query) ≡ normalize_query t query)
      × IsSpaced (normalize_query t query)
unfolding normalize_query tidy strip
normalize_query-IsSpaced t query =
    let spaced =
      collapse_spaces false (t.casefold (translate punctuation_variant (t.nfkc query))) in
    let left = lstrip is_space spaced in
    let trimmed = rstrip is_space left in
    let single = collapse_repeats 0 trimmed in
    let ended = rstrip is_punctuation single in
    (
      strip-strip ended,
      rstrip-IsSpaced is_space (lstrip is_space ended) (
          lstrip-IsSpaced is_space ended (
            rstrip-IsSpaced is_punctuation single (
              collapse_repeats-IsSpaced 0 trimmed (
                rstrip-IsSpaced is_space left (
                  lstrip-IsSpaced is_space spaced (
                    collapse_spaces-IsSpaced false
                      (t.casefold (translate punctuation_variant (t.nfkc query))))))))),
    )
