-- ===== src/Ingestion/Metadata/Slugs.antt =====
-- A slug of app/ingestion/metadata.py is safe for ids.
use Prim.Native.Char.{code}
use agentic_rag.Prelude.{
  ℕ, ◌≡◌, refl, sym, subst, String, Bool, true, false, ◌&&◌, ◌||◌, Bool-cases, inl, inr,
  if◌then◌else◌, arith,
}
use agentic_rag.Prelude.Text.{is_blank, lstrip, rstrip}
use agentic_rag.Prelude.Strip.{or_else-blank, or_else-text}
use agentic_rag.Ingestion.Metadata.{is_slug_char, is_dash, dashed, slug_of}

-- every character has the property
abbrev pub Every : (ℕ → Type 0) → String → Type 0
Every P String.[] = Unit
Every P (String.◌∷◌ c s) = P (code c) × Every P s

-- a small letter, a digit or a dash
abbrev pub IsSafe : ℕ → Type 0
IsSafe c = is_slug_char c || is_dash c ≡ true

-- no two dashes in a row, given whether one stands just before
abbrev pub HasSingleDashes : Bool → String → Type 0
HasSingleDashes before String.[] = Unit
HasSingleDashes before (String.◌∷◌ c s) =
    (before && is_dash (code c) ≡ false) × HasSingleDashes (is_dash (code c)) s

-- the last character, if there is one, is no dash
abbrev pub EndsClean : String → Type 0
EndsClean String.[] = Unit
EndsClean (String.◌∷◌ c s) = if is_blank s then is_dash (code c) ≡ false else EndsClean s

slug_char-IsSafe : (c : ℕ) → is_slug_char c ≡ true → IsSafe c
slug_char-IsSafe c h = ground (arith, h)

slug_char_not_dash : (c : ℕ) → is_slug_char c ≡ true → is_dash c ≡ false
unfolding is_slug_char
slug_char_not_dash c h = ground (arith, h)

dashed-Every : (in_run : Bool) (s : String) → Every IsSafe (dashed in_run s)
unfolding dashed is_slug_char
dashed-Every in_run String.[] = tt
dashed-Every in_run (String.◌∷◌ c s) = elim (Bool-cases (is_slug_char (code c))) [
  | inl keeps ↦ rw keeps (slug_char-IsSafe (code c) keeps, dashed-Every false s)
  | inr goes ↦ elim (Bool-cases in_run) [
    | inl again ↦ rw (goes, again) (dashed-Every true s)
    | inr first ↦ rw (goes, first) (refl, dashed-Every true s)
  ]
]

HasSingleDashes-weaken : (b : Bool) (s : String) → HasSingleDashes b s → HasSingleDashes false s
HasSingleDashes-weaken b String.[] h = tt
HasSingleDashes-weaken b (String.◌∷◌ c s) h = (refl, h.1)

and_false : (b c : Bool) → c ≡ false → (b && c) ≡ false
and_false b c h = ground (arith, h)

dashed-HasSingleDashes : (in_run : Bool) (s : String) → HasSingleDashes in_run (dashed in_run s)
unfolding dashed
dashed-HasSingleDashes in_run String.[] = tt
dashed-HasSingleDashes in_run (String.◌∷◌ c s) = elim (Bool-cases (is_slug_char (code c))) [
  | inl keeps ↦
      let letter = slug_char_not_dash (code c) keeps in
      rw keeps
        (and_false in_run (is_dash (code c)) letter, rw letter (dashed-HasSingleDashes false s))
  | inr goes ↦ elim (Bool-cases in_run) [
    | inl again ↦ rw (goes, again) (dashed-HasSingleDashes true s)
    | inr first ↦ rw (goes, first) (refl, dashed-HasSingleDashes true s)
  ]
]

lstrip-Every : (P : ℕ → Type 0) (s : String) → Every P s → Every P (lstrip is_dash s)
unfolding lstrip
lstrip-Every P String.[] h = tt
lstrip-Every P (String.◌∷◌ c s) h = elim (Bool-cases (is_dash (code c))) [
  | inl dash ↦ rw (dash, lstrip) (lstrip-Every P s h.1)
  | inr other ↦ rw (other, lstrip) h
]

-- a text without leading dashes does not start with one
lstrip-HasSingleDashes :
    (b : Bool) (s : String) → HasSingleDashes b s → HasSingleDashes true (lstrip is_dash s)
unfolding lstrip
lstrip-HasSingleDashes b String.[] h = tt
lstrip-HasSingleDashes b (String.◌∷◌ c s) h = elim (Bool-cases (is_dash (code c))) [
  | inl dash ↦ rw (dash, lstrip) (lstrip-HasSingleDashes (is_dash (code c)) s h.1)
  | inr other ↦ rw (other, lstrip) (other, h.1)
]

rstrip-Every : (P : ℕ → Type 0) (s : String) → Every P s → Every P (rstrip is_dash s)
unfolding rstrip
rstrip-Every P String.[] h = tt
rstrip-Every P (String.◌∷◌ c s) h =
    elim (Bool-cases (is_blank (rstrip is_dash s) && is_dash (code c))) [
      | inl dropped ↦ rw (dropped, rstrip) tt
      | inr stays ↦ rw (stays, rstrip) (h.0, rstrip-Every P s h.1)
    ]

rstrip-HasSingleDashes :
    (b : Bool) (s : String) → HasSingleDashes b s → HasSingleDashes b (rstrip is_dash s)
unfolding rstrip
rstrip-HasSingleDashes b String.[] h = tt
rstrip-HasSingleDashes b (String.◌∷◌ c s) h =
    elim (Bool-cases (is_blank (rstrip is_dash s) && is_dash (code c))) [
      | inl dropped ↦ rw (dropped, rstrip) tt
      | inr stays ↦ rw (stays, rstrip) (h.0, rstrip-HasSingleDashes (is_dash (code c)) s h.1)
    ]

rstrip-EndsClean : (s : String) → EndsClean (rstrip is_dash s)
unfolding rstrip
rstrip-EndsClean String.[] = tt
rstrip-EndsClean (String.◌∷◌ c s) = elim (Bool-cases (is_blank (rstrip is_dash s))) [
  | inl blank ↦ elim (Bool-cases (is_dash (code c))) [
    | inl dash ↦ rw (blank, dash) tt
    | inr other ↦ rw (blank, other) (rw blank other)
  ]
  | inr more ↦ rw more (rw more (rstrip-EndsClean s))
]

-- small letters, digits and single dashes between them, and at least one character
pub record IsSlug (s : String) : Type 0 where
  pub some_text : is_blank s ≡ false
  pub safe : Every IsSafe s
  pub single : HasSingleDashes true s
  pub ends : EndsClean s

document-IsSlug : IsSlug "document"
unfolding is_slug_char
document-IsSlug = record {
  some_text = refl;
  safe = (refl, (refl, (refl, (refl, (refl, (refl, (refl, (refl, tt))))))));
  single = (refl, (refl, (refl, (refl, (refl, (refl, (refl, (refl, tt))))))));
  ends = refl;
}

-- Whatever a text holds, its slug is not empty, has only small letters, digits and dashes, neither
-- starts nor ends with a dash, and has no two dashes in a row.
slug_of-IsSlug : (lowered : String) → IsSlug (slug_of lowered)
unfolding slug_of
slug_of-IsSlug lowered =
    let cut = lstrip is_dash (dashed false lowered) in
    let text = rstrip is_dash cut in
    elim (Bool-cases (is_blank text)) [
      | inl blank ↦ subst IsSlug (sym (or_else-blank text "document" blank)) document-IsSlug
      | inr more ↦ subst IsSlug (sym (or_else-text text "document" more)) (record {
        some_text = more;
        safe =
            rstrip-Every IsSafe cut
              (lstrip-Every IsSafe (dashed false lowered) (dashed-Every false lowered));
        single = rstrip-HasSingleDashes true cut (
            lstrip-HasSingleDashes false (dashed false lowered)
              (dashed-HasSingleDashes false lowered));
        ends = rstrip-EndsClean cut;
      })
    ]
