-- ===== src/Retrieval/Compressors/Sentences.antt =====
-- `_sentences` of app/retrieval/compressors.py: the split by the pattern `(?<=[.!?])\s+|\n{2}`.
use Prim.Native.Char.{code}
use agentic_rag.Prelude.{
  ℕ, String, Bool, true, false, ◌||◌, ◌&&◌, List, [], ◌∷◌, map, select, leb, ◌==◌, if◌then◌else◌,
}
use agentic_rag.Prelude.Text.{is_space, strip, ◌<>◌}
use agentic_rag.Prelude.Slices.{text_length}

-- inside a part, in the white space after a mark, or in a run of line ends
pub data Mode : Type 0 where
  in_part after_mark in_break : Mode

-- `[.!?]`
abbrev pub is_mark : ℕ → Bool
is_mark c = c == 46 || c == 33 || c == 63

abbrev pub starts_with_newline : String → Bool
starts_with_newline String.[] = false
starts_with_newline (String.◌∷◌ c s) = code c == 10

-- whether the character belongs to the separator that the mode is in
abbrev pub continues : Mode → ℕ → Bool
continues in_part c = false
continues after_mark c = is_space c
continues in_break c = c == 10

-- what a separator that starts here is, given the character before and the text after
abbrev pub separator : ℕ → ℕ → String → Mode
separator before c rest =
    if is_mark before && is_space c
    then after_mark
    else if c == 10 && starts_with_newline rest
    then in_break
    else in_part

abbrev pub is_in_part : Mode → Bool
is_in_part in_part = true
is_in_part _ = false

-- a part that starts after a separator has no mark before it
abbrev pub before_of : Mode → ℕ → ℕ
before_of in_part before = before
before_of _ before = 10

-- `_SENTENCE_BOUNDARY.split(content)`, from a position on: the part so far and the character before
unfoldable pub split : Mode → ℕ → String → String → List String
unfolding is_space
split mode before part String.[] = part ∷ []
split mode before part (String.◌∷◌ c s) =
    let next = separator (before_of mode before) (code c) s in
    let more = split mode before part s in
    let grown = split in_part (code c) (part <> String.◌∷◌ c String.[]) s in
    let cut = part ∷ split next (code c) String.[] s in
    if continues mode (code c) then more else if is_in_part next then grown else cut

-- `_sentences`
unfoldable pub sentences : String → List String
unfolding split strip
sentences content =
    select (λ part. leb 2 (text_length part)) (map strip (split in_part 0 String.[] content))
