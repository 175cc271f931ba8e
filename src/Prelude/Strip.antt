-- ===== src/Prelude/Strip.antt =====
-- `str.strip` leaves a text that it has stripped.
use Prim.Native.Char.{code}
use Prim.Native.Nat.{ℕ, ◌≤◌}
use native.Mathlib.Omega.{arith}
use Prim.Native.String.{String}
use mathlib.Core.Path.{◌≡◌, refl}
use mathlib.Core.Logic.{inl, inr}
use mathlib.Core.Bool.{Bool, true, false, ◌&&◌}
use agentic_rag.Prelude.Tests.{Bool-cases}
use agentic_rag.Prelude.Text.{is_blank, is_space, lstrip, rstrip, strip, or_else}
use agentic_rag.Prelude.Slices.{text_length}

module _ (p : ℕ → Bool) where
  -- the first character, if there is one, fails the test
  abbrev pub StartsClean : String → Type 0
  StartsClean String.[] = Unit
  StartsClean (String.◌∷◌ c s) = p (code c) ≡ false

  lstrip-StartsClean : (s : String) → StartsClean (lstrip p s)
  unfolding lstrip
  lstrip-StartsClean String.[] = tt
  lstrip-StartsClean (String.◌∷◌ c s) = elim (Bool-cases (p (code c))) [
    | inl hit ↦ rw (hit, lstrip) (lstrip-StartsClean s)
    | inr clean ↦ rw (clean, lstrip) clean
  ]

  lstrip_of_StartsClean : (s : String) → StartsClean s → lstrip p s ≡ s
  unfolding lstrip
  lstrip_of_StartsClean String.[] h = refl
  lstrip_of_StartsClean (String.◌∷◌ c s) h = rw (h, lstrip)

  rstrip-StartsClean : (s : String) → StartsClean s → StartsClean (rstrip p s)
  unfolding rstrip
  rstrip-StartsClean String.[] h = tt
  rstrip-StartsClean (String.◌∷◌ c s) h = elim (Bool-cases (is_blank (rstrip p s))) [
    | inl blank ↦ rw (blank, h) h
    | inr more ↦ rw more h
  ]

  rstrip-rstrip : (s : String) → rstrip p (rstrip p s) ≡ rstrip p s
  unfolding rstrip
  rstrip-rstrip String.[] = refl
  rstrip-rstrip (String.◌∷◌ c s) = elim (Bool-cases (is_blank (rstrip p s) && p (code c))) [
    | inl dropped ↦ rw (dropped, rstrip) refl
    | inr stays ↦ rw (stays, rstrip) (rw (rstrip-rstrip s, stays) refl)
  ]

pub strip-strip : (s : String) → strip (strip s) ≡ strip s
unfolding strip
strip-strip s =
    let t = lstrip is_space s in
    let clean = rstrip-StartsClean is_space t (lstrip-StartsClean is_space s) in
    rw (lstrip_of_StartsClean is_space (rstrip is_space t) clean) (rstrip-rstrip is_space t)

-- `text or other`, whether the text is blank or not
pub or_else-blank : (text other : String) → is_blank text ≡ true → or_else text other ≡ other
or_else-blank String.[] other h = refl
or_else-blank (String.◌∷◌ c s) other h = absurd (cc h)

pub or_else-text : (text other : String) → is_blank text ≡ false → or_else text other ≡ text
or_else-text String.[] other h = absurd (cc h)
or_else-text (String.◌∷◌ c s) other h = refl

-- a text with something left after a strip has something in it
pub is_blank-strip : (text : String) → is_blank (strip text) ≡ false → is_blank text ≡ false
unfolding strip lstrip rstrip
is_blank-strip String.[] h = h
is_blank-strip (String.◌∷◌ c s) h = refl

-- a strip makes no text longer
text_length-lstrip-le : (p : ℕ → Bool) (s : String) → text_length (lstrip p s) ≤ text_length s
unfolding lstrip
text_length-lstrip-le p String.[] = omega arith
text_length-lstrip-le p (String.◌∷◌ c s) = ground (arith, text_length-lstrip-le p s)

text_length-rstrip-le : (p : ℕ → Bool) (s : String) → text_length (rstrip p s) ≤ text_length s
unfolding rstrip
text_length-rstrip-le p String.[] = omega arith
text_length-rstrip-le p (String.◌∷◌ c s) = ground (arith, text_length-rstrip-le p s)

pub text_length-strip-le : (s : String) → text_length (strip s) ≤ text_length s
unfolding strip
text_length-strip-le s =
    omega
      (arith, text_length-lstrip-le is_space s, text_length-rstrip-le is_space (lstrip is_space s))
