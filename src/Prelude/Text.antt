-- ===== src/Prelude/Text.antt =====
-- Texts: equality as a decision, truth values, and Python's `str.strip` over `str.isspace`.
use Prim.Native.Nat.{ℕ, zero, suc, ◌+◌, ◌/◌, ◌%◌}
use Prim.Native.Char.{code}
use Prim.Native.String.{String}
use Prim.Native.String
use mathlib.Core.Path.{◌≡◌}
use mathlib.Core.Logic.{inl, inr, ◌⊎◌}
use mathlib.Core.List.{List, [], ◌∷◌}
use mathlib.Core.Bool.{Bool, true, false, ◌&&◌, ◌||◌}
use native.Mathlib.Omega.{arith}
use text.Mathlib.Text.{◌==◌ as str_eq}
use text.Mathlib.TextEquality.{eq_iff}
use agentic_rag.Prelude.Tests.{leb, ltb, ◌==◌, if◌then◌else◌, Bool-cases}

decide_eq : (s t : String) → ((str_eq s t ≡ true) ⊎ (str_eq s t ≡ false)) → Dec (s ≡ t)
decide_eq s t (inl e) = yes ((eq_iff s t).0 e)
decide_eq s t (inr e) = no (λ p. ground (arith, eq_iff s t))

unfoldable pub string_discrete : Discrete String
unfolding decide_eq Bool-cases
string_discrete s t = decide_eq s t (Bool-cases (str_eq s t))

-- `s + t` on texts
infixr 66 ◌<>◌
abbrev pub ◌<>◌ : String → String → String
s <> t = String.◌++◌ s t

-- `bool(text)`
abbrev pub is_blank : String → Bool
is_blank String.[] = true
is_blank (String.◌∷◌ c s) = false

-- `text or other`
abbrev pub or_else : String → String → String
or_else String.[] other = other
or_else (String.◌∷◌ c s) other = String.◌∷◌ c s

-- `str.isspace`, over code points
unfoldable pub is_space : ℕ → Bool
is_space c =
    (leb 9 c && leb c 13)
    || (leb 28 c && leb c 32)
    || c == 133
    || c == 160
    || c == 5760
    || (leb 8192 c && leb c 8202)
    || c == 8232
    || c == 8233
    || c == 8239
    || c == 8287
    || c == 12288

unfoldable pub lstrip : (ℕ → Bool) → String → String
lstrip p String.[] = String.[]
lstrip p (String.◌∷◌ c s) = let rest = lstrip p s in if p (code c) then rest else String.◌∷◌ c s

unfoldable pub rstrip : (ℕ → Bool) → String → String
rstrip p String.[] = String.[]
rstrip p (String.◌∷◌ c s) =
    let rest = rstrip p s in if is_blank rest && p (code c) then String.[] else String.◌∷◌ c rest

unfoldable pub strip : String → String
unfolding lstrip rstrip is_space
strip s = rstrip is_space (lstrip is_space s)

-- `separator.join(parts)`
unfoldable pub join : String → List String → String
join separator [] = String.[]
join separator (part ∷ []) = part
join separator (part ∷ next ∷ parts) = part <> separator <> join separator (next ∷ parts)

-- the decimal digits of a number; as many rounds as the number itself are more than enough
decimal_digits : ℕ → ℕ → String → String
decimal_digits zero n digits = digits
decimal_digits (suc fuel) n digits =
    let digit = n % 10 in
    let more = String.slice "0123456789" digit (digit + 1) <> digits in
    if ltb n 10 then more else decimal_digits fuel (n / 10) more

-- `str(n)`
unfoldable pub decimal : ℕ → String
unfolding decimal_digits
decimal n = decimal_digits (suc n) n String.[]

-- `str(b)`
unfoldable pub bool_text : Bool → String
bool_text true = "True"
bool_text false = "False"
