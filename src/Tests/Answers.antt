-- ===== src/Tests/Answers.antt =====
-- Tests of the answer cache: app/cache.
use Prim.Native.Char.{code}
use agentic_rag.Prelude.Text.{is_blank}
use agentic_rag.Prelude.{
  false, none, ◌⊎◌, ℕ, zero, suc, ◌≡◌, ◌≢◌, refl, ap, String, true, Option, some, if◌then◌else◌,
  ◌==◌,
}
use agentic_rag.Prelude.Text.{strip}
use agentic_rag.Core.Errors.{ok}
use agentic_rag.Cache.Keys.{CacheVersions, normalize_query}
use agentic_rag.Cache.Keys.Normal.{IsSpaced, normalize_query-IsSpaced}
use agentic_rag.Cache.Gateway.{Metadata, ranked_candidates, similarity_of, versions}
use agentic_rag.Cache.Gateway.Lookup.{lookup}
use agentic_rag.Cache.Gateway.Store.{store}
use agentic_rag.Cache.Gateway.Safety.{IsSound, lookup-IsSound}
use agentic_rag.Cache.Gateway.Metering.{IsCounted, KeepsBalance, lookup-IsCounted}
use agentic_rag.Cache.Gateway.Admission.{IsWorthy, store-IsWorthy}
use agentic_rag.Cache.Versions.{ℤ, pos, negsuc, Numerals, Shared, current, bump}
use agentic_rag.Cache.Versions.Bump.{bump_ne_current}
use agentic_rag.Tests.Samples.{
  whole, plain, wiring, backend, empty_gateway, answered_gateway, leave_hit, leave_found, good_run,
}

lookup-IsSound_example :
    (v : CacheVersions) × ((versions wiring answered_gateway.shared).0 ≡ ok v)
    × IsSound wiring v
        (normalize_query plain "Leave days?")
        (versions wiring answered_gateway.shared).1.backend
        leave_hit
lookup-IsSound_example = lookup-IsSound wiring "Leave days?" answered_gateway leave_hit leave_found

lookup-IsCounted_example :
    ((true ≡ true)
        × IsCounted wiring
            (lookup wiring "Leave days?" answered_gateway).0
            answered_gateway.metrics
            (lookup wiring "Leave days?" answered_gateway).1.metrics
      ⊎ ((true ≡ false)
          × ((lookup wiring "Leave days?" answered_gateway).0 ≡ none)
          × ((lookup wiring "Leave days?" answered_gateway).1.metrics ≡ answered_gateway.metrics)))
    × KeepsBalance answered_gateway.metrics (lookup wiring "Leave days?" answered_gateway).1.metrics
unfolding normalize_query
lookup-IsCounted_example = lookup-IsCounted wiring "Leave days?" answered_gateway

leave_stored : (store wiring "Leave days?" "21 days" good_run empty_gateway).0 ≡ true
unfolding store normalize_query agentic_rag.Cache.Gateway.refuse
    agentic_rag.Cache.Gateway.Store.write versions agentic_rag.Cache.Memory.Interface.local_get
    agentic_rag.Dict.get agentic_rag.Cache.Memory.init agentic_rag.Cache.Gateway.Store.embedding_for
    agentic_rag.Cache.Memory.Interface.local_set
leave_stored = refl

store-IsWorthy_example :
    (true ≡ true)
    × (is_blank (normalize_query plain "Leave days?") ≡ false)
    × IsWorthy whole 5 "21 days" good_run
store-IsWorthy_example =
    store-IsWorthy wiring "Leave days?" "21 days" good_run empty_gateway
      (λ e. absurd (cc (e, leave_stored)))

normalize_query-IsSpaced_example :
    (strip (normalize_query plain "  a \t b??") ≡ normalize_query plain "  a \t b??")
    × IsSpaced (normalize_query plain "  a \t b??")
normalize_query-IsSpaced_example = normalize_query-IsSpaced plain "  a \t b??"

-- numbers written as runs of one letter
abbrev letters : ℕ → String
letters zero = ""
letters (suc n) = String.◌∷◌ "i" (letters n)

abbrev write_int : ℤ → String
write_int (pos n) = letters n
write_int (negsuc n) = String.◌∷◌ "-" (letters n)

abbrev count_letters : String → ℕ
count_letters String.[] = 0
count_letters (String.◌∷◌ c s) = suc (count_letters s)

abbrev read_int : String → Option ℤ
read_int String.[] = some (pos 0)
read_int (String.◌∷◌ c s) =
    if code c == 45 then some (negsuc (count_letters s)) else some (pos (suc (count_letters s)))

count-letters : (n : ℕ) → count_letters (letters n) ≡ n
count-letters zero = refl
count-letters (suc n) = ap suc (count-letters n)

pub read_back : (n : ℤ) → read_int (write_int n) ≡ some n
read_back (pos zero) = refl
read_back (pos (suc n)) = ap (λ (k : ℕ). some (pos (suc k))) (count-letters n)
read_back (negsuc n) = ap (λ (k : ℕ). some (negsuc k)) (count-letters n)

abbrev pub unary : Numerals
unary = record { int_of_text = read_int; text_of_int = write_int; read_back = read_back }

abbrev pub shared : Shared backend
shared = empty_gateway.shared

pub current_example : (current backend "kb" shared).0 ≡ ok "0"
unfolding current agentic_rag.Cache.Memory.Interface.local_get agentic_rag.Dict.get
    agentic_rag.Cache.Memory.init
current_example = refl

pub bumped_example : (bump backend unary "kb" shared).0 ≡ ok "ii"
unfolding bump agentic_rag.Cache.Memory.Interface.local_get agentic_rag.Dict.get
    agentic_rag.Cache.Memory.init agentic_rag.Cache.Memory.Interface.local_set
bumped_example = refl

bump_ne_current_example :
    (◌≢◌ {A = String} "ii" "0") × ((bump backend unary "kb" shared).1.last_known ≡ "ii")
bump_ne_current_example =
    bump_ne_current backend unary "kb" shared "0" "ii" current_example bumped_example
