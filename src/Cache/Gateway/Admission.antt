-- ===== src/Cache/Gateway/Admission.antt =====
-- Which answers the gateway stores.
use mathlib.Core.Option
use agentic_rag.Prelude.{
  String, none, some, List, [], ◌∷◌, ◌≡◌, ◌≢◌, ◌↔◌, inl, inr, refl, arith, true, false, any, All,
  Option-cases, Bool-cases,
}
use agentic_rag.Prelude.Text.{is_blank, strip}
use agentic_rag.Prelude.Floats.{Floats}
use agentic_rag.Cache.Base.{ToolEntry}
use agentic_rag.Cache.Keys.{normalize_query}
use agentic_rag.Cache.Gateway.{Wiring, Gateway, Metadata, CritiqueEntry, tool_failed, refuse}
use agentic_rag.Cache.Gateway.Store.{store}

-- the tool call did not report a failure
abbrev pub Succeeded : ToolEntry → Type 0
Succeeded t = t.ok ≢ some false

any_failed_iff : (tools : List ToolEntry) → (any tool_failed tools ≡ false) ↔ All Succeeded tools
any_failed_iff [] = (λ h. tt, λ h. refl)
any_failed_iff (t ∷ tools) =
    let (down, up) = any_failed_iff tools in
    (λ h. (ground arith, down (ground arith)), λ h. ground (arith, h.0, up h.1))

-- what makes an answer worth keeping
pub record IsWorthy (F : Floats) {Citation : Type 0} (min_confidence : F.Float) (answer : String)
    (m : Metadata F.Float Citation) : Type 0 where
  pub said : is_blank (strip answer) ≡ false
  pub verdict : CritiqueEntry F.Float
  pub judged : m.critique ≡ some verdict
  pub sufficient : verdict.sufficient_context ≡ some true
  pub grounded : verdict.grounded ≡ some true
  pub confident : F.leb min_confidence (Option.get_or verdict.confidence F.nil) ≡ true
  pub tools_succeeded : All Succeeded m.tools

module _ (F : Floats) {Citation : Type 0} (min_confidence : F.Float) (answer : String)
    (m : Metadata F.Float Citation) where
  IsWorthy-of_refuse : refuse F min_confidence answer m ≡ none → IsWorthy F min_confidence answer m
  unfolding refuse
  IsWorthy-of_refuse h = elim (Option-cases m.critique) [
    | inl unjudged ↦ absurd (ground (arith, h, unjudged))
    | inr (c, judged) ↦ record {
      said = ground (arith, h, judged);
      verdict = c;
      judged = judged;
      sufficient = ground (arith, h, judged);
      grounded = ground (arith, h, judged);
      confident = ground (arith, h, judged);
      tools_succeeded = (any_failed_iff m.tools).0 (ground (arith, h, judged));
    }
  ]

  refuse_of_IsWorthy : IsWorthy F min_confidence answer m → refuse F min_confidence answer m ≡ none
  unfolding refuse
  refuse_of_IsWorthy h = ground (
    arith,
    h.judged,
    h.sufficient,
    h.grounded,
    h.confident,
    h.said,
    (any_failed_iff m.tools).1 h.tools_succeeded,
  )

module _ (w : Wiring) (query answer : String) (m : Metadata w.floats.Float w.Citation)
    (g : Gateway w) where
  -- An answer that is not worthy is not stored, and nothing at all changes.
  store_unworthy :
      ¬ IsWorthy w.floats w.settings.min_confidence answer m → store w query answer m g ≡ (false, g)
  unfolding store
  store_unworthy h = elim (Option-cases (refuse w.floats w.settings.min_confidence answer m)) [
    | inl admitted ↦
        absurd (h (IsWorthy-of_refuse w.floats w.settings.min_confidence answer m admitted))
    | inr (reason, refused) ↦ ground (arith, refused)
  ]

  -- A store does anything at all, to the backend, its index or the counters, and reports a success,
  -- only if the cache is on, the query is not blank once normalised, and the critic stood behind the
  -- answer: it is not blank, the verdict says sufficient context and grounded, with the least
  -- confidence or more, and no tool call failed.
  pub store-IsWorthy :
      (store w query answer m g ≢ (false, g))
      → (w.settings.enabled ≡ true)
        × (is_blank (normalize_query w.texts query) ≡ false)
        × IsWorthy w.floats w.settings.min_confidence answer m
  unfolding store
  store-IsWorthy h = elim (Bool-cases w.settings.enabled) [
    | inr off ↦ absurd (h (rw (off, store) refl))
    | inl on ↦ elim (Bool-cases (is_blank (normalize_query w.texts query))) [
      | inl blank ↦ absurd (h (rw (on, store, blank) refl))
      | inr said ↦ elim (Option-cases (refuse w.floats w.settings.min_confidence answer m)) [
        | inl admitted ↦
            (on, said, IsWorthy-of_refuse w.floats w.settings.min_confidence answer m admitted)
        | inr (reason, refused) ↦ absurd (h (ground (arith, refused)))
      ]
    ]
  ]
