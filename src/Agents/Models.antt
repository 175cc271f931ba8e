-- ===== src/Agents/Models.antt =====
-- app/agents/models.py: the artefacts that the nodes write.
pub mod Filters
use agentic_rag.Prelude.{
  ℕ, String, Bool, true, false, not, ◌&&◌, Option, none, some, List, [], ◌∷◌, is_empty,
  if◌then◌else◌,
}
use agentic_rag.Prelude.Text.{is_blank, strip, or_else}
use agentic_rag.Prelude.Floats.{Floats}
use agentic_rag.Core.Errors.{Result, ok, ◌>>=◌}
use agentic_rag.Retrieval.Base.{SearchType, similarity}
use agentic_rag.Retrieval.Filters.{
  FilterOperator, MetadataFilter, MetadataFilters, single, many, takes_many, metadata_filter,
  and_all,
}

pub data QueryIntent : Type 0 where
  factual comparative summarisation procedural conversational : QueryIntent

pub record QueryAnalysis : Type 0 where
  pub intent : QueryIntent
  pub normalised_query : String
  pub keywords : List String
  pub is_ambiguous : Bool

-- `QueryAnalysis(normalised_query=…)`
unfoldable pub default_analysis : String → QueryAnalysis
unfolding strip
default_analysis query = record {
  intent = factual;
  normalised_query = strip query;
  keywords = [];
  is_ambiguous = false;
}

-- `QueryAnalysis.search_text`
unfoldable pub search_text_of : QueryAnalysis → String → String
unfolding strip
search_text_of analysis fallback = or_else (strip analysis.normalised_query) fallback

pub record PlannedFilter : Type 0 where
  pub field : String
  pub operator : FilterOperator
  pub values : List String

-- the filter of the values, of which there is one at least
abbrev pub filter_of : PlannedFilter → String → List String → Result MetadataFilter
filter_of f value more =
    if takes_many f.operator
    then metadata_filter f.field f.operator (many (value ∷ more))
    else metadata_filter f.field f.operator (single value)

abbrev pub to_filter_of : PlannedFilter → List String → Result (Option MetadataFilter)
to_filter_of f [] = ok none
to_filter_of f (value ∷ more) =
    if is_blank f.field then ok none else filter_of f value more >>= λ m. ok (some m)

-- `PlannedFilter.to_filter`
unfoldable pub to_filter : PlannedFilter → Result (Option MetadataFilter)
unfolding metadata_filter takes_many
to_filter f = to_filter_of f f.values

pub record PlannedToolCall : Type 0 where
  pub tool : String
  pub input : String

pub record RetrievalPlan : Type 0 where
  pub retrieval_needed : Bool
  pub search_type : SearchType
  pub top_k : ℕ
  pub filters : List PlannedFilter
  pub search_text : String
  pub tools_needed : Bool
  pub tool_calls : List PlannedToolCall
  pub reasoning : String

-- `RetrievalPlan(search_text=…, reasoning="fallback plan")`
unfoldable pub fallback_plan : String → RetrievalPlan
unfolding strip
fallback_plan text = record {
  retrieval_needed = true;
  search_type = similarity;
  top_k = 5;
  filters = [];
  search_text = strip text;
  tools_needed = false;
  tool_calls = [];
  reasoning = "fallback plan";
}

-- `RetrievalPlan.wants_tools`
unfoldable pub wants_tools : RetrievalPlan → Bool
wants_tools plan = not (is_empty plan.tool_calls) && plan.tools_needed

abbrev pub cons_some {ℓ} : {A : Type ℓ} → Option A → List A → List A
cons_some none xs = xs
cons_some (some x) xs = x ∷ xs

-- the generator expression of `to_metadata_filters`
unfoldable pub conditions_of : List PlannedFilter → Result (List MetadataFilter)
unfolding to_filter
conditions_of [] = ok []
conditions_of (f ∷ fs) =
    to_filter f >>= λ condition. (conditions_of fs >>= λ rest. ok (cons_some condition rest))

abbrev pub filters_of : List MetadataFilter → Option MetadataFilters
filters_of [] = none
filters_of (c ∷ cs) = some (record { conditions = c ∷ cs; combinator = and_all })

-- `RetrievalPlan.to_metadata_filters`
unfoldable pub to_metadata_filters : RetrievalPlan → Result (Option MetadataFilters)
unfolding conditions_of
to_metadata_filters plan = conditions_of plan.filters >>= λ conditions. ok (filters_of conditions)

pub record Critique (Float : Type 0) : Type 0 where
  pub sufficient_context : Bool
  pub grounded : Bool
  pub confidence : Float
  pub unsupported_claims : List String
  pub feedback : String

-- `Critique.accepts`
unfoldable pub accepts : (F : Floats) → F.Float → Critique F.Float → Bool
accepts F min_confidence c = c.sufficient_context && c.grounded && F.leb min_confidence c.confidence
