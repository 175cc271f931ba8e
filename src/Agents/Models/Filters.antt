-- ===== src/Agents/Models/Filters.antt =====
-- A planner's filters always convert: `to_filter` and `to_metadata_filters` of app/agents/models.py.
use agentic_rag.Prelude.{
  String, ◌≡◌, refl, Bool, true, false, Option, none, some, List, [], ◌∷◌, All, Bool-cases, inl,
  inr,
}
use agentic_rag.Prelude.Text.{is_blank, strip}
use agentic_rag.Core.Errors.{ok}
use agentic_rag.Retrieval.Filters.{
  FilterOperator, FilterValue, MetadataFilter, MetadataFilters, metadata_filter, takes_many,
  value_matches, is_sequence, single, many,
}
use agentic_rag.Agents.Models.{
  PlannedFilter, RetrievalPlan, to_filter_of, to_filter, conditions_of, cons_some, filters_of,
  to_metadata_filters,
}

-- the names of the fields are stripped, as the schema makes them
abbrev pub HasStripped : List PlannedFilter → Type 0
HasStripped = All (λ (f : PlannedFilter). strip f.field ≡ f.field)

value_matches-ok : (b : Bool) (m : MetadataFilter) → value_matches b b m ≡ ok m
unfolding value_matches
value_matches-ok true m = refl
value_matches-ok false m = refl

metadata_filter-ok :
    (field : String) (operator : FilterOperator) (value : FilterValue)
    → strip field ≡ field
    → is_blank field ≡ false
    → takes_many operator ≡ is_sequence value
    → (m : MetadataFilter) × (metadata_filter field operator value ≡ ok m)
unfolding metadata_filter
metadata_filter-ok field operator value stripped said same =
    rw (stripped, said, same) (_, value_matches-ok (is_sequence value) _)

to_filter_of-ok :
    (f : PlannedFilter) (values : List String)
    → strip f.field ≡ f.field
    → (o : Option MetadataFilter) × (to_filter_of f values ≡ ok o)
to_filter_of-ok f [] stripped = (none, refl)
to_filter_of-ok f (value ∷ more) stripped = elim (Bool-cases (is_blank f.field)) [
  | inl blank ↦ simp blank (none, refl)
  | inr said ↦ elim (Bool-cases (takes_many f.operator)) [
    | inl wide ↦
        let (m, made) =
          metadata_filter-ok f.field f.operator (many (value ∷ more)) stripped said wide in
        simp (said, wide, made) (some m, refl)
    | inr narrow ↦
        let (m, made) = metadata_filter-ok f.field f.operator (single value) stripped said narrow in
        simp (said, narrow, made) (some m, refl)
  ]
]

conditions_of-ok :
    (fs : List PlannedFilter)
    → HasStripped fs
    → (cs : List MetadataFilter) × (conditions_of fs ≡ ok cs)
unfolding conditions_of to_filter
conditions_of-ok [] t = ([], refl)
conditions_of-ok (f ∷ fs) (stripped, more) =
    let (o, made) = to_filter_of-ok f f.values stripped in
    let (cs, rest) = conditions_of-ok fs more in rw (made, rest) (cons_some o cs, refl)

-- The filters of a plan always convert, whatever operators and values a model chose, if the names
-- of the fields are stripped as the schema leaves them: no choice of operator and values is rejected.
pub to_metadata_filters-ok :
    (plan : RetrievalPlan)
    → HasStripped plan.filters
    → (o : Option MetadataFilters) × (to_metadata_filters plan ≡ ok o)
unfolding to_metadata_filters
to_metadata_filters-ok plan stripped =
    let (cs, made) = conditions_of-ok plan.filters stripped in simp made (filters_of cs, refl)
