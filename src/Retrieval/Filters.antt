-- ===== src/Retrieval/Filters.antt =====
-- app/retrieval/filters.py: metadata predicates. The values of a predicate that a plan makes are texts.
use agentic_rag.Prelude.{
  String, Bool, true, false, Option, none, some, List, [], ◌∷◌, map, if◌then◌else◌,
}
use agentic_rag.Prelude.Text.{is_blank, strip, ◌<>◌}
use agentic_rag.Core.Errors.{Result, ok, raise, value_error}

pub data FilterOperator : Type 0 where
  op_eq op_ne op_gt op_gte op_lt op_lte op_in op_nin : FilterOperator

-- the `value` of the enumeration
unfoldable pub operator_value : FilterOperator → String
operator_value op_eq = "eq"
operator_value op_ne = "ne"
operator_value op_gt = "gt"
operator_value op_gte = "gte"
operator_value op_lt = "lt"
operator_value op_lte = "lte"
operator_value op_in = "in"
operator_value op_nin = "nin"

unfoldable pub chroma_operator : FilterOperator → String
unfolding operator_value
chroma_operator op = "$" <> operator_value op

unfoldable pub takes_many : FilterOperator → Bool
takes_many op_in = true
takes_many op_nin = true
takes_many _ = false

pub data FilterValue : Type 0 where
  single : String → FilterValue
  many : List String → FilterValue

pub record MetadataFilter : Type 0 where
  pub field : String
  pub operator : FilterOperator
  pub value : FilterValue

abbrev pub is_sequence : FilterValue → Bool
is_sequence (single v) = false
is_sequence (many vs) = true

abbrev pub strip_value : FilterValue → FilterValue
strip_value (single v) = single (strip v)
strip_value (many vs) = many (map strip vs)

-- the validator `_value_matches_operator`
unfoldable pub value_matches : Bool → Bool → MetadataFilter → Result MetadataFilter
value_matches true false f = raise value_error
value_matches false true f = raise value_error
value_matches _ _ f = ok f

-- `MetadataFilter(field=…, operator=…, value=…)`: the texts are stripped and the validators run
unfoldable pub metadata_filter : String → FilterOperator → FilterValue → Result MetadataFilter
unfolding strip takes_many value_matches
metadata_filter field operator value =
    if is_blank (strip field)
    then raise value_error
    else value_matches (takes_many operator) (is_sequence value)
        (record { field = strip field; operator = operator; value = strip_value value })

pub data Combinator : Type 0 where
  and_all or_any : Combinator

pub record MetadataFilters : Type 0 where
  pub conditions : List MetadataFilter
  pub combinator : Combinator

-- one predicate in Chroma's dialect: `{field: {operator: value}}`
pub record Predicate : Type 0 where
  pub field : String
  pub operator : String
  pub value : FilterValue

-- a Chroma `where` clause: one predicate, or several under one operator
pub data Clause : Type 0 where
  bare : Predicate → Clause
  combined : String → List Predicate → Clause

-- `MetadataFilter.to_chroma`
unfoldable pub filter_to_chroma : MetadataFilter → Predicate
unfolding chroma_operator
filter_to_chroma f = record {
  field = f.field;
  operator = chroma_operator f.operator;
  value = f.value;
}

abbrev pub combinator_key : Combinator → String
combinator_key and_all = "$and"
combinator_key or_any = "$or"

abbrev pub where_clause : Combinator → List Predicate → Option Clause
where_clause c [] = none
where_clause c (one ∷ []) = some (bare one)
where_clause c (one ∷ two ∷ more) = some (combined (combinator_key c) (one ∷ two ∷ more))

-- `MetadataFilters.to_chroma`
unfoldable pub to_chroma : MetadataFilters → Option Clause
unfolding filter_to_chroma
to_chroma fs = where_clause fs.combinator (map filter_to_chroma fs.conditions)
