-- ===== src/Match/Condition.antt =====
-- matchPredicateCondition and CheckQueryMatchWithPredicate of internal/cache/query_match.go.
use thing.Prelude.{
  Str, str, str_eq, Bool, true, false, not, ◌||◌, Option, none, some, is_empty, if◌then◌else◌,
}
use thing.Prelude.Dict.{Dict, get}
use thing.Query.{
  QueryParams, nil_model, model_no_pointer, empty_table, nil_column_map, column_not_found,
  field_not_valid, unsupported_operator, Result, ok, err, ◌>>=◌,
}
use thing.Value.{Value, Runtime, type_of, deep_equal, is_nil}
use thing.Value.Convert.{convertible, convert}
use thing.Match.Like.{like, not_like}
use thing.Match.Compare.{compare_values}
use thing.Match.Members.{check_in_operator}
use thing.Predicate.Node.{Predicate, match_predicate}
use thing.Predicate.Parser.{parse_query_predicate}

-- The fields of a model's struct by their Go names.
abbrev pub Row : Type 0
Row = Dict Value

-- DeepEqual of the field's value and the argument, converted to its type where Go can.
unfoldable equals_converted : Runtime → Value → Value → Bool
unfolding deep_equal convertible convert type_of
equals_converted f actual arg =
    if convertible (type_of arg) (type_of actual)
    then elim (convert f arg (type_of actual)) [ none ↦ false | some v ↦ deep_equal f actual v ]
    else deep_equal f actual arg

unfoldable is_pointer : Value → Bool
is_pointer (Value.pointer v) = true
is_pointer (Value.null_pointer t) = true
is_pointer _ = false

unfoldable pointed : Value → Value
pointed (Value.pointer v) = v
pointed v = v

-- fieldEqualsArg
unfoldable field_equals_arg : Runtime → Value → Value → Bool
unfolding is_nil is_pointer pointed equals_converted
field_equals_arg f field arg =
    if is_nil field
    then false
    else equals_converted f (if is_pointer arg then field else pointed field) arg

-- The case "=".
unfoldable equals : Runtime → Value → Value → Bool
unfolding is_nil field_equals_arg
equals f field arg = if is_nil arg then is_nil field else field_equals_arg f field arg

-- The switch on the operator.
unfoldable pub apply_operator : Runtime → Value → Str → Value → Result Bool
unfolding str_eq equals like not_like compare_values check_in_operator
apply_operator f field operator arg =
    if str_eq operator (str "=")
    then ok (equals f field arg)
    else if str_eq operator (str "!=") || str_eq operator (str "<>")
    then ok (not (equals f field arg))
    else if str_eq operator (str "LIKE")
    then like field arg
    else if str_eq operator (str "NOT LIKE")
    then not_like field arg
    else if str_eq operator (str ">")
        || (str_eq operator (str "<") || (str_eq operator (str ">=") || str_eq operator (str "<=")))
    then compare_values f field arg operator
    else if str_eq operator (str "IN")
    then check_in_operator f field arg
    else if str_eq operator (str "NOT IN")
    then (check_in_operator f field arg >>= λ met. ok (not met))
    else err unsupported_operator

-- The Go field that a column names: by the map, or directly.
unfoldable pub field_name : Dict Str → Row → Str → Result Str
unfolding get
field_name columns row column = elim (get column columns) [
  | some name ↦ ok name
  | none ↦ elim (get column row) [ none ↦ err column_not_found | some v ↦ ok column ]
]

unfoldable pub field_value : Row → Str → Result Value
unfolding get
field_value row name = elim (get name row) [ none ↦ err field_not_valid | some v ↦ ok v ]

-- matchPredicateCondition
unfoldable pub match_condition : Runtime → Dict Str → Row → Str → Str → Value → Result Bool
unfolding field_name field_value apply_operator
match_condition f columns row column operator arg = do
  name ← field_name columns row column
  field ← field_value row name
  apply_operator f field operator arg

-- The model argument: nil, a value that is no pointer to a struct or a nil pointer, or a row.
pub data Model : Type 0 where
  none_given no_pointer : Model
  pointer_to : Row → Model

unfoldable pub predicate_or_parse : Runtime → QueryParams → Option Predicate → Result Predicate
predicate_or_parse f params none = parse_query_predicate f params
predicate_or_parse f params (some p) = ok p

unfoldable pub row_of : Model → Result Row
row_of none_given = err nil_model
row_of no_pointer = err model_no_pointer
row_of (pointer_to row) = ok row

unfoldable pub is_none_given : Model → Bool
is_none_given none_given = true
is_none_given _ = false

unfoldable pub match_row : Runtime → Dict Str → QueryParams → Option Predicate → Row → Result Bool
match_row f columns params pred row =
    predicate_or_parse f params pred >>= match_predicate (match_condition f columns row)

-- CheckQueryMatchWithPredicate; a column map is `none` where it is Go's nil
unfoldable pub check_query_match_with_predicate :
    Runtime → Model → Str → Option (Dict Str) → QueryParams → Option Predicate → Result Bool
check_query_match_with_predicate f model table columns params pred =
    if is_none_given model
    then err nil_model
    else if is_empty table
    then err empty_table
    else elim columns [
      | none ↦ err nil_column_map
      | some names ↦ row_of model >>= match_row f names params pred
    ]

-- CheckQueryMatch
unfoldable check_query_match : Runtime → Model → Str → Option (Dict Str) → QueryParams → Result Bool
unfolding check_query_match_with_predicate
check_query_match f model table columns params =
    check_query_match_with_predicate f model table columns params none
