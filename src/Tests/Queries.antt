-- ===== src/Tests/Queries.antt =====
-- The parser and the evaluation of WHERE clauses on concrete clauses.
use thing.Prelude.{
  pos, Str, str, str_eq, str_eq_iff, Bool, true, false, some, [], ◌≡◌, ◌≢◌, refl, arith,
}
use thing.Prelude.Dict.{mem_str}
use thing.Value.{Value}
use thing.Query.{Result, ok, err, out_of_fuel, column_not_found}
use thing.Predicate.Node.{match_predicate, predicate_fields}
use thing.Predicate.Parser.{parse_query_predicate}
use thing.Predicate.Arguments.{UsesArguments, parse_arguments, parse_total}
use thing.Predicate.Errors.{match_predicate_errors, FailsInCondition}
use thing.Predicate.Fields.{match_predicate_agree}
use thing.Match.Condition.{match_condition}
use thing.Tests.Data.{whole, mixed, mixed_tree, adults, adult, users, row_aged}

parse_mixed :
    parse_query_predicate whole mixed ≡ ok (record { root = some mixed_tree; args = mixed.args })
unfolding parse_query_predicate
parse_mixed = refl

parse_adults : parse_query_predicate whole adults ≡ ok adult
unfolding parse_query_predicate
parse_adults = refl

parse_arguments_example :
    UsesArguments mixed.args (record { root = some mixed_tree; args = mixed.args })
parse_arguments_example =
    parse_arguments whole mixed (record { root = some mixed_tree; args = mixed.args }) parse_mixed

parse_total_example : parse_query_predicate whole mixed ≢ err out_of_fuel
parse_total_example = parse_total whole mixed

-- A row without the column of the condition.
match_missing : match_predicate (match_condition whole [] []) adult ≡ err column_not_found
unfolding match_predicate match_condition
match_missing = refl

match_predicate_errors_example :
    FailsInCondition (match_condition whole [] []) adult column_not_found
match_predicate_errors_example =
    match_predicate_errors (match_condition whole [] []) whole adults adult column_not_found
      parse_adults match_missing

-- A test that knows no column but age.
abbrev only_age : Str → Str → Value → Result Bool
only_age field operator v = elim (str_eq field (str "age")) [
  | true ↦ match_condition whole users.column_to_field (row_aged (pos 20)) (str "age") operator v
  | false ↦ ok false
]

only_age-agree :
    (field : Str)
    → mem_str field (predicate_fields adult) ≡ true
    → (op : Str) (v : Value)
    → match_condition whole users.column_to_field (row_aged (pos 20)) field op v
      ≡ only_age field op v
unfolding mem_str predicate_fields str_eq
only_age-agree field h op v =
    let same : str "age" ≡ field = (str_eq_iff (str "age") field).0 (ground (arith, h)) in
    rw⁻¹ same refl

match_predicate_agree_example :
    match_predicate (match_condition whole users.column_to_field (row_aged (pos 20))) adult
    ≡ match_predicate only_age adult
match_predicate_agree_example =
    match_predicate_agree (match_condition whole users.column_to_field (row_aged (pos 20))) only_age
      adult only_age-agree
