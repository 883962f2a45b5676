-- ===== src/Tests/Options.antt =====
-- Options for JSON output.
use thing.Prelude.{member_of, has_prefix, str, List, [], ◌∷◌, ◌≡◌, refl, arith}
use thing.SqlBuilder.{join}
use thing.Json.{merge_json_options}
use thing.Json.{
  json_options, no_fields, field_rule, absent, present, no_nested, nested_rule, parsed, out_of_fuel,
  parse_fields_dsl, new_json_options, include, exclude, skip_separators, ends_field,
}
use thing.Json.Hangs.{parse_fields_dsl_hangs}
use thing.Json.Merge.{Unique, included_names, merge_json_options-Unique}
use thing.Json.Items.{Item, with_name, without_name, parse_fields_dsl_items}

nested_books :
    parse_fields_dsl 20 (str "name, books{title,-id}")
    ≡ parsed (
        json_options
          (field_rule (str "name") absent (
            field_rule
              (str "books")
              (present (
                json_options (field_rule (str "title") absent no_fields) (str "id" ∷ []) no_nested))
              no_fields))
          []
          (nested_rule
            (str "books")
            (json_options (field_rule (str "title") absent no_fields) (str "id" ∷ []) no_nested)
            no_nested))
unfolding parse_fields_dsl
nested_books = refl

-- The rules of an excluded field are lost.
lost_rules :
    exclude 20 (str "books{id}" ∷ []) new_json_options
    ≡ json_options no_fields (str "books" ∷ []) no_nested
unfolding exclude
lost_rules = refl

included :
    include 20 (str "id" ∷ str "ID" ∷ str "name" ∷ []) new_json_options
    ≡ json_options
        (field_rule (str "id") absent (field_rule (str "name") absent no_fields))
        []
        no_nested
unfolding include
included = refl

parse_fields_dsl_hangs_example : parse_fields_dsl 9 (str ", }x") ≡ out_of_fuel
unfolding skip_separators
parse_fields_dsl_hangs_example = parse_fields_dsl_hangs 9 125 (str ", }x") (str "x") refl refl

abbrev two_items : List Item
two_items = with_name (str "name") ∷ without_name (str "id") ∷ []

parse_fields_dsl_items_example :
    parse_fields_dsl 3 (str "name,-id")
    ≡ parsed (json_options (field_rule (str "name") absent no_fields) (str "id" ∷ []) no_nested)
unfolding ends_field member_of has_prefix join
parse_fields_dsl_items_example =
    parse_fields_dsl_items two_items 3 (omega arith)
      ((refl, (refl, (refl, (refl, (refl, tt))))), ((refl, (refl, (refl, (refl, tt)))), tt))
      (refl, (refl, tt)) (refl, tt) (refl, tt)

-- The names differ in their case alone.
merge_json_options-Unique_example : Unique (
    included_names (
      merge_json_options
        (json_options (field_rule (str "ID") absent no_fields) [] no_nested)
        (json_options (field_rule (str "id") absent no_fields) [] no_nested)))
merge_json_options-Unique_example =
    merge_json_options-Unique (json_options (field_rule (str "ID") absent no_fields) [] no_nested)
      (json_options (field_rule (str "id") absent no_fields) [] no_nested)
