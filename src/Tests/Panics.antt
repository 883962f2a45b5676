-- ===== src/Tests/Panics.antt =====
-- The invalidation of cached queries where a comparison panics.
use thing.Prelude.{pos, str, str_eq, true, false, none, some, [], ◌∷◌, ◌≡◌, refl}
use thing.Prelude.Dict.{keys, mem_str}
use thing.Query.{QueryParams, panicked, ok, err}
use thing.Value.{Value}
use thing.Predicate.Node.{Predicate, condition, argument, match_predicate, predicate_fields}
use thing.Predicate.Parser.{parse_query_predicate}
use thing.Match.Condition.{match_condition}
use thing.Index.State.{
  CacheIndex, new_cache_index, register_query, parse_query_for_index, is_list_key,
}
use thing.Index.Depends.{Depends, on_where}
use thing.Invalidate.Columns.{all_columns, field_values}
use thing.Invalidate.Run.{invalidate_affected_query_caches}
use thing.Invalidate.Known.{Registered, register_query-Registered}
use thing.Invalidate.Panics.{affected_panics}
use thing.Tests.Data.{whole, query, adults_key, users, row_aged, ann_aged, client_of}

-- A query whose argument is nil.
abbrev older : QueryParams
older = query (str "age > ?") (Value.nil ∷ [])

abbrev older_predicate : Predicate
older_predicate = record {
  root = some (condition (str "age") (str ">") (argument 0 ∷ []));
  args = Value.nil ∷ [];
}

abbrev older_index : CacheIndex
older_index = register_query whole (str "users") adults_key older new_cache_index

parse_older : parse_query_predicate whole older ≡ ok older_predicate
unfolding parse_query_predicate
parse_older = refl

older-Registered : Registered whole (str "users") adults_key older older_predicate older_index
older-Registered =
    register_query-Registered whole (str "users") adults_key older older_predicate new_cache_index
      refl refl parse_older

older-Depends :
    Depends whole adults_key older
      (all_columns (field_values (row_aged (pos 20)) users.compare_fields []))
unfolding all_columns field_values mem_str keys str_eq parse_query_for_index parse_query_predicate
    predicate_fields
older-Depends = on_where (str "age") refl refl

match_older :
    match_predicate
      (match_condition whole users.column_to_field (row_aged (pos 20)))
      older_predicate
    ≡ err panicked
unfolding match_predicate match_condition
match_older = refl

affected_panics_example :
    (invalidate_affected_query_caches whole
      (some (client_of []))
      users
      (ann_aged (pos 20))
      none
      true
      false
      older_index).panics
    ≡ true
unfolding is_list_key
affected_panics_example =
    affected_panics whole (client_of []) users (ann_aged (pos 20)) none true older_index adults_key
      older older_predicate older-Registered refl refl refl older-Depends match_older
