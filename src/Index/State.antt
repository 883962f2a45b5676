-- ===== src/Index/State.antt =====
-- CacheIndex of internal/cache/index.go. Its mutex makes each operation one step; a `range` over
-- a map visits the entries in the order of the list.
use thing.Prelude.{
  Str, str, has_prefix, Bool, true, false, not, ◌&&◌, ◌||◌, Option, none, some, List, [], ◌∷◌, ◌++◌,
  is_empty, if◌then◌else◌,
}
use thing.Prelude.Dict.{Dict, put, remove, keys}
use thing.Prelude.Decimal.{print_ℤ}
use thing.Query.{QueryParams, Result, ok, err}
use thing.Value.{IntKind, FloatKind, Value, Runtime}
use thing.Predicate.Node.{Predicate, predicate_fields, exact_matches}
use thing.Predicate.Parser.{parse_query_predicate}
use thing.Index.Legacy.{legacy_extract_all_where_fields, legacy_parse_exact_match_fields}
use thing.Index.Order.{parse_order_fields}
use thing.Index.Nested.{
  Sets, Sets2, Sets3, add1, add2, add3, ensure_field, remove1, remove2, remove3,
}

-- QueryDependencies
pub record QueryDependencies : Type 0 where
  pub where_fields : Dict Bool
  pub order_fields : Dict Bool
  pub has_uncertain_order : Bool

-- CacheIndex; the predicate of a key is `none` where the source stores a nil pointer
pub record CacheIndex : Type 0 where
  pub key_to_params : Dict QueryParams
  pub key_to_dependencies : Dict QueryDependencies
  pub key_to_predicate : Dict (Option Predicate)
  pub table_to_query_keys : Sets
  pub dependency_index : Sets2
  pub value_index : Sets3
  pub field_index : Sets2
  pub full_table_list_keys : Sets
  pub full_table_count_keys : Sets

-- NewCacheIndex, and what ResetGlobalCacheIndex installs
abbrev pub new_cache_index : CacheIndex
new_cache_index = record {
  key_to_params = [];
  key_to_dependencies = [];
  key_to_predicate = [];
  table_to_query_keys = [];
  dependency_index = [];
  value_index = [];
  field_index = [];
  full_table_list_keys = [];
  full_table_count_keys = [];
}

-- uncertainDependencyField
abbrev pub uncertain_field : Str
uncertain_field = 42 ∷ []

unfoldable pub is_list_key : Str → Bool
unfolding has_prefix
is_list_key key = has_prefix key (str "list:")

unfoldable pub is_count_key : Str → Bool
unfolding has_prefix
is_count_key key = has_prefix key (str "count:") || has_prefix key (str "count_precise:")

-- toIndexValueString
unfoldable pub to_index_value_string : Runtime → Value → Str
unfolding print_ℤ
to_index_value_string f (Value.text s) = s
to_index_value_string f (Value.int IntKind.int n) = print_ℤ n
to_index_value_string f (Value.int IntKind.int64 n) = print_ℤ n
to_index_value_string f (Value.float FloatKind.float64 b) = f.print b
to_index_value_string f v = f.format v

-- What parseQueryForIndex returns.
pub record Indexed : Type 0 where
  pub fields : List Str
  pub uncertain : Bool
  pub exact : Dict (List Value)

unfoldable pub indexed_of : QueryParams → Result Predicate → Indexed
indexed_of params (ok p) = record {
  fields = predicate_fields p;
  uncertain = false;
  exact = exact_matches p;
}
indexed_of params (err e) = record {
  fields = legacy_extract_all_where_fields params;
  uncertain = true;
  exact = legacy_parse_exact_match_fields params;
}

-- parseQueryForIndex
unfoldable pub parse_query_for_index : Runtime → QueryParams → Indexed
unfolding indexed_of
parse_query_for_index f params = indexed_of params (parse_query_predicate f params)

-- ParseExactMatchFields
unfoldable parse_exact_match_fields : Runtime → QueryParams → Dict (List Value)
unfolding parse_query_for_index
parse_exact_match_fields f params = (parse_query_for_index f params).exact

-- The set with some fields put into it.
unfoldable pub put_all : List Str → Dict Bool → Dict Bool
unfolding put
put_all [] m = m
put_all (k ∷ ks) m = put_all ks (put k true m)

-- buildQueryDependencies
unfoldable pub build_query_dependencies : List Str → Bool → Str → Bool → QueryDependencies
unfolding put_all put
build_query_dependencies fields uncertain order is_list =
    let named = put_all fields [] in
    let ordered = parse_order_fields order in
    let used = is_list && not (is_empty order) in
    record {
      where_fields = if uncertain then put uncertain_field true named else named;
      order_fields = if used then put_all ordered.0 [] else [];
      has_uncertain_order = if used then ordered.1 else false;
    }

-- addDependencyLocked
unfoldable pub add_dependency : Str → Str → Str → Sets2 → Sets2
unfolding add2
add_dependency table field key m = if is_empty field then m else add2 table field key m

unfoldable pub add_dependencies : Str → List Str → Str → Sets2 → Sets2
unfolding add_dependency
add_dependencies table [] key m = m
add_dependencies table (field ∷ fields) key m =
    add_dependencies table fields key (add_dependency table field key m)

-- The values of one field in the value index.
unfoldable pub add_values_at : Runtime → Str → Str → List Value → Str → Sets3 → Sets3
unfolding add3 to_index_value_string
add_values_at f table field [] key m = m
add_values_at f table field (v ∷ vs) key m =
    add_values_at f table field vs key (add3 table field (to_index_value_string f v) key m)

unfoldable pub add_exact : Runtime → Str → Dict (List Value) → Str → Sets3 → Sets3
unfolding add_values_at ensure_field
add_exact f table [] key m = m
add_exact f table ((field, vs) ∷ rest) key m =
    add_exact f table rest key (add_values_at f table field vs key (ensure_field table field m))

unfoldable pub add_fields : Str → List Str → Str → Sets2 → Sets2
unfolding add2
add_fields table [] key m = m
add_fields table (field ∷ fields) key m = add_fields table fields key (add2 table field key m)

unfoldable pub all_dependencies : QueryDependencies → List Str
unfolding keys
all_dependencies deps =
    keys deps.where_fields
    ++ (keys deps.order_fields ++ (if deps.has_uncertain_order then uncertain_field ∷ [] else []))

unfoldable pub predicate_of : Result Predicate → Option Predicate
predicate_of (ok p) = some p
predicate_of (err e) = none

-- RegisterQuery, for a table and a key that are not empty
unfoldable pub register_named : Runtime → Str → Str → QueryParams → CacheIndex → CacheIndex
unfolding put predicate_of
register_named f table key params idx =
    let parsed = parse_query_for_index f params in
    let deps =
      build_query_dependencies parsed.fields parsed.uncertain params.order (is_list_key key) in
    let whole = is_empty params.where_clause in
    record {
      key_to_params = put key params idx.key_to_params;
      key_to_dependencies = put key deps idx.key_to_dependencies;
      key_to_predicate =
          put key (predicate_of (parse_query_predicate f params)) idx.key_to_predicate;
      table_to_query_keys = add1 table key idx.table_to_query_keys;
      dependency_index = add_dependencies table (all_dependencies deps) key idx.dependency_index;
      value_index = add_exact f table parsed.exact key idx.value_index;
      field_index = add_fields table parsed.fields key idx.field_index;
      full_table_list_keys =
          if whole && is_list_key key
          then add1 table key idx.full_table_list_keys
          else idx.full_table_list_keys;
      full_table_count_keys =
          if whole && is_count_key key
          then add1 table key idx.full_table_count_keys
          else idx.full_table_count_keys;
    }

-- RegisterQuery
unfoldable pub register_query : Runtime → Str → Str → QueryParams → CacheIndex → CacheIndex
unfolding register_named
register_query f table key params idx =
    if is_empty table || is_empty key then idx else register_named f table key params idx

unfoldable pub deregister_named : Str → CacheIndex → CacheIndex
unfolding remove remove1 remove2 remove3
deregister_named key idx = record {
  key_to_params = remove key idx.key_to_params;
  key_to_dependencies = remove key idx.key_to_dependencies;
  key_to_predicate = remove key idx.key_to_predicate;
  table_to_query_keys = remove1 key idx.table_to_query_keys;
  dependency_index = remove2 key idx.dependency_index;
  value_index = remove3 key idx.value_index;
  field_index = remove2 key idx.field_index;
  full_table_list_keys = remove1 key idx.full_table_list_keys;
  full_table_count_keys = remove1 key idx.full_table_count_keys;
}

-- DeregisterQuery
unfoldable pub deregister_query : Str → CacheIndex → CacheIndex
unfolding deregister_named
deregister_query key idx = if is_empty key then idx else deregister_named key idx
