-- ===== src/Index/Lookup.antt =====
-- The look-ups of CacheIndex in internal/cache/index.go. A result lists its keys in the order of
-- the model's maps, which Go leaves open; no key is listed twice.
use thing.Prelude.{Str, Bool, false, Option, none, some, List, [], ◌∷◌, is_empty, if◌then◌else◌}
use thing.Prelude.Dict.{Dict, get, put, get_or, keys}
use thing.Query.{QueryParams}
use thing.Value.{Value, Runtime}
use thing.Predicate.Node.{Predicate}
use thing.Index.Nested.{Sets, Sets2}
use thing.Index.State.{
  CacheIndex, QueryDependencies, uncertain_field, to_index_value_string, put_all,
}

-- GetQueryParamsForKey
unfoldable pub get_query_params_for_key : Str → CacheIndex → Option QueryParams
unfolding get
get_query_params_for_key key idx = if is_empty key then none else get key idx.key_to_params

-- GetQueryDependenciesForKey
unfoldable get_query_dependencies_for_key : Str → CacheIndex → Option QueryDependencies
unfolding get
get_query_dependencies_for_key key idx =
    if is_empty key then none else get key idx.key_to_dependencies

-- GetCachedPredicate
unfoldable pub get_cached_predicate : Str → CacheIndex → Option Predicate
unfolding get_or
get_cached_predicate key idx = if is_empty key then none else get_or key idx.key_to_predicate none

-- GetQueryKeysForTable
unfoldable get_query_keys_for_table : Str → CacheIndex → List Str
unfolding get_or keys
get_query_keys_for_table table idx =
    if is_empty table then [] else keys (get_or table idx.table_to_query_keys [])

-- GetAllRegisteredKeys
unfoldable pub get_all_registered_keys : CacheIndex → List Str
unfolding keys
get_all_registered_keys idx = keys idx.key_to_params

-- Adds to the set the keys that a map has under each of some fields.
unfoldable pub collect : Sets → List Str → Dict Bool → Dict Bool
unfolding put_all keys get_or
collect sets [] found = found
collect sets (field ∷ fields) found =
    collect sets fields (put_all (keys (get_or field sets [])) found)

-- GetKeysByChangedFields
unfoldable get_keys_by_changed_fields : Str → Dict Bool → CacheIndex → List Str
unfolding collect keys get_or
get_keys_by_changed_fields table changed idx =
    if is_empty table
    then []
    else if is_empty changed
    then []
    else (let deps = get_or table idx.dependency_index [] in
        keys (collect deps (uncertain_field ∷ []) (collect deps (keys changed) [])))

-- GetKeysByFieldIndex
unfoldable get_keys_by_field_index : Str → Dict Bool → CacheIndex → List Str
unfolding collect keys get_or
get_keys_by_field_index table candidates idx =
    keys (collect (get_or table idx.field_index []) (keys candidates) [])

-- GetKeysByValue
unfoldable get_keys_by_value : Runtime → Str → Str → Value → CacheIndex → List Str
unfolding get_or keys to_index_value_string
get_keys_by_value f table field v idx =
    if is_empty table
    then []
    else if is_empty field
    then []
    else keys
        (get_or (to_index_value_string f v) (get_or field (get_or table idx.value_index []) []) [])

-- GetFullTableListKeys and GetFullTableCountKeys
unfoldable get_full_table_list_keys : Str → CacheIndex → List Str
unfolding get_or keys
get_full_table_list_keys table idx = keys (get_or table idx.full_table_list_keys [])

unfoldable get_full_table_count_keys : Str → CacheIndex → List Str
unfolding get_or keys
get_full_table_count_keys table idx = keys (get_or table idx.full_table_count_keys [])

-- InvalidationContext
pub record InvalidationContext : Type 0 where
  pub cache_keys : List Str
  pub key_to_params : Dict QueryParams
  pub key_to_deps : Dict QueryDependencies
  pub key_to_predicate : Dict (Option Predicate)

-- Step 1: the keys of the value index for the values of the candidate columns.
unfoldable pub collect_values : Runtime → Sets2 → Dict Bool → Dict Value → Dict Bool → Dict Bool
unfolding put_all keys get_or to_index_value_string
collect_values f tables candidates [] found = found
collect_values f tables candidates ((column, v) ∷ rest) found =
    let hits = keys (get_or (to_index_value_string f v) (get_or column tables []) []) in
    collect_values f tables candidates rest
      (if get_or column candidates false then put_all hits found else found)

-- The five steps of GetInvalidationContext that fill keySet.
unfoldable pub affected_keys : Runtime → Str → Dict Value → Dict Bool → CacheIndex → Dict Bool
unfolding collect_values collect put_all keys get_or
affected_keys f table values candidates idx =
    let columns = keys candidates in
    let s1 = collect_values f (get_or table idx.value_index []) candidates values [] in
    let s2 = collect (get_or table idx.field_index []) columns s1 in
    let s3 = put_all (keys (get_or table idx.full_table_list_keys [])) s2 in
    let s4 = put_all (keys (get_or table idx.full_table_count_keys [])) s3 in
    let deps = get_or table idx.dependency_index [] in
    collect deps (uncertain_field ∷ []) (collect deps columns s4)

-- keyToX[k] = x for the keys that have one
unfoldable pub restrict {ℓ} : {V : Type ℓ} → Dict V → List Str → Dict V → Dict V
unfolding get put
restrict m [] out = out
restrict m (k ∷ ks) out = restrict m ks (elim (get k m) [ none ↦ out | some v ↦ put k v out ])

-- keyToPred[k] = idx.keyToPredicate[k], which is nil where there is none
unfoldable pub restrict_predicates :
    Dict (Option Predicate) → List Str → Dict (Option Predicate) → Dict (Option Predicate)
unfolding get_or put
restrict_predicates m [] out = out
restrict_predicates m (k ∷ ks) out = restrict_predicates m ks (put k (get_or k m none) out)

-- GetInvalidationContext
unfoldable pub get_invalidation_context :
    Runtime → Str → Dict Value → Dict Bool → CacheIndex → InvalidationContext
unfolding affected_keys keys restrict restrict_predicates
get_invalidation_context f table values candidates idx =
    let found = keys (affected_keys f table values candidates idx) in
    record {
      cache_keys = found;
      key_to_params = restrict idx.key_to_params found [];
      key_to_deps = restrict idx.key_to_dependencies found [];
      key_to_predicate = restrict_predicates idx.key_to_predicate found [];
    }
