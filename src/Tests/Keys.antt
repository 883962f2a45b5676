-- ===== src/Tests/Keys.antt =====
-- The index of cached queries on a concrete registration.
use thing.Prelude.{str, str_eq, true, false, none, [], ◌∷◌, ◌≡◌, refl}
use thing.Prelude.Dict.{keys, mem_str}
use thing.Predicate.Parser.{parse_query_predicate}
use thing.Predicate.Node.{predicate_fields}
use thing.Index.State.{
  new_cache_index, register_query, deregister_query, parse_query_for_index, add_dependencies,
  all_dependencies, build_query_dependencies, is_list_key, add_fields,
}
use thing.Index.Lookup.{get_invalidation_context, get_query_params_for_key, get_cached_predicate}
use thing.Index.Depends.{Depends, on_where}
use thing.Index.Registered.{affected}
use thing.Index.Complete.{register_query-Depends, register_query-keeps, mem_str-cache_keys}
use thing.Index.Deregister.{deregister_query_self, deregister_query-keeps}
use thing.Tests.Data.{whole, query, adults, adults_key, all_key, adults_index}

adults-Depends : Depends whole adults_key adults ((str "age", true) ∷ [])
unfolding mem_str keys str_eq parse_query_for_index parse_query_predicate predicate_fields
adults-Depends = on_where (str "age") refl refl

register_query-Depends_example :
    mem_str adults_key
      (get_invalidation_context whole
        (str "users")
        []
        ((str "age", true) ∷ [])
        adults_index).cache_keys
    ≡ true
register_query-Depends_example =
    register_query-Depends whole (str "users") adults_key adults new_cache_index []
      ((str "age", true) ∷ []) refl refl adults-Depends

adults_listed :
    mem_str adults_key
      (get_invalidation_context whole
        (str "users")
        []
        ((str "age", true) ∷ [])
        adults_index).cache_keys
    ≡ true
unfolding get_invalidation_context register_query mem_str add_dependencies all_dependencies
    build_query_dependencies parse_query_for_index parse_query_predicate predicate_fields
    is_list_key add_fields
adults_listed = refl

register_query-keeps_example :
    mem_str adults_key
      (get_invalidation_context whole
        (str "users")
        []
        ((str "age", true) ∷ [])
        (register_query whole (str "users") all_key (query [] []) adults_index)).cache_keys
    ≡ true
register_query-keeps_example =
    register_query-keeps whole (str "users") all_key (query [] []) adults_index adults_key
      (str "users") [] ((str "age", true) ∷ []) adults_listed

mem_str-cache_keys_example :
    mem_str all_key
      (get_invalidation_context whole
        (str "users")
        []
        ((str "age", true) ∷ [])
        adults_index).cache_keys
    ≡ affected whole all_key (str "users") [] ((str "age", true) ∷ []) adults_index
mem_str-cache_keys_example =
    mem_str-cache_keys whole all_key (str "users") [] ((str "age", true) ∷ []) adults_index

deregister_query_self_example :
    (mem_str adults_key
        (get_invalidation_context whole
          (str "users")
          []
          ((str "age", true) ∷ [])
          (deregister_query adults_key adults_index)).cache_keys
      ≡ false)
    × (get_query_params_for_key adults_key (deregister_query adults_key adults_index) ≡ none)
    × (get_cached_predicate adults_key (deregister_query adults_key adults_index) ≡ none)
deregister_query_self_example =
    deregister_query_self whole adults_key adults_index (str "users") [] ((str "age", true) ∷ [])
      refl

deregister_query-keeps_example :
    (mem_str adults_key
        (get_invalidation_context whole
          (str "users")
          []
          ((str "age", true) ∷ [])
          (deregister_query all_key adults_index)).cache_keys
      ≡ true)
    × (get_query_params_for_key adults_key (deregister_query all_key adults_index)
        ≡ get_query_params_for_key adults_key adults_index)
unfolding str_eq
deregister_query-keeps_example =
    deregister_query-keeps whole all_key adults_key adults_index (str "users") []
      ((str "age", true) ∷ []) refl adults_listed
