-- ===== src/Tests/Changes.antt =====
-- The invalidation of cached queries on concrete changes of a row.
use thing.Prelude.{
  ℤ, pos, Str, str, str_eq, str_eq_iff, true, Bool, Bool-cases, inl, inr, false, none, some, [],
  ◌∷◌, ◌≡◌, refl, arith,
}
use thing.Prelude.Dict.{get, get_or, keys, mem_str}
use thing.Query.{QueryParams, ok}
use thing.Predicate.Node.{match_predicate, predicate_fields}
use thing.Match.Condition.{
  pointer_to, match_condition, check_query_match_with_predicate, match_row, is_none_given, row_of,
  predicate_or_parse,
}
use thing.Index.State.{new_cache_index, parse_query_for_index, is_list_key}
use thing.Index.Depends.{Depends, on_where}
use thing.Invalidate.Columns.{all_columns, field_values, changed_model_columns}
use thing.Invalidate.Run.{contains_id, invalidate_affected_query_caches}
use thing.Invalidate.Unchanged.{Tracked, condition_unchanged}
use thing.Invalidate.Known.{
  Registered, register_query-Registered, register, deregister, run_steps, run_steps-Registered,
}
use thing.Invalidate.Writes.{present}
use thing.Invalidate.Precise.{update_precise}
use thing.Prelude.{◌&&◌}
use thing.Index.State.{QueryDependencies, build_query_dependencies, register_query}
use thing.Invalidate.Columns.{keep_item_field_changed}
use thing.Invalidate.Tasks.{order_dependency_changed}
use thing.Invalidate.Calm.{Calm}
use thing.Invalidate.Fresh.{Deletes, update_fresh, create_fresh, delete_fresh}
use thing.Tests.Data.{
  whole, number, query, adults, adult, adults_key, all_key, adults_index, users, row_aged, ann_aged,
  client_of,
}
use thing.Predicate.Parser.{parse_query_predicate}

parse_adults : parse_query_predicate whole adults ≡ ok adult
unfolding parse_query_predicate
parse_adults = refl

register_query-Registered_example :
    Registered whole (str "users") adults_key adults adult adults_index
register_query-Registered_example =
    register_query-Registered whole (str "users") adults_key adults adult new_cache_index refl refl
      parse_adults

adults-Registered : Registered whole (str "users") adults_key adults adult adults_index
adults-Registered =
    register_query-Registered whole (str "users") adults_key adults adult new_cache_index refl refl
      parse_adults

run_steps-Registered_example : Registered whole (str "users") adults_key adults adult (
    run_steps whole adults_index
      (register (str "users") all_key (query [] []) ∷ deregister all_key ∷ []))
unfolding str_eq
run_steps-Registered_example =
    run_steps-Registered whole (str "users") adults_key adults adult adults_index
      (register (str "users") all_key (query [] []) ∷ deregister all_key ∷ []) (refl, (refl, tt))
      adults-Registered

age-Tracked : (now before : ℤ) → Tracked users (row_aged now) (row_aged before) (str "age")
unfolding get str_eq
age-Tracked now before = record {
  name = str "Age";
  v = number now;
  w = number before;
  named = refl;
  compared = refl;
  current = refl;
  original = refl;
  exact = refl;
}

adult-Tracked :
    (now before : ℤ) (c : Str)
    → mem_str c (predicate_fields adult) ≡ true
    → Tracked users (row_aged now) (row_aged before) c
unfolding mem_str predicate_fields
adult-Tracked now before c h =
    let same : str "age" ≡ c = (str_eq_iff (str "age") c).0 (ground (arith, h)) in
    rw⁻¹ same (age-Tracked now before)

age_unchanged :
    get_or
      (str "age")
      (changed_model_columns whole users (row_aged (pos 20)) (some (row_aged (pos 20))))
      false
    ≡ false
unfolding changed_model_columns get_or
age_unchanged = refl

condition_unchanged_example :
    match_condition whole users.column_to_field
      (row_aged (pos 20))
      (str "age")
      (str ">=")
      (number (pos 18))
    ≡ match_condition whole users.column_to_field
        (row_aged (pos 20))
        (str "age")
        (str ">=")
        (number (pos 18))
condition_unchanged_example =
    condition_unchanged whole users (row_aged (pos 20)) (row_aged (pos 20)) (str "age") (str ">=")
      (number (pos 18)) (age-Tracked (pos 20) (pos 20)) age_unchanged

match_adult :
    match_predicate (match_condition whole users.column_to_field (row_aged (pos 20))) adult
    ≡ ok true
unfolding match_predicate match_condition
match_adult = refl

match_child :
    match_predicate (match_condition whole users.column_to_field (row_aged (pos 9))) adult
    ≡ ok false
unfolding match_predicate match_condition
match_child = refl

contains_seven : contains_id (pos 7 ∷ []) (pos 7) ≡ true
unfolding contains_id
contains_seven = refl

contains_none : contains_id [] (pos 7) ≡ false
unfolding contains_id
contains_none = refl

check_adult :
    (age : ℤ) (a : Bool) (params : QueryParams)
    → match_predicate (match_condition whole users.column_to_field (row_aged age)) adult ≡ ok a
    → check_query_match_with_predicate whole
        (pointer_to (row_aged age))
        users.table_name
        (some users.column_to_field)
        params
        (some adult)
      ≡ ok a
unfolding check_query_match_with_predicate match_row is_none_given row_of predicate_or_parse
check_adult age a params m = m

knows_adults :
    (key : Str) (params : QueryParams)
    → get key adults_index.key_to_params ≡ some params
    → adults_key ≡ key
unfolding get register_query
knows_adults key params h = elim (Bool-cases (str_eq adults_key key)) [
  | inl e ↦ (str_eq_iff adults_key key).0 e
  | inr e ↦ absurd (ground (arith, h, e))
]

-- The index knows one query, whose test of a row with an age returns a result.
adult-Calm :
    (age : ℤ) (a : Bool)
    → match_predicate (match_condition whole users.column_to_field (row_aged age)) adult ≡ ok a
    → Calm whole users (row_aged age) adults_index
adult-Calm age a m key params h =
    rw⁻¹ (knows_adults key params h)
      (rw (adults-Registered.predicate_known, check_adult age a params m) (λ e. ground (arith, e)))

update_fresh_example : Deletes adults_key (
    invalidate_affected_query_caches whole
      (some (client_of []))
      users
      (ann_aged (pos 20))
      (some (row_aged (pos 9)))
      false
      false
      adults_index)
unfolding is_list_key
update_fresh_example =
    update_fresh whole (client_of []) users (ann_aged (pos 20)) (row_aged (pos 9)) adults_index
      adults_key adults adult true adults-Registered refl refl refl refl
      (adult-Tracked (pos 20) (pos 9)) match_adult match_child (λ _. present [] contains_none)
      (adult-Calm (pos 20) true match_adult) (adult-Calm (pos 9) false match_child)

age-Depends :
    Depends whole adults_key adults
      (all_columns (field_values (row_aged (pos 20)) users.compare_fields []))
unfolding all_columns field_values mem_str keys str_eq parse_query_for_index parse_query_predicate
    predicate_fields
age-Depends = on_where (str "age") refl refl

create_fresh_example : Deletes adults_key (
    invalidate_affected_query_caches whole
      (some (client_of []))
      users
      (ann_aged (pos 20))
      none
      true
      false
      adults_index)
unfolding is_list_key
create_fresh_example =
    create_fresh whole (client_of []) users (ann_aged (pos 20)) none adults_index adults_key adults
      adult adults-Registered refl refl refl refl age-Depends match_adult
      (λ _. present [] contains_none) (adult-Calm (pos 20) true match_adult)

delete_fresh_example : Deletes adults_key (
    invalidate_affected_query_caches whole
      (some (client_of (pos 7 ∷ [])))
      users
      (ann_aged (pos 20))
      (some (row_aged (pos 20)))
      false
      true
      adults_index)
unfolding is_list_key
delete_fresh_example =
    delete_fresh whole (client_of (pos 7 ∷ [])) users (ann_aged (pos 20)) (some (row_aged (pos 20)))
      adults_index adults_key adults adult adults-Registered refl refl refl age-Depends match_adult
      (λ _. present (pos 7 ∷ []) contains_seven) (adult-Calm (pos 20) true match_adult)

abbrev adults_deps : QueryDependencies
adults_deps = record {
  where_fields = (str "age", true) ∷ [];
  order_fields = [];
  has_uncertain_order = false;
}

adults_known : get adults_key adults_index.key_to_dependencies ≡ some adults_deps
unfolding get str_eq register_query parse_query_for_index parse_query_predicate predicate_fields
    build_query_dependencies is_list_key
adults_known = refl

match_older :
    match_predicate (match_condition whole users.column_to_field (row_aged (pos 30))) adult
    ≡ ok true
unfolding match_predicate match_condition
match_older = refl

age_changed :
    (is_list_key adults_key
      && (true
          && order_dependency_changed adults_deps
              (changed_model_columns whole users (row_aged (pos 30)) (some (row_aged (pos 20))))))
    ≡ false
unfolding is_list_key order_dependency_changed changed_model_columns
age_changed = refl

update_precise_example :
    mem_str adults_key
      (invalidate_affected_query_caches whole
        (some (client_of []))
        users
        (ann_aged (pos 30))
        (some (row_aged (pos 20)))
        false
        false
        adults_index).deletions
    ≡ false
unfolding is_list_key keep_item_field_changed
update_precise_example =
    update_precise whole (client_of []) users (ann_aged (pos 30)) (row_aged (pos 20)) adults_index
      adults_key adults adults_deps adult true refl adults-Registered.params_known adults_known
      adults-Registered.predicate_known refl refl refl age_changed match_older match_adult
