-- ===== src/Invalidate/Tasks.antt =====
-- What one registered query needs after a change: phase 1 of invalidateAffectedQueryCaches in
-- cache.go for one cache key.
use thing.Prelude.{
  Str, Bool, true, false, not, ◌&&◌, ◌||◌, Option, none, some, List, [], ◌∷◌, is_empty,
  if◌then◌else◌,
}
use thing.Prelude.Dict.{Dict, get, get_or, keys}
use thing.Query.{QueryParams, Error, panicked, Result, ok, err}
use thing.Value.{Runtime}
use thing.Predicate.Node.{Predicate}
use thing.Match.Condition.{Row, pointer_to, check_query_match_with_predicate}
use thing.Index.State.{QueryDependencies, is_list_key, is_count_key}
use thing.Index.Lookup.{InvalidationContext}
use thing.Invalidate.Columns.{ModelInfo}

-- determineCacheAction: needsAdd, needsRemove
unfoldable pub determine_cache_action : Bool → Bool → Bool → Bool → Bool × Bool
determine_cache_action is_create matches_original matches_current is_kept =
    if not is_kept
    then (false, true)
    else if is_create
    then (matches_current, false)
    else if matches_current && not matches_original
    then (true, false)
    else if not matches_current && matches_original
    then (false, true)
    else (false, false)

-- orderDependencyChanged
unfoldable pub any_changed : List Str → Dict Bool → Bool
unfolding get_or
any_changed [] changed = false
any_changed (field ∷ fields) changed = get_or field changed false || any_changed fields changed

unfoldable pub order_dependency_changed : QueryDependencies → Dict Bool → Bool
unfolding any_changed keys
order_dependency_changed deps changed =
    if is_empty changed
    then false
    else if deps.has_uncertain_order
    then true
    else any_changed (keys deps.order_fields) changed

-- What a change is, to the loop over the keys.
pub record Change : Type 0 where
  pub info : ModelInfo
  pub row : Row
  pub original : Option Row
  pub is_create : Bool
  pub is_delete : Bool
  pub is_kept : Bool
  pub changed : Dict Bool
  pub keep_item_changed : Bool

-- cacheTask
pub record CacheTask : Type 0 where
  pub cache_key : Str
  pub is_list : Bool
  pub is_count : Bool
  pub needs_add : Bool
  pub needs_remove : Bool

-- One round of phase 1: nothing, the deletion of the key after an error that the test returns, the
-- end of the run by a panic of the test, or a task.
pub data Gathered : Type 0 where
  skip drop stop : Gathered
  task : CacheTask → Gathered

unfoldable pub check_row : Runtime → Change → QueryParams → Option Predicate → Row → Result Bool
check_row f c params pred row =
    check_query_match_with_predicate f (pointer_to row) c.info.table_name
      (some c.info.column_to_field) params pred

-- Whether the original row matched; a new row, or none, did not.
unfoldable pub check_original : Runtime → Change → QueryParams → Option Predicate → Result Bool
check_original f c params pred =
    if c.is_create
    then ok false
    else elim (c.original) [ none ↦ ok false | some row ↦ check_row f c params pred row ]

unfoldable pub task_if : Bool → CacheTask → Gathered
task_if needed t = if needed then task t else skip

-- What a test that fails leads to: an error that it returns drops the key; a panic, which nothing
-- recovers, leaves invalidateAffectedQueryCaches.
unfoldable pub after_error : Error → Gathered
after_error panicked = stop
after_error _ = drop

-- The branch for a deleted row.
unfoldable pub gather_delete : Str → Result Bool → Gathered
gather_delete key (err e) = after_error e
gather_delete key (ok matches) = task_if matches (record {
  cache_key = key;
  is_list = is_list_key key;
  is_count = is_count_key key;
  needs_add = false;
  needs_remove = true;
})

-- The branch for a saved row.
unfoldable pub gather_save : Change → Str → QueryDependencies → Result Bool → Result Bool → Gathered
gather_save c key deps (err e) original = after_error e
gather_save c key deps (ok current) (err e) = after_error e
gather_save c key deps (ok current) (ok original) =
    let action = determine_cache_action c.is_create original current c.is_kept in
    let reordered =
      is_list_key key
      && (not c.is_create && (original && (current && order_dependency_changed deps c.changed))) in
    let remove = action.1 || (reordered || (c.keep_item_changed && current)) in
    task_if (action.0 || remove) (record {
      cache_key = key;
      is_list = is_list_key key;
      is_count = is_count_key key;
      needs_add = action.0;
      needs_remove = remove;
    })

-- The zero value of QueryDependencies, which Go reads for a key that has none.
abbrev pub no_dependencies : QueryDependencies
no_dependencies = record { where_fields = []; order_fields = []; has_uncertain_order = false }

unfoldable pub gather_found :
    Runtime → Change → Str → QueryParams → QueryDependencies → Option Predicate → Gathered
gather_found f c key params deps pred =
    if c.is_delete
    then gather_delete key (check_row f c params pred c.row)
    else gather_save c key deps (check_row f c params pred c.row) (check_original f c params pred)

-- One round of phase 1.
unfoldable pub gather : Runtime → Change → InvalidationContext → Str → Gathered
gather f c ctx key =
    if not (is_list_key key) && not (is_count_key key)
    then skip
    else elim (get key ctx.key_to_params) [
      | none ↦ skip
      | some params ↦
          gather_found f c key params (get_or key ctx.key_to_deps no_dependencies)
            (get_or key ctx.key_to_predicate none)
    ]
