-- ===== src/Invalidate/Run.antt =====
-- invalidateAffectedQueryCaches of cache.go. The cache client, an interface of the program, is
-- given by what its calls return for each key; the model lists the calls of Delete. Those of phase 4
-- come in the order of the tasks, where Go leaves the order open.
-- The keys of a context are distinct, so the maps that the source keeps from key to list, to
-- error and to write are entries of the tasks here; the lock around a deletion leaves no trace.
use thing.Prelude.{
  ℤ, pos, eq_ℤ, Str, Bool, true, false, not, ◌&&◌, ◌||◌, Option, none, some, List, [], ◌∷◌, ◌++◌,
  any, if◌then◌else◌,
}
use thing.Value.{Runtime}
use thing.Match.Condition.{Row}
use thing.Index.State.{CacheIndex}
use thing.Index.Lookup.{InvalidationContext, get_invalidation_context}
use thing.Invalidate.Columns.{
  ModelInfo, changed_model_columns, field_values, cache_candidate_columns, keep_item_field_changed,
}
use thing.Invalidate.Tasks.{Change, CacheTask, Gathered, skip, drop, stop, task, gather}

pub data IdsRead : Type 0 where
  not_found failed : IdsRead
  ids : List ℤ → IdsRead

pub data Deleted : Type 0 where
  done missing broken : Deleted

-- GetQueryIDs and Delete of CacheClient (interfaces.go)
pub record Client : Type 0 where
  pub get_query_ids : Str → IdsRead
  pub delete : Str → Deleted

-- containsID
unfoldable pub contains_id : List ℤ → ℤ → Bool
contains_id xs id = any (λ x. eq_ℤ x id) xs

-- Phases 2 and 3 for the list of a task: whether its key is to be written.
unfoldable pub list_write : CacheTask → ℤ → IdsRead → Bool
unfolding contains_id
list_write t id failed = false
list_write t id not_found = t.needs_add || t.needs_remove
list_write t id (ids xs) = if t.needs_add then not (contains_id xs id) else t.needs_remove

unfoldable pub write_needed : Client → ℤ → CacheTask → Bool
write_needed client id t =
    if t.is_list
    then list_write t id (client.get_query_ids t.cache_key)
    else t.is_count && (t.needs_add || t.needs_remove)

-- Phase 4 for one key: a deletion that fails, but for a key that is not there, is tried again.
unfoldable pub delete_calls : Str → Deleted → List Str
delete_calls key broken = key ∷ key ∷ []
delete_calls key _ = key ∷ []

-- Phase 1: its deletions, the tasks that it gathers, and whether the test of a key ends it by a
-- panic. The deletions before the panic are done, the keys behind it are not looked at.
pub record Phase : Type 0 where
  pub dropped : List Str
  pub tasks : List CacheTask
  pub panics : Bool

unfoldable pub add_gathered : Str → Gathered → Phase → Phase
add_gathered key skip s = s
add_gathered key drop s = record s { dropped = key ∷ s.dropped }
add_gathered key stop s = record { dropped = []; tasks = []; panics = true }
add_gathered key (task t) s = record s { tasks = t ∷ s.tasks }

unfoldable pub gather_all : Runtime → Change → InvalidationContext → List Str → Phase
gather_all f c ctx [] = record { dropped = []; tasks = []; panics = false }
gather_all f c ctx (key ∷ keys) = add_gathered key (gather f c ctx key) (gather_all f c ctx keys)

unfoldable pub write_all : Client → ℤ → List CacheTask → List Str
write_all client id [] = []
write_all client id (t ∷ tasks) =
    let rest = write_all client id tasks in
    if write_needed client id t
    then delete_calls t.cache_key (client.delete t.cache_key) ++ rest
    else rest

-- A model as invalidateAffectedQueryCaches sees it: its methods GetID, KeepItem and
-- KeepItemFields, and its fields.
pub record Instance : Type 0 where
  pub id : ℤ
  pub row : Row
  pub keep_item : Bool
  pub keep_item_fields : List Str

unfoldable pub change_of : Runtime → ModelInfo → Instance → Option Row → Bool → Bool → Change
change_of f info model original is_create is_delete =
    let changed = changed_model_columns f info model.row original in
    record {
      info = info;
      row = model.row;
      original = original;
      is_create = is_create;
      is_delete = is_delete;
      is_kept = model.keep_item;
      changed = changed;
      keep_item_changed = keep_item_field_changed model.keep_item_fields changed;
    }

unfoldable pub context_of : Runtime → Change → CacheIndex → InvalidationContext
context_of f c idx =
    let values = field_values c.row c.info.compare_fields [] in
    get_invalidation_context f c.info.table_name values
      (cache_candidate_columns values c.changed c.is_create c.is_delete
        (not c.is_kept || c.keep_item_changed))
      idx

-- The keys that a run deletes, in their order, and whether it ends by a panic.
pub record Run : Type 0 where
  pub deletions : List Str
  pub panics : Bool

-- The run for a change of a row with an identifier. A panic in phase 1 leaves the tasks undone.
unfoldable pub run_change : Runtime → Client → ℤ → Change → CacheIndex → Run
run_change f client id c idx =
    let ctx = context_of f c idx in
    let gathered = gather_all f c ctx ctx.cache_keys in
    record {
      deletions =
          gathered.dropped ++ (if gathered.panics then [] else write_all client id gathered.tasks);
      panics = gathered.panics;
    }

-- invalidateAffectedQueryCaches; `client` is none where no cache is configured
unfoldable pub invalidate_affected_query_caches :
    Runtime → Option Client → ModelInfo → Instance → Option Row → Bool → Bool → CacheIndex → Run
invalidate_affected_query_caches f none info model original is_create is_delete idx = record {
  deletions = [];
  panics = false;
}
invalidate_affected_query_caches f (some client) info model original is_create is_delete idx =
    if eq_ℤ model.id (pos 0)
    then record { deletions = []; panics = false }
    else run_change f client model.id (change_of f info model original is_create is_delete) idx
