-- ===== src/Invalidate/Found.antt =====
-- The task that phase 1 of invalidateAffectedQueryCaches in cache.go makes for a key whose query
-- the changed row enters or leaves.
use thing.Prelude.{Str, Bool, true, false, not, ◌≡◌, refl, ◌∙◌, some, is_empty, arith}
use thing.Query.{QueryParams, ok}
use thing.Value.{Runtime}
use thing.Predicate.Node.{Predicate, match_predicate}
use thing.Match.Condition.{
  Row, match_condition, match_row, predicate_or_parse, check_query_match_with_predicate,
  is_none_given, row_of,
}
use thing.Index.State.{QueryDependencies}
use thing.Invalidate.Tasks.{
  Change, task, gather_found, gather_delete, gather_save, check_row, check_original,
  determine_cache_action, task_if,
}
use thing.Invalidate.Writes.{task_for}

-- What the check of a row is, for a key with a predicate.
pub check_row_lem :
    (f : Runtime) (c : Change) (params : QueryParams) (p : Predicate) (row : Row)
    → is_empty c.info.table_name ≡ false
    → check_row f c params (some p) row
      ≡ match_predicate (match_condition f c.info.column_to_field row) p
unfolding check_row check_query_match_with_predicate match_row is_none_given row_of
    predicate_or_parse
check_row_lem f c params p row h = rw h refl

gather_save_lem :
    (c : Change) (key : Str) (deps : QueryDependencies) (a : Bool)
    → c.is_create ≡ false
    → c.is_kept ≡ true
    → gather_save c key deps (ok a) (ok (not a)) ≡ task (task_for c key a)
unfolding gather_save task_if determine_cache_action
gather_save_lem c key deps true h k = ground (arith, h, k)
gather_save_lem c key deps false h k = rw (h, k) refl

pub gather_found_lem :
    (f : Runtime) (c : Change) (key : Str) (params : QueryParams) (p : Predicate)
    (deps : QueryDependencies) (before : Row) (a : Bool)
    → c.original ≡ some before
    → c.is_create ≡ false
    → c.is_delete ≡ false
    → c.is_kept ≡ true
    → is_empty c.info.table_name ≡ false
    → match_predicate (match_condition f c.info.column_to_field c.row) p ≡ ok a
    → match_predicate (match_condition f c.info.column_to_field before) p ≡ ok (not a)
    → gather_found f c key params deps (some p) ≡ task (task_for c key a)
unfolding gather_found check_original
gather_found_lem f c key params p deps before a o create delete kept named m n = simp (
  delete,
  create,
  o,
  check_row_lem f c params p c.row named ∙ m,
  check_row_lem f c params p before named ∙ n,
  gather_save_lem c key deps a create kept,
)

gather_save_new :
    (c : Change) (key : Str) (deps : QueryDependencies)
    → c.is_create ≡ true
    → c.is_kept ≡ true
    → gather_save c key deps (ok true) (ok false) ≡ task (task_for c key true)
unfolding gather_save task_if determine_cache_action
gather_save_new c key deps h k = ground (arith, h, k)

pub create_found :
    (f : Runtime) (c : Change) (key : Str) (params : QueryParams) (p : Predicate)
    (deps : QueryDependencies)
    → c.is_create ≡ true
    → c.is_delete ≡ false
    → c.is_kept ≡ true
    → is_empty c.info.table_name ≡ false
    → match_predicate (match_condition f c.info.column_to_field c.row) p ≡ ok true
    → gather_found f c key params deps (some p) ≡ task (task_for c key true)
unfolding gather_found check_original
create_found f c key params p deps create delete kept named m = simp (
  delete,
  create,
  check_row_lem f c params p c.row named ∙ m,
  gather_save_new c key deps create kept,
)

pub delete_found :
    (f : Runtime) (c : Change) (key : Str) (params : QueryParams) (p : Predicate)
    (deps : QueryDependencies)
    → c.is_delete ≡ true
    → is_empty c.info.table_name ≡ false
    → match_predicate (match_condition f c.info.column_to_field c.row) p ≡ ok true
    → gather_found f c key params deps (some p) ≡ task (task_for c key false)
unfolding gather_found gather_delete task_if
delete_found f c key params p deps delete named m =
    simp (delete, check_row_lem f c params p c.row named ∙ m)
