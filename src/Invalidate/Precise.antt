-- ===== src/Invalidate/Precise.antt =====
-- Deletions by invalidateAffectedQueryCaches of cache.go after an update, for a query whose result
-- the update leaves as it was.
use thing.Prelude.{
  pos, eq_ℤ, Str, Bool, true, false, not, ◌&&◌, ◌||◌, ◌≡◌, refl, ap, ◌∙◌, Option, none, some, [],
  is_empty, arith, Bool-cases, inl, inr,
}
use thing.Prelude.Dict.{get, get_or, mem_str, get_or-known}
use thing.Query.{QueryParams, ok}
use thing.Value.{Runtime}
use thing.Predicate.Node.{Predicate, match_predicate}
use thing.Match.Condition.{Row, match_condition}
use thing.Index.State.{CacheIndex, QueryDependencies, is_list_key, is_count_key}
use thing.Invalidate.Columns.{
  ModelInfo, field_values, cache_candidate_columns, keep_item_field_changed, changed_model_columns,
}
use thing.Index.Context.{context_params, context_predicate, context_deps}
use thing.Invalidate.Found.{check_row_lem}
use thing.Invalidate.Tasks.{
  Change, skip, task_if, gather, gather_found, gather_save, check_original, determine_cache_action,
  order_dependency_changed, no_dependencies,
}
use thing.Invalidate.Run.{Client, Instance, change_of, context_of, invalidate_affected_query_caches}
use thing.Invalidate.Skipped.{run_change_skips}

gather_save_same :
    (c : Change) (key : Str) (deps : QueryDependencies) (a : Bool)
    → c.is_create ≡ false
    → c.is_kept ≡ true
    → c.keep_item_changed ≡ false
    → (is_list_key key && (a && order_dependency_changed deps c.changed)) ≡ false
    → gather_save c key deps (ok a) (ok a) ≡ skip
unfolding gather_save task_if determine_cache_action
gather_save_same c key deps true create kept items order =
    ground (arith, create, kept, items, order)
gather_save_same c key deps false create kept items order =
    ground (arith, create, kept, items, order)

found_same :
    (f : Runtime) (c : Change) (key : Str) (params : QueryParams) (p : Predicate)
    (deps : QueryDependencies) (before : Row) (a : Bool)
    → c.original ≡ some before
    → c.is_create ≡ false
    → c.is_delete ≡ false
    → c.is_kept ≡ true
    → c.keep_item_changed ≡ false
    → is_empty c.info.table_name ≡ false
    → (is_list_key key && (a && order_dependency_changed deps c.changed)) ≡ false
    → match_predicate (match_condition f c.info.column_to_field c.row) p ≡ ok a
    → match_predicate (match_condition f c.info.column_to_field before) p ≡ ok a
    → gather_found f c key params deps (some p) ≡ skip
unfolding gather_found check_original
found_same f c key params p deps before a o create delete kept items named order m n = simp (
  delete,
  create,
  o,
  check_row_lem f c params p c.row named ∙ m,
  check_row_lem f c params p before named ∙ n,
  gather_save_same c key deps a create kept items order,
)

gather_listed_deps :
    (f : Runtime) (c : Change) (idx : CacheIndex) (key : Str) (params : QueryParams) (p : Predicate)
    (deps : QueryDependencies)
    → (is_list_key key || is_count_key key) ≡ true
    → get key idx.key_to_params ≡ some params
    → get key idx.key_to_dependencies ≡ some deps
    → get_or key idx.key_to_predicate none ≡ some p
    → mem_str key (context_of f c idx).cache_keys ≡ true
    → gather f c (context_of f c idx) key ≡ gather_found f c key params deps (some p)
unfolding gather context_of
gather_listed_deps f c idx key params p deps kind known depends parsed listed =
    let values = field_values c.row c.info.compare_fields [] in
    let candidates =
      cache_candidate_columns values c.changed c.is_create c.is_delete
        (not c.is_kept || c.keep_item_changed) in
    let of_kind : (not (is_list_key key) && not (is_count_key key)) ≡ false =
      ground (arith, kind) in
    rw
      (
        of_kind,
        context_params f c.info.table_name values candidates idx key listed params known,
        get_or-known key (context_of f c idx).key_to_deps deps no_dependencies
            (context_deps f c.info.table_name values candidates idx key listed deps depends),
        get_or-known key (context_of f c idx).key_to_predicate (some p) none (
            context_predicate f c.info.table_name values candidates idx key listed
            ∙ ap (λ (o : Option Predicate). some o) parsed),
      )
      refl

-- An update of a kept row with a named table that changes no KeepItem field: a list or count key
-- that the index knows with a predicate, for which the tests of the new and of the old row give the
-- same result, and which is no list of matching rows whose order the update touches, is not among
-- the deletions of invalidateAffectedQueryCaches.
pub update_precise :
    (f : Runtime) (client : Client) (info : ModelInfo) (model : Instance) (before : Row)
    (idx : CacheIndex) (key : Str) (params : QueryParams) (deps : QueryDependencies) (p : Predicate)
    (a : Bool)
    → (is_list_key key || is_count_key key) ≡ true
    → get key idx.key_to_params ≡ some params
    → get key idx.key_to_dependencies ≡ some deps
    → get_or key idx.key_to_predicate none ≡ some p
    → is_empty info.table_name ≡ false
    → model.keep_item ≡ true
    → keep_item_field_changed model.keep_item_fields
        (changed_model_columns f info model.row (some before))
      ≡ false
    → (is_list_key key
        && (a
            && order_dependency_changed deps
                (changed_model_columns f info model.row (some before))))
      ≡ false
    → match_predicate (match_condition f info.column_to_field model.row) p ≡ ok a
    → match_predicate (match_condition f info.column_to_field before) p ≡ ok a
    → mem_str key
        (invalidate_affected_query_caches f
          (some client)
          info
          model
          (some before)
          false
          false
          idx).deletions
      ≡ false
unfolding invalidate_affected_query_caches change_of mem_str
update_precise f client info model before idx key params deps p a kind known depends parsed named
      kept items order m n =
    let c = change_of f info model (some before) false false in
    elim (Bool-cases (eq_ℤ model.id (pos 0))) [
      | inl none_given ↦ rw none_given refl
      | inr given ↦ rw given (
          run_change_skips f client model.id c idx key (λ listed.
            gather_listed_deps f c idx key params p deps kind known depends parsed listed
            ∙ found_same f c key params p deps before a refl refl refl kept items named order m n))
    ]
