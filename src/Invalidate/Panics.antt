-- ===== src/Invalidate/Panics.antt =====
-- invalidateAffectedQueryCaches of cache.go where the test of the row panics.
use thing.Prelude.{
  pos, eq_ℤ, Str, str_eq, str_eq_iff, Bool, true, false, not, ◌||◌, ◌≡◌, refl, ◌∙◌, Option, some,
  List, [], ◌∷◌, is_empty, arith, Bool-cases, inl, inr,
}
use thing.Prelude.Dict.{mem_str}
use thing.Query.{QueryParams, panicked, err}
use thing.Value.{Runtime}
use thing.Predicate.Node.{Predicate, match_predicate}
use thing.Match.Condition.{Row, match_condition}
use thing.Index.State.{CacheIndex, QueryDependencies, is_list_key, is_count_key}
use thing.Index.Lookup.{InvalidationContext}
use thing.Index.Depends.{Depends}
use thing.Invalidate.Columns.{ModelInfo, field_values, all_columns, cache_candidate_columns}
use thing.Invalidate.Tasks.{
  Change, Gathered, skip, drop, stop, task, after_error, gather, gather_found, gather_delete,
  gather_save,
}
use thing.Invalidate.Run.{
  Client, Phase, add_gathered, gather_all, Instance, change_of, context_of, run_change,
  invalidate_affected_query_caches,
}
use thing.Invalidate.Found.{check_row_lem}
use thing.Invalidate.Known.{Registered}
use thing.Invalidate.Fresh.{listed_key, gather_listed}

found_stop :
    (f : Runtime) (c : Change) (key : Str) (params : QueryParams) (p : Predicate)
    (deps : QueryDependencies)
    → is_empty c.info.table_name ≡ false
    → match_predicate (match_condition f c.info.column_to_field c.row) p ≡ err panicked
    → gather_found f c key params deps (some p) ≡ stop
unfolding gather_found gather_delete gather_save after_error
found_stop f c key params p deps named h = elim (Bool-cases c.is_delete) [
  | inl e ↦ simp (e, check_row_lem f c params p c.row named ∙ h)
  | inr e ↦ simp (e, check_row_lem f c params p c.row named ∙ h)
]

add_gathered_still :
    (key : Str) (g : Gathered) (s : Phase) → s.panics ≡ true → (add_gathered key g s).panics ≡ true
unfolding add_gathered
add_gathered_still key skip s h = h
add_gathered_still key drop s h = h
add_gathered_still key stop s h = refl
add_gathered_still key (task t) s h = h

gather_all_stops :
    (f : Runtime) (c : Change) (ctx : InvalidationContext) (ks : List Str) (key : Str)
    → mem_str key ks ≡ true
    → gather f c ctx key ≡ stop
    → (gather_all f c ctx ks).panics ≡ true
unfolding gather_all add_gathered mem_str
gather_all_stops f c ctx [] key m g = absurd (ground arith)
gather_all_stops f c ctx (k ∷ ks) key m g = elim (Bool-cases (str_eq k key)) [
  | inl here ↦ let same : k ≡ key = (str_eq_iff k key).0 here in rw (same, g) refl
  | inr there ↦
      add_gathered_still k (gather f c ctx k) (gather_all f c ctx ks)
        (gather_all_stops f c ctx ks key (ground (arith, m, there)) g)
]

-- A creation or a deletion of a row with an identifier other than zero and a named table: if the test
-- of the row panics for a list or count key whose query is registered and depends on the columns of
-- the row, invalidateAffectedQueryCaches panics.
pub affected_panics :
    (f : Runtime) (client : Client) (info : ModelInfo) (model : Instance) (original : Option Row)
    (is_create : Bool) (idx : CacheIndex) (key : Str) (params : QueryParams) (p : Predicate)
    → Registered f info.table_name key params p idx
    → (is_list_key key || is_count_key key) ≡ true
    → is_empty info.table_name ≡ false
    → eq_ℤ model.id (pos 0) ≡ false
    → Depends f key params (all_columns (field_values model.row info.compare_fields []))
    → match_predicate (match_condition f info.column_to_field model.row) p ≡ err panicked
    → (invalidate_affected_query_caches f
        (some client)
        info
        model
        original
        is_create
        (not is_create)
        idx).panics
      ≡ true
unfolding invalidate_affected_query_caches change_of cache_candidate_columns run_change
affected_panics f client info model original true idx key params p r kind named id dep m =
    let c = change_of f info model original true false in
    let stops =
      gather_listed f client model.id c idx key params p r kind dep
      ∙ found_stop f c key params p _ named m in
    rw id (
      gather_all_stops f c (context_of f c idx) (context_of f c idx).cache_keys key
        (listed_key f client model.id c idx key params p r kind dep) stops)
affected_panics f client info model original false idx key params p r kind named id dep m =
    let c = change_of f info model original false true in
    let stops =
      gather_listed f client model.id c idx key params p r kind dep
      ∙ found_stop f c key params p _ named m in
    rw id (
      gather_all_stops f c (context_of f c idx) (context_of f c idx).cache_keys key
        (listed_key f client model.id c idx key params p r kind dep) stops)
