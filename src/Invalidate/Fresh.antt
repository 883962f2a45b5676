-- ===== src/Invalidate/Fresh.antt =====
-- Deletions by invalidateAffectedQueryCaches of cache.go after a creation, an update or a deletion of
-- a row, for a registered query.
use thing.Prelude.{
  ℤ, pos, eq_ℤ, Str, Bool, true, false, not, ◌&&◌, ◌||◌, ◌≡◌, ◌≢◌, refl, ap, ◌∙◌, Option, none,
  some, [], is_empty, arith,
}
use thing.Prelude.Dict.{get_or, mem_str, mem_str-append, get_or-known}
use thing.Query.{QueryParams, ok}
use thing.Value.{Runtime}
use thing.Predicate.Node.{Predicate, match_predicate, predicate_fields}
use thing.Match.Condition.{Row, match_condition}
use thing.Index.State.{CacheIndex, is_list_key, is_count_key}
use thing.Index.Depends.{Depends, on_where}
use thing.Index.Context.{context_params, context_predicate}
use thing.Invalidate.Columns.{ModelInfo, field_values, all_columns, cache_candidate_columns}
use thing.Invalidate.Tasks.{Change, CacheTask, stop, task, gather, gather_found, no_dependencies}
use thing.Invalidate.Run.{
  Client, Run, write_needed, gather_all, Instance, change_of, context_of, run_change,
  invalidate_affected_query_caches,
}
use thing.Invalidate.Unchanged.{Tracked}
use thing.Invalidate.Writes.{
  ListRead, task_for, write_all-gathered, gather_all_panics, write_needed_lem,
}
use thing.Invalidate.Found.{gather_found_lem, create_found, delete_found}
use thing.Invalidate.Calm.{Calm, gather-Calm}
use thing.Invalidate.Known.{Registered}
use thing.Invalidate.Changed.{any_changed-some, parse_query_for_index_lem, match_changed, candidate}

-- A run of invalidateAffectedQueryCaches that ends without a panic and deletes the key.
abbrev pub Deletes : Str → Run → Type 0
Deletes key run = (run.panics ≡ false) × (mem_str key run.deletions ≡ true)

-- A registered query, and a change of a row with an identifier.
module _ (f : Runtime) (client : Client) (id : ℤ) (c : Change) (idx : CacheIndex) (key : Str)
    (params : QueryParams) (p : Predicate) (r : Registered f c.info.table_name key params p idx)
    (kind : (is_list_key key || is_count_key key) ≡ true)
    (dep : Depends f key params (
      cache_candidate_columns
        (field_values c.row c.info.compare_fields [])
        c.changed
        c.is_create
        c.is_delete
        (not c.is_kept || c.keep_item_changed))) where
  pub listed_key : mem_str key (context_of f c idx).cache_keys ≡ true
  unfolding context_of
  listed_key = r.listed _ _ dep

  pub gather_listed :
      gather f c (context_of f c idx) key
      ≡ gather_found f c key params
          (get_or key (context_of f c idx).key_to_deps no_dependencies)
          (some p)
  unfolding gather context_of
  gather_listed =
      let values = field_values c.row c.info.compare_fields [] in
      let candidates =
        cache_candidate_columns values c.changed c.is_create c.is_delete
          (not c.is_kept || c.keep_item_changed) in
      let of_kind : (not (is_list_key key) && not (is_count_key key)) ≡ false =
        ground (arith, kind) in
      rw
        (
          of_kind,
          context_params f c.info.table_name values candidates idx key listed_key params
              r.params_known,
          get_or-known key (context_of f c idx).key_to_predicate (some p) none (
              context_predicate f c.info.table_name values candidates idx key listed_key
              ∙ ap (λ (o : Option Predicate). some o) r.predicate_known),
        )
        refl

  run_change-Deletes :
      ((k : Str)
        → mem_str k (context_of f c idx).cache_keys ≡ true
        → gather f c (context_of f c idx) k ≢ stop)
      → (t : CacheTask) → t.cache_key ≡ key
      → gather f c (context_of f c idx) key ≡ task t
      → write_needed client id t ≡ true
      → Deletes key (run_change f client id c idx)
  unfolding run_change
  run_change-Deletes calm t e g w =
      let ctx = context_of f c idx in
      let goes_on = gather_all_panics f c ctx ctx.cache_keys calm in
      (
        goes_on,
        rw goes_on (
            mem_str-append key (gather_all f c ctx ctx.cache_keys).dropped _
            ∙ ground (
              arith,
              e,
              write_all-gathered f client id c ctx ctx.cache_keys key t listed_key g w calm,
            )),
      )

Calm-same :
    (f : Runtime) (info : ModelInfo) (before row : Row) (idx : CacheIndex)
    → some before ≡ some row
    → Calm f info before idx
    → Calm f info row idx
Calm-same f info before row idx o calm =
    let same : before ≡ row = ground (arith, o) in rw⁻¹ same calm

-- An update of a kept row with an identifier other than zero and a named table: for a list or
-- count key whose query is registered and has a predicate whose columns are all compared fields,
-- with a value in both rows and no float in that of the new row, if the test of the new row gives a
-- result and that of the old row the opposite, for a list key the read of the list finds none or one
-- that has the identifier just when the old row matched, and no test of the new or the old row for a
-- query that the index knows panics, then invalidateAffectedQueryCaches ends without a panic, and
-- the key is among its deletions.
pub update_fresh :
    (f : Runtime) (client : Client) (info : ModelInfo) (model : Instance) (before : Row)
    (idx : CacheIndex) (key : Str) (params : QueryParams) (p : Predicate) (a : Bool)
    → Registered f info.table_name key params p idx
    → (is_list_key key || is_count_key key) ≡ true
    → is_empty info.table_name ≡ false
    → eq_ℤ model.id (pos 0) ≡ false
    → model.keep_item ≡ true
    → ((c : Str) → mem_str c (predicate_fields p) ≡ true → Tracked info model.row before c)
    → match_predicate (match_condition f info.column_to_field model.row) p ≡ ok a
    → match_predicate (match_condition f info.column_to_field before) p ≡ ok (not a)
    → (is_list_key key ≡ true → ListRead model.id (not a) (client.get_query_ids key))
    → Calm f info model.row idx
    → Calm f info before idx
    → Deletes key
        (invalidate_affected_query_caches f (some client) info model (some before) false false idx)
unfolding invalidate_affected_query_caches change_of
update_fresh f client info model before idx key params p a r kind named id kept t m n read now
      earlier =
    let c = change_of f info model (some before) false false in
    let (column, o, h) =
      any_changed-some (predicate_fields p) c.changed
        (match_changed f info model.row before p a t m n) in
    let dep =
      on_where column
        (candidate f info model.row before column (not c.is_kept || c.keep_item_changed)
          (t column o) h)
        (rw (parse_query_for_index_lem f params p r.parsed) o) in
    let calm = λ (k : Str).
      gather-Calm f c idx k now (λ d n row o. Calm-same f info before row idx o earlier) in
    rw id (
      run_change-Deletes f client model.id c idx key params p r kind dep calm (task_for c key a)
        refl
        (gather_listed f client model.id c idx key params p r kind dep
          ∙ gather_found_lem f c key params p _ before a refl refl refl kept named m n)
        (write_needed_lem client model.id a c key kind read))

-- A creation of a kept row with an identifier other than zero and a named table: for a list or
-- count key whose query is registered and depends on the columns of the row, if the row matches
-- its predicate, for a list key the read of the list finds none or one without the identifier, and
-- no test of the row for a query that the index knows panics, then invalidateAffectedQueryCaches
-- ends without a panic, and the key is among its deletions.
pub create_fresh :
    (f : Runtime) (client : Client) (info : ModelInfo) (model : Instance) (original : Option Row)
    (idx : CacheIndex) (key : Str) (params : QueryParams) (p : Predicate)
    → Registered f info.table_name key params p idx
    → (is_list_key key || is_count_key key) ≡ true
    → is_empty info.table_name ≡ false
    → eq_ℤ model.id (pos 0) ≡ false
    → model.keep_item ≡ true
    → Depends f key params (all_columns (field_values model.row info.compare_fields []))
    → match_predicate (match_condition f info.column_to_field model.row) p ≡ ok true
    → (is_list_key key ≡ true → ListRead model.id false (client.get_query_ids key))
    → Calm f info model.row idx
    → Deletes key
        (invalidate_affected_query_caches f (some client) info model original true false idx)
unfolding invalidate_affected_query_caches change_of cache_candidate_columns
create_fresh f client info model original idx key params p r kind named id kept dep m read now =
    let c = change_of f info model original true false in
    let calm = λ (k : Str). gather-Calm f c idx k now (λ d n. absurd (ground (arith, n))) in
    rw id (
      run_change-Deletes f client model.id c idx key params p r kind dep calm (task_for c key true)
        refl
        (gather_listed f client model.id c idx key params p r kind dep
          ∙ create_found f c key params p _ refl refl kept named m)
        (write_needed_lem client model.id true c key kind read))

-- A deletion of a row with an identifier other than zero and a named table: for a list or count
-- key whose query is registered and depends on the columns of the row, if the row matches its
-- predicate, for a list key the read of the list finds none or one with the identifier, and no test
-- of the row for a query that the index knows panics, then invalidateAffectedQueryCaches ends
-- without a panic, and the key is among its deletions.
pub delete_fresh :
    (f : Runtime) (client : Client) (info : ModelInfo) (model : Instance) (original : Option Row)
    (idx : CacheIndex) (key : Str) (params : QueryParams) (p : Predicate)
    → Registered f info.table_name key params p idx
    → (is_list_key key || is_count_key key) ≡ true
    → is_empty info.table_name ≡ false
    → eq_ℤ model.id (pos 0) ≡ false
    → Depends f key params (all_columns (field_values model.row info.compare_fields []))
    → match_predicate (match_condition f info.column_to_field model.row) p ≡ ok true
    → (is_list_key key ≡ true → ListRead model.id true (client.get_query_ids key))
    → Calm f info model.row idx
    → Deletes key
        (invalidate_affected_query_caches f (some client) info model original false true idx)
unfolding invalidate_affected_query_caches change_of cache_candidate_columns
delete_fresh f client info model original idx key params p r kind named id dep m read now =
    let c = change_of f info model original false true in
    let calm = λ (k : Str). gather-Calm f c idx k now (λ d. absurd (ground (arith, d))) in
    rw id (
      run_change-Deletes f client model.id c idx key params p r kind dep calm (task_for c key false)
        refl
        (gather_listed f client model.id c idx key params p r kind dep
          ∙ delete_found f c key params p _ refl named m)
        (write_needed_lem client model.id false c key kind read))
