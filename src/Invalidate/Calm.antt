-- ===== src/Invalidate/Calm.antt =====
-- invalidateAffectedQueryCaches of cache.go where no test of a row panics.
use thing.Prelude.{
  Str, Bool, true, false, not, ◌&&◌, ◌||◌, ◌≡◌, ◌≢◌, refl, Option, none, some, [], arith, inl, inr,
  Bool-cases, Option-cases, if◌then◌else◌,
}
use thing.Prelude.Dict.{get, get_or, mem_str, get_or-known}
use thing.Query.{QueryParams, Error, panicked, Result, ok, err}
use thing.Value.{Runtime}
use thing.Predicate.Node.{Predicate}
use thing.Match.Condition.{Row, pointer_to, check_query_match_with_predicate}
use thing.Index.State.{CacheIndex, QueryDependencies, is_list_key, is_count_key}
use thing.Index.Context.{context_predicate, params_context}
use thing.Invalidate.Columns.{ModelInfo, field_values, cache_candidate_columns}
use thing.Invalidate.Tasks.{
  Change, CacheTask, Gathered, stop, task_if, after_error, gather, gather_found, gather_delete,
  gather_save, check_row, check_original,
}
use thing.Invalidate.Run.{context_of}

-- No test of the row for a query that the index knows panics.
abbrev pub Calm : Runtime → ModelInfo → Row → CacheIndex → Type 0
Calm f info row idx =
    (key : Str) (params : QueryParams)
    → get key idx.key_to_params ≡ some params
    → check_query_match_with_predicate f (pointer_to row) info.table_name
        (some info.column_to_field) params (get_or key idx.key_to_predicate none)
      ≢ err panicked

after_error_calm : (e : Error) → e ≢ panicked → after_error e ≢ stop
unfolding after_error
after_error_calm panicked n h = n refl
after_error_calm _ n h = ground arith

task_if_calm : (b : Bool) (t : CacheTask) → task_if b t ≢ stop
unfolding task_if
task_if_calm true t h = ground arith
task_if_calm false t h = ground arith

gather_delete_calm : (key : Str) (r : Result Bool) → r ≢ err panicked → gather_delete key r ≢ stop
unfolding gather_delete
gather_delete_calm key (err e) n = after_error_calm e (λ h. n (rw h refl))
gather_delete_calm key (ok b) n = task_if_calm b _

gather_save_calm :
    (c : Change) (key : Str) (deps : QueryDependencies) (now before : Result Bool)
    → now ≢ err panicked
    → before ≢ err panicked
    → gather_save c key deps now before ≢ stop
unfolding gather_save
gather_save_calm c key deps (err e) before n m = after_error_calm e (λ h. n (rw h refl))
gather_save_calm c key deps (ok a) (err e) n m = after_error_calm e (λ h. m (rw h refl))
gather_save_calm c key deps (ok a) (ok b) n m = task_if_calm _ _

if_calm :
    (b : Bool) (g h : Gathered)
    → (b ≡ true → g ≢ stop)
    → (b ≡ false → h ≢ stop)
    → (if b then g else h) ≢ stop
if_calm true g h p q = p refl
if_calm false g h p q = q refl

check_original_calm :
    (f : Runtime) (c : Change) (params : QueryParams) (pred : Option Predicate)
    → (c.is_create ≡ false
        → (row : Row) → c.original ≡ some row
        → check_row f c params pred row ≢ err panicked)
    → check_original f c params pred ≢ err panicked
unfolding check_original
check_original_calm f c params pred calm h = elim (Bool-cases c.is_create) [
  | inl e ↦ absurd (ground (arith, h, e))
  | inr e ↦ elim (Option-cases c.original) [
    | inl o ↦ absurd (ground (arith, h, e, o))
    | inr (row, o) ↦ calm e row o (ground (arith, h, e, o))
  ]
]

gather_found_calm :
    (f : Runtime) (c : Change) (key : Str) (params : QueryParams) (deps : QueryDependencies)
    (pred : Option Predicate)
    → check_row f c params pred c.row ≢ err panicked
    → (c.is_delete ≡ false → check_original f c params pred ≢ err panicked)
    → gather_found f c key params deps pred ≢ stop
unfolding gather_found
gather_found_calm f c key params deps pred now before =
    if_calm c.is_delete _ _ (λ e. gather_delete_calm key _ now)
      (λ e. gather_save_calm c key deps _ _ now (before e))

-- No round of phase 1 stops, where the tests of the row, and for an update those of the original
-- row, do not panic.
pub gather-Calm :
    (f : Runtime) (c : Change) (idx : CacheIndex) (key : Str)
    → Calm f c.info c.row idx
    → (c.is_delete ≡ false
        → c.is_create ≡ false
        → (row : Row) → c.original ≡ some row
        → Calm f c.info row idx)
    → mem_str key (context_of f c idx).cache_keys ≡ true
    → gather f c (context_of f c idx) key ≢ stop
unfolding gather context_of check_row
gather-Calm f c idx key now before listed =
    let values = field_values c.row c.info.compare_fields [] in
    let candidates =
      cache_candidate_columns values c.changed c.is_create c.is_delete
        (not c.is_kept || c.keep_item_changed) in
    elim (Bool-cases (not (is_list_key key) && not (is_count_key key))) [
      | inl other ↦ rw other (λ h. ground (arith, h))
      | inr of_kind ↦ elim (Option-cases (get key (context_of f c idx).key_to_params)) [
        | inl e ↦ rw (of_kind, e) (λ h. ground (arith, h))
        | inr (params, e) ↦
            let known =
              params_context f c.info.table_name values candidates idx key listed params e in
            rw
              (
                of_kind,
                e,
                get_or-known key (context_of f c idx).key_to_predicate
                    (get_or key idx.key_to_predicate none) none
                    (context_predicate f c.info.table_name values candidates idx key listed),
              )
              (gather_found_calm f c key params _ _ (now key params known) (λ d.
                check_original_calm f c params _ (λ n row o. before d n row o key params known)))
      ]
    ]
