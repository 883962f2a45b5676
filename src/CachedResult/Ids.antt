-- ===== src/CachedResult/Ids.antt =====
-- _fetch_ids_from_db, _fetch_data, _fetch and invalidateCache of query.go.
use thing.Prelude.{
  ℕ, zero, suc, ◌+◌, ℤ, pos, Str, str, Bool, true, false, not, ◌&&◌, ◌||◌, Option, none, some, List,
  [], ◌∷◌, ◌++◌, length, is_empty, ltb, if◌then◌else◌,
}
use thing.Prelude.Decimal.{print_ℤ}
use thing.Value.{Value}
use thing.SqlBuilder.{build_select_ids_sql}
use thing.Index.State.{register_query}
use thing.CachedResult.{
  QueryError, not_initialized, ids_failed, Answer, value, failed, CachedResult, Backend, World,
  live_clause,
}

-- cacheListCountLimit
abbrev pub cache_list_count_limit : ℕ
cache_list_count_limit = 200

-- The size of a batch of _fetch_data, and its maxIterations.
abbrev pub batch_size : ℕ
batch_size = 300

abbrev pub max_iterations : ℕ
max_iterations = 20

module _ {S M : Type 0} (b : Backend S M) where
  -- generateListCacheKey
  unfoldable pub list_key : CachedResult M → Str
  list_key r = b.generate_cache_key (str "list") b.table_name r.params

  -- generateCountCacheKey
  unfoldable pub count_key : CachedResult M → Str
  count_key r = b.generate_cache_key (str "count") b.table_name r.params

  -- RegisterQuery for a key of the result.
  unfoldable pub register : Str → World S M → World S M
  register key w = record w {
    index = register_query b.runtime b.table_name key w.result.params w.index;
  }

  unfoldable pub ids_statement : CachedResult M → Str × List Value
  unfolding live_clause
  ids_statement r =
      build_select_ids_sql b.dialector b.table_name b.pk_name (live_clause r.params) r.params.args
        r.params.order

  unfoldable pub paged : Str → ℕ → ℕ → Str
  unfolding print_ℤ
  paged text offset limit =
      text ++ (str " LIMIT " ++ (print_ℤ (pos limit) ++ (str " OFFSET " ++ print_ℤ (pos offset))))

  -- _fetch_ids_from_db
  unfoldable pub fetch_ids_from_db : CachedResult M → ℕ → ℕ → Answer (List ℤ)
  unfolding ids_statement paged
  fetch_ids_from_db r offset limit = elim r.initialized [
    | false ↦ failed not_initialized
    | true ↦
        let statement = ids_statement r in
        elim (b.select_ids (paged statement.0 offset limit) statement.1) [
          | none ↦ failed ids_failed
          | some ids ↦ value ids
        ]
  ]

  -- Whether a model is found and, unless deleted ones are included, is kept.
  unfoldable pub is_kept : CachedResult M → (ℤ → Option M) → ℤ → Bool
  is_kept r models id = elim (models id) [
    | none ↦ false
    | some m ↦ r.params.include_deleted || b.keep_item m
  ]

  -- The loops over a batch: the identifiers that pass a test, up to the limit.
  unfoldable pub keep_ids : (ℤ → Bool) → List ℤ → List ℤ → List ℤ
  keep_ids p valid [] = valid
  keep_ids p valid (id ∷ ids) =
      keep_ids p
        (if ltb (length valid) cache_list_count_limit && p id then valid ++ (id ∷ []) else valid)
        ids

  -- The variables of the loop of _fetch_data, and the cache.
  pub record Scan : Type 0 where
    pub valid_ids : List ℤ
    pub current_offset : ℕ
    pub cache : S

  unfoldable pub skips_filter : CachedResult M → Bool
  skips_filter r = not b.has_custom_keep_item && not r.params.include_deleted

  -- The scan after a batch, and whether its models were read.
  unfoldable pub scan_loaded : CachedResult M → List ℤ → Scan → Option (ℤ → Option M) → Scan × Bool
  unfolding is_kept keep_ids
  scan_loaded r ids s none = (record s { current_offset = s.current_offset + length ids }, false)
  scan_loaded r ids s (some models) = (
    record s {
      valid_ids = keep_ids (is_kept r models) s.valid_ids ids;
      current_offset = s.current_offset + length ids;
    },
    true,
  )

  unfoldable pub scan_batch : CachedResult M → List ℤ → Scan → Scan × Bool
  unfolding skips_filter scan_loaded
  scan_batch r ids s = elim (skips_filter r) [
    | true ↦ (
      record s {
        valid_ids = keep_ids (λ id. true) s.valid_ids ids;
        current_offset = s.current_offset + length ids;
      },
      true,
    )
    | false ↦
        let loaded = b.by_ids ids [] s.cache in
        scan_loaded r ids (record s { cache = loaded.1 }) loaded.0
  ]

  -- The loop of _fetch_data, with the iterations that are left.
  unfoldable pub scan_ids : CachedResult M → ℕ → Scan → Answer (List ℤ) × S
  unfolding fetch_ids_from_db scan_batch
  scan_ids r zero s = (value s.valid_ids, s.cache)
  scan_ids r (suc n) s = elim (ltb (length s.valid_ids) cache_list_count_limit) [
    | false ↦ (value s.valid_ids, s.cache)
    | true ↦ elim (fetch_ids_from_db r s.current_offset batch_size) [
      | failed e ↦ (failed e, s.cache)
      | value ids ↦ elim (is_empty ids) [
        | true ↦ (value s.valid_ids, s.cache)
        | false ↦
            let next = scan_batch r ids s in
            elim (next.1 && ltb (length ids) batch_size) [
              | true ↦ (value next.0.valid_ids, next.0.cache)
              | false ↦ scan_ids r n next.0
            ]
      ]
    ]
  ]

  -- The list is cached and registered, and its length too where it is below the limit.
  unfoldable pub save_list : List ℤ → World S M → World S M
  unfolding register list_key count_key print_ℤ
  save_list ids w =
      let key = list_key w.result in
      let listed = register key (record w { cache = b.cache_set_query_ids key ids w.cache }) in
      if ltb (length ids) cache_list_count_limit
      then (let counted = count_key w.result in
          register counted (record listed {
            cache = b.cache_set counted (print_ℤ (pos (length ids))) listed.cache;
          }))
      else listed

  unfoldable pub finish_scan : World S M → Answer (List ℤ) × S → Answer (List ℤ) × World S M
  unfolding save_list
  finish_scan w (failed e, s) = (failed e, record w { cache = s })
  finish_scan w (value ids, s) = (value ids, save_list ids (record w { cache = s }))

  -- _fetch_data
  unfoldable pub fetch_data : World S M → Answer (List ℤ) × World S M
  unfolding scan_ids finish_scan list_key
  fetch_data w = elim w.result.initialized [
    | false ↦ (failed not_initialized, w)
    | true ↦
        let got = b.cache_get_query_ids (list_key w.result) w.cache in
        elim got.0 [
          | some ids ↦ (value ids, record w { cache = got.1 })
          | none ↦
              finish_scan (record w { cache = got.1 })
                (scan_ids w.result max_iterations
                  (record { valid_ids = []; current_offset = 0; cache = got.1 }))
        ]
  ]

  unfoldable pub load_ids : Answer (List ℤ) × World S M → Option QueryError × World S M
  load_ids (failed e, w) = (some e, w)
  load_ids (value ids, w) =
      (none, record w { result = record w.result { cached_ids = ids; has_loaded_ids = true } })

  -- _fetch: the error, if there is one
  unfoldable pub fetch_list : World S M → Option QueryError × World S M
  unfolding fetch_data load_ids
  fetch_list w = elim w.result.has_loaded_ids [ true ↦ (none, w) | false ↦ load_ids (fetch_data w) ]

  -- invalidateCache, of a result with a cache
  unfoldable pub invalidate_cache : World S M → World S M
  unfolding list_key count_key
  invalidate_cache w = record w {
    cache = b.cache_delete (count_key w.result) (b.cache_delete (list_key w.result) w.cache);
    result = record w.result {
      has_loaded_ids = false;
      has_loaded_count = false;
      cached_ids = [];
      cached_count = pos 0;
    };
  }
