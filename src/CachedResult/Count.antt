-- ===== src/CachedResult/Count.antt =====
-- Count, CountPrecise, cachePreciseCount and countByFullScan of query.go.
use thing.Prelude.{
  ℕ, zero, suc, ◌+◌, ℤ, pos, Str, str, Bool, true, false, Option, none, some, List, [], ◌∷◌, length,
  is_empty, ltb, if◌then◌else◌,
}
use thing.Prelude.Decimal.{print_ℤ}
use thing.CachedResult.{
  not_initialized, count_failed, ids_failed, out_of_fuel, Answer, value, failed, CachedResult,
  Backend, World, live_clause,
}
use thing.CachedResult.Ids.{
  cache_list_count_limit, list_key, count_key, register, fetch_ids_from_db, is_kept,
}

-- batchSize of countByFullScan
abbrev pub scan_batch_size : ℕ
scan_batch_size = 500

module _ {S M : Type 0} (b : Backend S M) where
  -- generatePreciseCountCacheKey
  unfoldable precise_count_key : CachedResult M → Str
  precise_count_key r = b.generate_cache_key (str "count_precise") b.table_name r.params

  -- A count that is cached, registered and kept in the result.
  unfoldable pub save_count : ℤ → World S M → Answer ℤ × World S M
  unfolding count_key register print_ℤ
  save_count n w =
      let key = count_key b w.result in
      (
        value n,
        register b key (record w {
          result = record w.result { cached_count = n; has_loaded_count = true };
          cache = b.cache_set key (print_ℤ n) w.cache;
        }),
      )

  unfoldable pub count_stored : World S M → Answer ℤ × World S M
  unfolding live_clause save_count
  count_stored w =
      elim (b.get_count b.table_name (live_clause w.result.params) w.result.params.args) [
        | none ↦ (failed count_failed, w)
        | some n ↦ save_count n w
      ]

  -- A complete list: below the limit, by its length.
  unfoldable pub complete_length : Option (List ℤ) → Option ℕ
  complete_length none = none
  complete_length (some ids) =
      if ltb (length ids) cache_list_count_limit then some (length ids) else none

  unfoldable pub count_derived : World S M → Answer ℤ × World S M
  unfolding list_key complete_length save_count count_stored
  count_derived w =
      let got = b.cache_get_query_ids (list_key b w.result) w.cache in
      elim (complete_length got.0) [
        | some n ↦ save_count (pos n) (record w { cache = got.1 })
        | none ↦ count_stored (record w { cache = got.1 })
      ]

  -- What a cached text says, and whether it is to be deleted.
  unfoldable pub cached_number : Option Str → Option ℤ × Bool
  cached_number none = (none, false)
  cached_number (some text) = elim (b.parse_int text) [
    | none ↦ (none, true)
    | some n ↦ (some n, false)
  ]

  -- Count
  unfoldable pub count : World S M → Answer ℤ × World S M
  unfolding count_key cached_number count_derived
  count w = elim w.result.initialized [
    | false ↦ (failed not_initialized, w)
    | true ↦ elim w.result.has_loaded_count [
      | true ↦ (value w.result.cached_count, w)
      | false ↦
          let key = count_key b w.result in
          let got = b.cache_get key w.cache in
          let number = cached_number got.0 in
          elim number.0 [
            | some n ↦ (
              value n,
              record w {
                cache = got.1;
                result = record w.result { cached_count = n; has_loaded_count = true };
              },
            )
            | none ↦
                count_derived
                  (record w { cache = if number.1 then b.cache_delete key got.1 else got.1 })
          ]
    ]
  ]

  unfoldable pub count_kept : (ℤ → Bool) → List ℤ → ℕ
  count_kept p [] = 0
  count_kept p (id ∷ ids) = if p id then suc (count_kept p ids) else count_kept p ids

  -- countByFullScan, from an offset and a count on; the source has no bound on its rounds.
  unfoldable pub count_by_full_scan : CachedResult M → ℕ → ℕ → ℕ → S → Answer ℕ × S
  unfolding fetch_ids_from_db is_kept count_kept
  count_by_full_scan r zero offset n s = (failed out_of_fuel, s)
  count_by_full_scan r (suc fuel) offset n s = elim (fetch_ids_from_db b r offset scan_batch_size) [
    | failed e ↦ (failed e, s)
    | value ids ↦ elim (is_empty ids) [
      | true ↦ (value n, s)
      | false ↦
          let loaded = b.by_ids ids [] s in
          elim loaded.0 [
            | none ↦ (failed ids_failed, loaded.1)
            | some models ↦
                let total = n + count_kept (is_kept b r models) ids in
                elim (ltb (length ids) scan_batch_size) [
                  | true ↦ (value total, loaded.1)
                  | false ↦ count_by_full_scan r fuel (offset + length ids) total loaded.1
                ]
          ]
    ]
  ]

  -- cachePreciseCount
  unfoldable cache_precise_count : Str → ℤ → World S M → Answer ℤ × World S M
  unfolding register print_ℤ
  cache_precise_count key n w =
      (value n, register b key (record w { cache = b.cache_set key (print_ℤ n) w.cache }))

  unfoldable finish_full_scan : Str → World S M → Answer ℕ × S → Answer ℤ × World S M
  unfolding cache_precise_count
  finish_full_scan key w (failed e, s) = (failed e, record w { cache = s })
  finish_full_scan key w (value n, s) = cache_precise_count key (pos n) (record w { cache = s })

  -- CountPrecise, behind a miss of the cache for its own key
  unfoldable count_recomputed : ℕ → Str → World S M → Answer ℤ × World S M
  unfolding list_key complete_length cache_precise_count finish_full_scan
  count_recomputed fuel key w =
      let got = b.cache_get_query_ids (list_key b w.result) w.cache in
      let next = record w { cache = got.1 } in
      elim (complete_length got.0) [
        | some n ↦ cache_precise_count key (pos n) next
        | none ↦ finish_full_scan key next (count_by_full_scan w.result fuel 0 0 got.1)
      ]

  -- CountPrecise
  unfoldable pub count_precise : ℕ → World S M → Answer ℤ × World S M
  unfolding count precise_count_key cached_number count_recomputed
  count_precise fuel w = elim w.result.initialized [
    | false ↦ (failed not_initialized, w)
    | true ↦ elim b.has_custom_keep_item [
      | false ↦ count w
      | true ↦
          let key = precise_count_key w.result in
          let got = b.cache_get key w.cache in
          let number = cached_number got.0 in
          elim number.0 [
            | some n ↦ (value n, record w { cache = got.1 })
            | none ↦
                count_recomputed fuel key
                  (record w { cache = if number.1 then b.cache_delete key got.1 else got.1 })
          ]
    ]
  ]
