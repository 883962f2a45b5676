-- ===== src/Objects.antt =====
-- The reading of rows by their identifiers in crud.go, over the cache of models and the database. A
-- Go map of models is the list of its entries, the last one set in front.
pub mod Reads
pub mod Rows
pub mod Sound
use thing.Prelude.{
  ℕ, zero, suc, ◌+◌, ℤ, pos, negsuc, eq_ℤ, ltb_ℤ, Str, str, Bool, true, false, not, Option, none,
  some, List, [], ◌∷◌, ◌++◌, any, map, length, is_empty, take, drop, if◌then◌else◌,
}
use thing.SqlBuilder.{Dialector, build_select_sql, join}

-- What MGetModel reports for a key.
pub data ModelRead (M : Type 0) : Type 0 where
  hit : M → ModelRead M
  none_result not_found broken : ModelRead M

-- The model information, and the cache and the database by what their calls return. `as_stored` is
-- setNewRecordFlagIfBaseModel to false.
pub record ObjectSource (S M : Type 0) : Type 0 where
  pub has_cache : Bool
  pub table_name : Str
  pub pk_name : Str
  pub columns : List Str
  pub dialector : Dialector
  pub generate_cache_key : ℤ → Str
  pub get_id : M → ℤ
  pub as_stored : M → M
  pub mget_model : List Str → S → List (ModelRead M) × S
  pub set_model : Str → M → S → S
  pub set_none_result : Str → S → S
  pub select_models : Str → List ℤ → Option (List M)

-- ByIDBatchSize
abbrev pub by_id_batch_size : ℕ
by_id_batch_size = 100

module _ {S M : Type 0} (b : ObjectSource S M) where
  -- The models found, and the identifiers that are missing.
  pub record ModelReads : Type 0 where
    pub models : List (ℤ × M)
    pub missing : List ℤ

  -- The loop over the answers of the cache.
  unfoldable pub read_cached : List ℤ → List (ModelRead M) → ModelReads → ModelReads
  read_cached [] reads f = f
  read_cached (id ∷ ids) [] f = f
  read_cached (id ∷ ids) (hit m ∷ reads) f =
      read_cached ids reads (record f { models = (id, b.as_stored m) ∷ f.models })
  read_cached (id ∷ ids) (none_result ∷ reads) f = read_cached ids reads f
  read_cached (id ∷ ids) (not_found ∷ reads) f =
      read_cached ids reads (record f { missing = f.missing ++ (id ∷ []) })
  read_cached (id ∷ ids) (broken ∷ reads) f =
      read_cached ids reads (record f { missing = f.missing ++ (id ∷ []) })

  unfoldable pub by_ids_query : List ℤ → Str
  unfolding build_select_sql join
  by_ids_query ids =
      let marks = join (44 ∷ []) (map (λ id. 63 ∷ []) ids) in
      build_select_sql b.dialector b.table_name b.columns
      ++ (str " WHERE \"" ++ (b.pk_name ++ (str "\" IN (" ++ (marks ++ str ")"))))

  -- The models found, the identifiers read in this batch, and the cache.
  pub record RowBatch : Type 0 where
    pub found : List (ℤ × M)
    pub fetched : List ℤ
    pub cache : S

  unfoldable pub add_row : M → RowBatch → RowBatch
  add_row m t =
      let id = b.get_id m in
      if eq_ℤ id (pos 0) then t else record {
        found = (id, b.as_stored m) ∷ t.found;
        fetched = id ∷ t.fetched;
        cache =
            if b.has_cache
            then b.set_model (b.generate_cache_key id) (b.as_stored m) t.cache
            else t.cache;
      }

  unfoldable pub add_rows : List M → RowBatch → RowBatch
  unfolding add_row
  add_rows [] t = t
  add_rows (m ∷ ms) t = add_rows ms (add_row m t)

  -- NoneResult is cached for the identifiers of a batch that were not read.
  unfoldable cache_missing : List ℤ → List ℤ → S → S
  cache_missing [] fetched s = s
  cache_missing (id ∷ ids) fetched s =
      cache_missing ids fetched
        (if any (λ x. eq_ℤ x id) fetched then s else b.set_none_result (b.generate_cache_key id) s)

  unfoldable pub finish_batch : List ℤ → RowBatch → List (ℤ × M) × S
  unfolding cache_missing
  finish_batch ids t =
      (t.found, if b.has_cache then cache_missing ids t.fetched t.cache else t.cache)

  -- A batch; one that cannot be read is skipped.
  unfoldable pub fetch_batch : List ℤ → List (ℤ × M) × S → List (ℤ × M) × S
  unfolding by_ids_query add_rows finish_batch
  fetch_batch ids (found, s) = elim (b.select_models (by_ids_query ids) ids) [
    | none ↦ (found, s)
    | some rows ↦
        finish_batch ids (add_rows rows (record { found = found; fetched = []; cache = s }))
  ]

  -- The loop over the batches, which end where no identifier is left.
  unfoldable pub fetch_batches : ℕ → List ℤ → List (ℤ × M) × S → List (ℤ × M) × S
  unfolding fetch_batch
  fetch_batches zero ids t = t
  fetch_batches (suc fuel) ids t = elim (is_empty ids) [
    | true ↦ t
    | false ↦
        fetch_batches fuel (drop by_id_batch_size ids) (fetch_batch (take by_id_batch_size ids) t)
  ]

  unfoldable pub fetch_missing : S → ModelReads → List (ℤ × M) × S
  unfolding fetch_batches
  fetch_missing s f = fetch_batches (length f.missing) f.missing (f.models, s)

  -- fetchModelsByIDsInternal
  unfoldable pub fetch_models_by_ids : List ℤ → S → List (ℤ × M) × S
  unfolding read_cached fetch_missing
  fetch_models_by_ids ids s = elim (is_empty ids) [
    | true ↦ ([], s)
    | false ↦ elim b.has_cache [
      | false ↦ fetch_missing s (record { models = []; missing = ids })
      | true ↦
          let answers = b.mget_model (map b.generate_cache_key ids) s in
          fetch_missing answers.1 (read_cached ids answers.0 (record { models = []; missing = [] }))
    ]
  ]

  -- m[id]
  unfoldable pub find_model : ℤ → List (ℤ × M) → Option M
  find_model id [] = none
  find_model id ((k, m) ∷ models) = if eq_ℤ k id then some m else find_model id models

  -- byIDInternal: none for an identifier that is not positive, or is not found
  unfoldable by_id : ℤ → S → Option M × S
  unfolding fetch_models_by_ids find_model
  by_id id s =
      let got = fetch_models_by_ids (id ∷ []) s in
      if ltb_ℤ (pos 0) id then (find_model id got.0, got.1) else (none, s)
