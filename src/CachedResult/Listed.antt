-- ===== src/CachedResult/Listed.antt =====
-- _fetch_data of query.go against the whole list of a query.
use thing.Prelude.{
  ℕ, zero, suc, ◌+◌, ◌*◌, ◌≤◌, ℤ, pos, str, Bool, true, false, not, ◌&&◌, ◌||◌, if◌then◌else◌,
  Option, none, List, [], ◌∷◌, ◌++◌, length, is_empty, ltb, take, drop, filter, filter-append,
  take-drop, length-drop, length-take_bound, length-append, append_nil_lem, append_assoc, take_full,
  take-take_append, length-take_all, ◌≡◌, refl, sym, ap, ◌∙◌, arith, Bool-cases, inl, inr,
}
use thing.Prelude.Decimal.{print_ℤ}
use thing.Index.State.{register_query}
use thing.CachedResult.{Answer, value, failed, CachedResult, Backend, World}
use thing.CachedResult.Ids.{
  cache_list_count_limit, batch_size, max_iterations, fetch_ids_from_db, is_kept, keep_ids,
  skips_filter, Scan, scan_batch, scan_loaded, scan_ids, fetch_data, finish_scan, save_list,
  list_key, count_key, register,
}
use thing.CachedResult.Pages.{
  Pages, Loads, Agree, shown, is_kept-shown, fetch_ids_lem, is_kept-Agree, page-cases, drop_page,
}

nil_of_length : (xs : List ℤ) → length xs ≤ 0 → xs ≡ []
nil_of_length [] h = refl
nil_of_length (x ∷ xs) h = absurd (omega (arith, h))

module _ {S M : Type 0} (b : Backend S M) where
  keep_ids_full :
      (p : ℤ → Bool) (valid ids : List ℤ)
      → ltb (length valid) cache_list_count_limit ≡ false
      → keep_ids b p valid ids ≡ valid
  unfolding keep_ids
  keep_ids_full p valid [] h = refl
  keep_ids_full p valid (x ∷ ids) h = rw h (keep_ids_full p valid ids h)

  keep_ids_lem :
      (p : ℤ → Bool) (valid ids : List ℤ)
      → length valid ≤ cache_list_count_limit
      → keep_ids b p valid ids ≡ take cache_list_count_limit (valid ++ filter p ids)
  unfolding keep_ids
  keep_ids_lem p valid [] h = sym (
      length-take_all cache_list_count_limit (valid ++ []) (rw (append_nil_lem valid) h)
      ∙ append_nil_lem valid)
  keep_ids_lem p valid (x ∷ ids) h = elim (Bool-cases (ltb (length valid) cache_list_count_limit)) [
    | inr full ↦
        keep_ids_full p valid (x ∷ ids) full
        ∙ sym (take_full cache_list_count_limit valid _ (ground (arith, full, h)))
    | inl more ↦ elim (Bool-cases (p x)) [
      | inl kept ↦
          let longer = length-append {0} valid (x ∷ []) in
          rw (more, kept)
            (keep_ids_lem p (valid ++ (x ∷ [])) ids (ground (arith, longer, more))
              ∙ ap (take cache_list_count_limit) (append_assoc valid (x ∷ []) (filter p ids)))
      | inr dropped ↦ rw (more, dropped) (keep_ids_lem p valid ids h)
    ]
  ]

  keep_ids-Agree :
      (r : CachedResult M) (f g : ℤ → Option M) (xs valid : List ℤ)
      → Agree b f g xs
      → keep_ids b (is_kept b r f) valid xs ≡ keep_ids b (is_kept b r g) valid xs
  unfolding keep_ids
  keep_ids-Agree r f g [] valid h = refl
  keep_ids-Agree r f g (x ∷ xs) valid h =
      rw (is_kept-Agree b r f g x h.0) (keep_ids-Agree r f g xs _ h.1)

  -- The identifiers that the list of a query takes: all of them where the clause has sorted out
  -- the deleted ones, and otherwise those whose models are found and kept.
  unfoldable pub passes : CachedResult M → (ℤ → Option M) → ℤ → Bool
  unfolding skips_filter is_kept
  passes r store = elim (skips_filter b r) [ true ↦ λ id. true | false ↦ is_kept b r store ]

  -- Nothing is added behind the end of the list.
  listed_end :
      (p : ℤ → Bool) (valid xs : List ℤ)
      → length valid ≤ cache_list_count_limit
      → xs ≡ []
      → valid ≡ take cache_list_count_limit (valid ++ filter p xs)
  listed_end p valid [] short e = sym (
      ap (take cache_list_count_limit) (append_nil_lem valid)
      ∙ length-take_all cache_list_count_limit valid short)
  listed_end p valid (x ∷ xs) short e = absurd (ground (arith, e))

  -- What a batch adds.
  abbrev Scanned : (ℤ → Bool) → List ℤ → Scan b → Scan b × Bool → Type 0
  Scanned p ids s t =
      (t.0.valid_ids ≡ keep_ids b p s.valid_ids ids)
      × ((t.0.current_offset ≡ s.current_offset + length ids) × (t.1 ≡ true))

  scan_batch-Scanned :
      (r : CachedResult M) (store : ℤ → Option M) (ids : List ℤ) (s : Scan b)
      → Loads b store
      → Scanned (passes r store) ids s (scan_batch b r ids s)
  unfolding scan_batch passes scan_loaded
  scan_batch-Scanned r store ids s loads = elim (Bool-cases (skips_filter b r)) [
    | inl skips ↦ rw (scan_batch, passes, skips) (refl, (refl, refl))
    | inr filters ↦
        let (models, (found, agree)) = loads ids [] s.cache in
        rw (scan_batch, passes, filters, found)
          (keep_ids-Agree r models store ids s.valid_ids agree, (refl, refl))
  ]

  -- The rounds of the loop.
  round_none : (r : CachedResult M) (s : Scan b) → (scan_ids b r zero s).0 ≡ value s.valid_ids
  unfolding scan_ids
  round_none r s = refl

  round_full :
      (r : CachedResult M) (n : ℕ) (s : Scan b)
      → ltb (length s.valid_ids) cache_list_count_limit ≡ false
      → (scan_ids b r (suc n) s).0 ≡ value s.valid_ids
  unfolding scan_ids
  round_full r n s h = rw (scan_ids, h) refl

  round_end :
      (r : CachedResult M) (n : ℕ) (s : Scan b)
      → ltb (length s.valid_ids) cache_list_count_limit ≡ true
      → fetch_ids_from_db b r s.current_offset batch_size ≡ value []
      → (scan_ids b r (suc n) s).0 ≡ value s.valid_ids
  unfolding scan_ids
  round_end r n s h k = rw (scan_ids, h, k) refl

  round_last :
      (r : CachedResult M) (n : ℕ) (s : Scan b) (ids : List ℤ)
      → ltb (length s.valid_ids) cache_list_count_limit ≡ true
      → fetch_ids_from_db b r s.current_offset batch_size ≡ value ids
      → is_empty ids ≡ false
      → (scan_batch b r ids s).1 ≡ true
      → ltb (length ids) batch_size ≡ true
      → (scan_ids b r (suc n) s).0 ≡ value (scan_batch b r ids s).0.valid_ids
  unfolding scan_ids
  round_last r n s ids h k e g l = rw (scan_ids, h, k, e, g, l) refl

  round_more :
      (r : CachedResult M) (n : ℕ) (s : Scan b) (ids : List ℤ)
      → ltb (length s.valid_ids) cache_list_count_limit ≡ true
      → fetch_ids_from_db b r s.current_offset batch_size ≡ value ids
      → is_empty ids ≡ false
      → (scan_batch b r ids s).1 ≡ true
      → ltb (length ids) batch_size ≡ false
      → scan_ids b r (suc n) s ≡ scan_ids b r n (scan_batch b r ids s).0
  unfolding scan_ids
  round_more r n s ids h k e g l = rw (scan_ids, h, k, e, g, l) refl

  -- A full batch, and what follows it.
  listed_more :
      (p : ℤ → Bool) (valid xs : List ℤ) (n : ℕ)
      → take cache_list_count_limit
          (take cache_list_count_limit (valid ++ filter p (take n xs)) ++ filter p (drop n xs))
        ≡ take cache_list_count_limit (valid ++ filter p xs)
  listed_more p valid xs n =
      take-take_append cache_list_count_limit (valid ++ filter p (take n xs)) (filter p (drop n xs))
      ∙ ap (take cache_list_count_limit) (
          append_assoc valid (filter p (take n xs)) (filter p (drop n xs))
          ∙ ap (λ l. valid ++ l)
              (sym (filter-append p (take n xs) (drop n xs)) ∙ ap (filter p) (take-drop n xs)))

  scan_ids_lem :
      (r : CachedResult M) (ids : List ℤ) (store : ℤ → Option M)
      → r.initialized ≡ true
      → Pages b r ids
      → Loads b store
      → (n : ℕ) (s : Scan b) → length s.valid_ids ≤ cache_list_count_limit
      → length (drop s.current_offset ids) ≤ n * batch_size
      → (scan_ids b r n s).0
        ≡ value (
            take cache_list_count_limit
              (s.valid_ids ++ filter (passes r store) (drop s.current_offset ids)))
  scan_ids_lem r ids store i pages loads zero s short enough =
      let ended = nil_of_length (drop s.current_offset ids) (omega (arith, enough)) in
      round_none r s
      ∙ ap value (listed_end (passes r store) s.valid_ids (drop s.current_offset ids) short ended)
  scan_ids_lem r ids store i pages loads (suc n) s short enough =
      let p = passes r store in
      let xs = drop s.current_offset ids in
      let batch = take batch_size xs in
      let read = fetch_ids_lem b r ids i pages s.current_offset batch_size in
      let (kept, (moved, loaded)) = scan_batch-Scanned r store batch s loads in
      elim (Bool-cases (ltb (length s.valid_ids) cache_list_count_limit)) [
        | inr full ↦
            round_full r n s full
            ∙ ap value (
                sym (
                  take_full cache_list_count_limit s.valid_ids (filter p xs)
                    (ground (arith, full, short))))
        | inl room ↦ elim (page-cases batch_size xs (omega arith)) [
          | inl (none_left, ended) ↦
              round_end r n s room (read ∙ ap value none_left)
              ∙ ap value (listed_end p s.valid_ids xs short ended)
          | inr (inl (some_left, (last, whole))) ↦
              round_last r n s batch room read some_left loaded last
              ∙ ap value (
                  kept
                  ∙ (keep_ids_lem p s.valid_ids batch short
                      ∙ ap (λ l. take cache_list_count_limit (s.valid_ids ++ filter p l)) whole))
          | inr (inr (some_left, (full, size))) ↦
              let next = (scan_batch b r batch s).0 in
              let valid = kept ∙ keep_ids_lem p s.valid_ids batch short in
              let shift =
                ap (λ o. drop o ids) moved ∙ drop_page batch_size s.current_offset ids size in
              let shorter : length next.valid_ids ≤ cache_list_count_limit = omega (
                arith,
                ap (λ l. length l) valid,
                length-take_bound cache_list_count_limit (s.valid_ids ++ filter p batch),
              ) in
              let fewer : length (drop next.current_offset ids) ≤ n * batch_size =
                omega (arith, ap (λ l. length l) shift, length-drop batch_size xs, enough) in
              ap (λ a. a.0) (round_more r n s batch room read some_left loaded full)
              ∙ (scan_ids_lem r ids store i pages loads n next shorter fewer
                  ∙ ap value (
                      ap
                        (λ v.
                          take cache_list_count_limit
                            (v ++ filter p (drop next.current_offset ids)))
                        valid
                      ∙ (ap
                            (λ l. take cache_list_count_limit (
                              take cache_list_count_limit (s.valid_ids ++ filter p batch)
                              ++ filter p l))
                            shift
                          ∙ listed_more p s.valid_ids xs batch_size)))
        ]
      ]

  finish_scan_lem :
      (w : World S M) (ids : List ℤ) (a : Answer (List ℤ) × S)
      → a.0 ≡ value ids
      → (s : S) × (finish_scan b w a ≡ (value ids, save_list b ids (record w { cache = s })))
  unfolding finish_scan
  finish_scan_lem w ids (value xs, s) h =
      let same : xs ≡ ids = ground (arith, h) in
      (s, ap (λ l. (value l, save_list b l (record w { cache = s }))) same)
  finish_scan_lem w ids (failed e, s) h = absurd (ground (arith, h))

  -- The identifiers that the list of a query is to hold: all of them where there is no custom KeepItem
  -- and deleted rows are not included, and otherwise those that it shows.
  abbrev belongs : CachedResult M → (ℤ → Option M) → ℤ → Bool
  belongs r store id =
      (not b.has_custom_keep_item && not r.params.include_deleted) || shown b r store id

  passes-belongs :
      (r : CachedResult M) (store : ℤ → Option M) (id : ℤ) → passes r store id ≡ belongs r store id
  unfolding passes skips_filter
  passes-belongs r store id =
      elim (Bool-cases (not b.has_custom_keep_item && not r.params.include_deleted)) [
        | inl e ↦ rw (passes, skips_filter, e) refl
        | inr e ↦ rw (passes, skips_filter, e) (is_kept-shown b r store id)
      ]

  -- The world in which a list is cached and registered for a query, and its length too where it is
  -- below the limit.
  abbrev pub stored : World S M → List ℤ → S → World S M
  stored w listed s =
      let list = b.generate_cache_key (str "list") b.table_name w.result.params in
      let count = b.generate_cache_key (str "count") b.table_name w.result.params in
      let cache = b.cache_set_query_ids list listed s in
      let index = register_query b.runtime b.table_name list w.result.params w.index in
      if ltb (length listed) 200
      then record {
        result = w.result;
        cache = b.cache_set count (print_ℤ (pos (length listed))) cache;
        index = register_query b.runtime b.table_name count w.result.params index;
      }
      else record { result = w.result; cache = cache; index = index }

  save_list-stored :
      (w : World S M) (listed : List ℤ) (s : S)
      → save_list b listed (record w { cache = s }) ≡ stored w listed s
  unfolding save_list register list_key count_key
  save_list-stored w listed s = elim (Bool-cases (ltb (length listed) 200)) [
    | inl e ↦ rw e refl
    | inr e ↦ rw e refl
  ]

  -- Where no list is cached, the database reads pages of one list of at most 6000 identifiers, and
  -- ByIDs answers with the models of a store, _fetch_data returns the first 200 of the identifiers
  -- that belong to the list: all of them where there is no custom KeepItem and deleted rows are not
  -- included, and otherwise those whose models are found and pass KeepItem or are included anyhow. It
  -- stores them in the cache under the list key of the query, and registers the key; where they are
  -- fewer than 200, it stores their number under the count key, and registers that key too. The
  -- result keeps its state.
  pub fetch_data_lem :
      (w : World S M) (ids : List ℤ) (store : ℤ → Option M)
      → w.result.initialized ≡ true
      → (b.cache_get_query_ids
          (b.generate_cache_key (str "list") b.table_name w.result.params)
          w.cache).0
        ≡ none
      → Pages b w.result ids
      → Loads b store
      → length ids ≤ max_iterations * batch_size
      → let listed = take 200 (filter (belongs w.result store) ids) in
        (s : S) × (fetch_data b w ≡ (value listed, stored w listed s))
  unfolding fetch_data list_key
  fetch_data_lem w ids store i cold pages loads few =
      let got = b.cache_get_query_ids (list_key b w.result) w.cache in
      let start : Scan b = record { valid_ids = []; current_offset = 0; cache = got.1 } in
      let scanned =
        scan_ids_lem w.result ids store i pages loads max_iterations start (omega arith) few in
      let (s, e) =
        finish_scan_lem (record w { cache = got.1 }) _ (scan_ids b w.result max_iterations start)
          scanned in
      let same : passes w.result store ≡ belongs w.result store =
        λ i x. passes-belongs w.result store x i in
      let listed = λ (p : ℤ → Bool). take cache_list_count_limit (filter p ids) in
      (
        s,
        simp (fetch_data, i, cold) e
            ∙ (ap (λ l. (value l, save_list b l (record w { cache = s }))) (ap listed same)
                ∙ ap (λ v. (value (listed (belongs w.result store)), v))
                    (save_list-stored w (listed (belongs w.result store)) s)),
      )
