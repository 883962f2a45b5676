-- ===== src/CachedResult/Steady.antt =====
-- What _fetch_data and Count of query.go leave as it was.
use thing.Prelude.{
  ℕ, zero, suc, ℤ, ◌&&◌, List, [], length, is_empty, ltb, ◌≡◌, ◌≢◌, refl, subst, arith,
  if◌then◌else◌, Bool-cases, Option-cases, inl, inr,
}
use thing.CachedResult.{
  Answer, value, failed, CachedResult, Backend, World, out_of_fuel, panicked, live_clause,
}
use thing.CachedResult.Ids.{
  fetch_ids_from_db, paged, ids_statement, Scan, scan_ids, scan_batch, finish_scan, fetch_data,
  cache_list_count_limit, batch_size, list_key, count_key, max_iterations, save_list, register,
}
use thing.CachedResult.Count.{
  count, count_derived, count_stored, save_count, cached_number, complete_length,
}
use thing.CachedResult.Rounds.{Answer-cases}

module _ {S M : Type 0} (b : Backend S M) where
  -- A value, or an error that the code returns: neither a lack of fuel nor a panic.
  abbrev Returned : {A : Type 0} → Answer A → Type 0
  Returned (value x) = Unit
  Returned (failed e) = (e ≢ out_of_fuel) × (e ≢ panicked)

  fetch_ids-Returned : (r : CachedResult M) (o n : ℕ) → Returned (fetch_ids_from_db b r o n)
  unfolding fetch_ids_from_db
  fetch_ids-Returned r o n = elim (Bool-cases r.initialized) [
    | inr e ↦ simp (fetch_ids_from_db, e) (λ h. ground (arith, h), λ h. ground (arith, h))
    | inl e ↦
        elim (Option-cases
          (b.select_ids (paged b (ids_statement b r).0 o n) (ids_statement b r).1)) [
            | inl f ↦
                simp (fetch_ids_from_db, e, f) (λ h. ground (arith, h), λ h. ground (arith, h))
            | inr (ids, f) ↦ simp (fetch_ids_from_db, e, f) tt
          ]
  ]

  scan_ids-Returned : (r : CachedResult M) (n : ℕ) (s : Scan b) → Returned (scan_ids b r n s).0
  unfolding scan_ids
  scan_ids-Returned r zero s = tt
  scan_ids-Returned r (suc n) s =
      elim (Bool-cases (ltb (length s.valid_ids) cache_list_count_limit)) [
        | inr e ↦ simp (scan_ids, e) tt
        | inl e ↦
            let safe = fetch_ids-Returned r s.current_offset batch_size in
            elim (Answer-cases (fetch_ids_from_db b r s.current_offset batch_size)) [
              | inl (x, f) ↦ simp (scan_ids, e, f) (subst Returned f safe)
              | inr (ids, f) ↦ elim (Bool-cases (is_empty ids)) [
                | inl g ↦ simp (scan_ids, e, f, g) tt
                | inr g ↦
                    let next = scan_batch b r ids s in
                    elim (Bool-cases (next.1 && ltb (length ids) batch_size)) [
                      | inl k ↦ simp (scan_ids, e, f, g, k) tt
                      | inr k ↦ simp (scan_ids, e, f, g, k) (scan_ids-Returned r n next.0)
                    ]
              ]
            ]
      ]

  -- The parameters of the result stay, and an error is one that the code returns.
  abbrev pub Steady : {A : Type 0} → World S M → Answer A × World S M → Type 0
  Steady w t = Returned t.0 × (t.1.result.params ≡ w.result.params)

  finish_scan-Steady :
      (w : World S M) (a : Answer (List ℤ) × S) → Returned a.0 → Steady w (finish_scan b w a)
  unfolding finish_scan save_list register
  finish_scan-Steady w (failed e, s) h = (h, refl)
  finish_scan-Steady w (value ids, s) h =
      elim (Bool-cases (ltb (length ids) cache_list_count_limit)) [
        | inl e ↦ simp (finish_scan, save_list, e) (tt, refl)
        | inr e ↦ simp (finish_scan, save_list, e) (tt, refl)
      ]

  pub fetch_data-Steady : (w : World S M) → Steady w (fetch_data b w)
  unfolding fetch_data
  fetch_data-Steady w = elim (Bool-cases w.result.initialized) [
    | inr e ↦ simp (fetch_data, e) ((λ h. ground (arith, h), λ h. ground (arith, h)), refl)
    | inl e ↦
        let got = b.cache_get_query_ids (list_key b w.result) w.cache in
        elim (Option-cases got.0) [
          | inr (ids, f) ↦ simp (fetch_data, e, f) (tt, refl)
          | inl f ↦
              let start : Scan b = record { valid_ids = []; current_offset = 0; cache = got.1 } in
              simp (fetch_data, e, f)
                (finish_scan-Steady (record w { cache = got.1 }) _
                  (scan_ids-Returned w.result max_iterations start))
        ]
  ]

  -- The count keeps the parameters; its error is of no account, as Fetch goes on without it.
  abbrev pub SameParams : World S M → World S M → Type 0
  SameParams w v = v.result.params ≡ w.result.params

  count_stored-SameParams : (w : World S M) → SameParams w (count_stored b w).1
  unfolding count_stored save_count register
  count_stored-SameParams w =
      elim (Option-cases
        (b.get_count b.table_name (live_clause w.result.params) w.result.params.args)) [
          | inl e ↦ simp (count_stored, e)
          | inr (n, e) ↦ simp (count_stored, e)
        ]

  count_derived-SameParams : (w : World S M) → SameParams w (count_derived b w).1
  unfolding count_derived save_count register
  count_derived-SameParams w =
      let got = b.cache_get_query_ids (list_key b w.result) w.cache in
      elim (Option-cases (complete_length b got.0)) [
        | inl e ↦ simp (count_derived, e) (count_stored-SameParams (record w { cache = got.1 }))
        | inr (n, e) ↦ simp (count_derived, e)
      ]

  pub count-SameParams : (w : World S M) → SameParams w (count b w).1
  unfolding count
  count-SameParams w = elim (Bool-cases w.result.initialized) [
    | inr e ↦ simp (count, e)
    | inl e ↦ elim (Bool-cases w.result.has_loaded_count) [
      | inl f ↦ simp (count, e, f)
      | inr f ↦
          let key = count_key b w.result in
          let got = b.cache_get key w.cache in
          elim (Option-cases (cached_number b got.0).0) [
            | inr (n, g) ↦ simp (count, e, f, g)
            | inl g ↦
                simp (count, e, f, g)
                  (count_derived-SameParams (record w {
                    cache = if (cached_number b got.0).1 then b.cache_delete key got.1 else got.1;
                  }))
          ]
    ]
  ]
