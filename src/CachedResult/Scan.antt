-- ===== src/CachedResult/Scan.antt =====
-- countByFullScan of query.go against the whole list of a query.
use thing.Prelude.{
  ℕ, zero, suc, ◌+◌, ◌<◌, ℤ, Bool, true, false, Option, some, List, [], ◌∷◌, ◌++◌, length, is_empty,
  ltb, take, drop, filter, Bool-cases, take-drop, drop-drop, length-drop, length-append, ◌≡◌, refl,
  sym, ap, ◌∙◌, arith, inl, inr,
}
use thing.CachedResult.{value, CachedResult, Backend}
use thing.CachedResult.Ids.{fetch_ids_from_db, is_kept}
use thing.CachedResult.Count.{count_kept, count_by_full_scan, scan_batch_size}
use thing.CachedResult.Pages.{
  Pages, Loads, Agree, shown, is_kept-shown, fetch_ids_lem, is_kept-Agree, page-cases,
}

length_parts :
    (xs : List ℤ) → length (take scan_batch_size xs) + length (drop scan_batch_size xs) ≡ length xs
length_parts xs =
    sym (length-append (take scan_batch_size xs) (drop scan_batch_size xs))
    ∙ ap (λ l. length l) (take-drop scan_batch_size xs)

module _ {S M : Type 0} (b : Backend S M) where
  count_kept_nil : (p : ℤ → Bool) → count_kept b p [] ≡ 0
  unfolding count_kept
  count_kept_nil p = refl

  count_kept-append :
      (p : ℤ → Bool) (xs ys : List ℤ)
      → count_kept b p (xs ++ ys) ≡ count_kept b p xs + count_kept b p ys
  unfolding count_kept
  count_kept-append p [] ys = omega arith
  count_kept-append p (x ∷ xs) ys = ground (arith, count_kept-append p xs ys)

  count_kept-Agree :
      (r : CachedResult M) (f g : ℤ → Option M) (xs : List ℤ)
      → Agree b f g xs
      → count_kept b (is_kept b r f) xs ≡ count_kept b (is_kept b r g) xs
  unfolding count_kept
  count_kept-Agree r f g [] h = refl
  count_kept-Agree r f g (x ∷ xs) h =
      rw (is_kept-Agree b r f g x h.0, count_kept-Agree r f g xs h.1) refl

  count_kept-shown :
      (r : CachedResult M) (store : ℤ → Option M) (xs : List ℤ)
      → count_kept b (is_kept b r store) xs ≡ length (filter (shown b r store) xs)
  unfolding count_kept
  count_kept-shown r store [] = refl
  count_kept-shown r store (x ∷ xs) =
      rw (is_kept-shown b r store x) (elim (Bool-cases (shown b r store x)) [
        | inl e ↦ rw e (ap suc (count_kept-shown r store xs))
        | inr e ↦ rw e (count_kept-shown r store xs)
      ])

  scan_end :
      (r : CachedResult M) (fuel offset n : ℕ) (s : S)
      → fetch_ids_from_db b r offset scan_batch_size ≡ value []
      → (count_by_full_scan b r (suc fuel) offset n s).0 ≡ value n
  unfolding count_by_full_scan
  scan_end r fuel offset n s h = rw (count_by_full_scan, h) refl

  scan_last :
      (r : CachedResult M) (fuel offset n : ℕ) (s : S) (ids : List ℤ) (models : ℤ → Option M)
      → fetch_ids_from_db b r offset scan_batch_size ≡ value ids
      → is_empty ids ≡ false
      → (b.by_ids ids [] s).0 ≡ some models
      → ltb (length ids) scan_batch_size ≡ true
      → (count_by_full_scan b r (suc fuel) offset n s).0
        ≡ value (n + count_kept b (is_kept b r models) ids)
  unfolding count_by_full_scan
  scan_last r fuel offset n s ids models h k l e = rw (count_by_full_scan, h, k, l, e) refl

  scan_more :
      (r : CachedResult M) (fuel offset n : ℕ) (s : S) (ids : List ℤ) (models : ℤ → Option M)
      → fetch_ids_from_db b r offset scan_batch_size ≡ value ids
      → is_empty ids ≡ false
      → (b.by_ids ids [] s).0 ≡ some models
      → ltb (length ids) scan_batch_size ≡ false
      → count_by_full_scan b r (suc fuel) offset n s
        ≡ count_by_full_scan b r fuel
            (offset + length ids)
            (n + count_kept b (is_kept b r models) ids)
            (b.by_ids ids [] s).1
  unfolding count_by_full_scan
  scan_more r fuel offset n s ids models h k l e = rw (count_by_full_scan, h, k, l, e) refl

  full_scan_lem :
      (r : CachedResult M) (ids : List ℤ) (store : ℤ → Option M)
      → r.initialized ≡ true
      → Pages b r ids
      → Loads b store
      → (fuel offset n : ℕ) (s : S) → length (drop offset ids) < fuel
      → (count_by_full_scan b r fuel offset n s).0
        ≡ value (n + count_kept b (is_kept b r store) (drop offset ids))
  full_scan_lem r ids store i pages loads zero offset n s enough = absurd (omega (arith, enough))
  full_scan_lem r ids store i pages loads (suc fuel) offset n s enough =
      let xs = drop offset ids in
      let batch = take scan_batch_size xs in
      let read = fetch_ids_lem b r ids i pages offset scan_batch_size in
      let (models, (found, agree)) = loads batch [] s in
      let same = count_kept-Agree r models store batch agree in
      let p = is_kept b r store in
      elim (page-cases scan_batch_size xs (omega arith)) [
        | inl (none_left, ended) ↦
            let none_kept = ap (λ l. count_kept b p l) ended ∙ count_kept_nil p in
            let total : n ≡ n + count_kept b p xs = omega (arith, none_kept) in
            scan_end r fuel offset n s (read ∙ ap value none_left) ∙ ap value total
        | inr (inl (some_left, (short, whole))) ↦
            scan_last r fuel offset n s batch models read some_left found short
            ∙ ap (λ k. value (n + k)) (same ∙ ap (λ l. count_kept b p l) whole)
        | inr (inr (some_left, (full, size))) ↦
            let next = offset + length batch in
            let kept = n + count_kept b (is_kept b r models) batch in
            let rest = drop scan_batch_size xs in
            let shift : drop next ids ≡ rest =
              ap (λ k. drop (offset + k) ids) size ∙ sym (drop-drop offset scan_batch_size ids) in
            let fewer : length (drop next ids) < fuel = omega (
              arith,
              ap (λ l. length l) shift,
              length-drop scan_batch_size xs,
              enough,
              size,
              length_parts xs,
            ) in
            let parts = count_kept-append p batch rest in
            let whole = ap (λ l. count_kept b p l) (take-drop scan_batch_size xs) in
            let left = ap (λ l. count_kept b p l) shift in
            let total : kept + count_kept b p (drop next ids) ≡ n + count_kept b p xs =
              omega (arith, same, parts, whole, left) in
            ap (λ a. a.0) (scan_more r fuel offset n s batch models read some_left found full)
            ∙ (full_scan_lem r ids store i pages loads fuel next kept _ fewer ∙ ap value total)
      ]

  -- Where the database reads pages of one list of identifiers, and ByIDs answers with the models of
  -- a store, countByFullScan ends, and returns the number of the identifiers of the whole list
  -- whose models are found and pass KeepItem, or are all included, for any fuel above the list's length.
  pub count_by_full_scan_lem :
      (r : CachedResult M) (ids : List ℤ) (store : ℤ → Option M)
      → r.initialized ≡ true
      → Pages b r ids
      → Loads b store
      → (fuel : ℕ) (s : S) → length ids < fuel
      → (count_by_full_scan b r fuel 0 0 s).0 ≡ value (length (filter (shown b r store) ids))
  count_by_full_scan_lem r ids store i pages loads fuel s enough =
      full_scan_lem r ids store i pages loads fuel 0 0 s enough
      ∙ ap value (omega (arith, count_kept-shown r store ids))
