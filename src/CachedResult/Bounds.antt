-- ===== src/CachedResult/Bounds.antt =====
-- What Fetch of query.go returns, whatever the cache, the database and ByIDs answer.
use thing.Prelude.{
  ℕ, zero, suc, ◌+◌, ℤ, pos, negsuc, ltb, Bool, false, Option, none, some, List, [], length,
  is_empty, ◌≡◌, ◌≢◌, refl, ◌∙◌, arith, Bool-cases, Option-cases, inl, inr,
}
use thing.Query.{QueryParams}
use thing.CachedResult.{Answer, value, failed, Backend, World, QueryError, out_of_fuel, panicked}
use thing.CachedResult.Ids.{fetch_data, load_ids, fetch_list}
use thing.CachedResult.Count.{count}
use thing.CachedResult.Fetch.{
  Loop, to_nat, total_of, fetch_counted, fetch_range, fetch_listed, fetch,
}
use thing.CachedResult.Loops.{unfit, Fetched, fetch_loop-Fetched}
use thing.CachedResult.Steady.{Steady, SameParams, fetch_data-Steady, count-SameParams}

module _ {S M : Type 0} (b : Backend S M) where
  fetch_counted-Fetched :
      (params : QueryParams) (offset limit : ℕ) (panics : Bool) (c : Answer ℤ × World S M)
      → c.1.result.params ≡ params
      → Fetched b params limit panics (fetch_counted b offset limit c).0
  unfolding fetch_counted
  fetch_counted-Fetched params offset limit panics c same =
      let start : Loop S M = record {
        results = [];
        offset = offset;
        limit = limit;
        remaining = limit;
        invalidated = false;
        world = c.1;
      } in
      let fuel = length c.1.result.cached_ids + to_nat b (total_of b c) + 2 in
      fetch_loop-Fetched b (total_of b c) params limit panics fuel start (omega arith) same tt
        (omega arith) (omega arith) (omega arith)

  -- The models that a limit asks for.
  unfoldable pub limit_of : ℤ → ℕ
  limit_of (pos n) = n
  limit_of (negsuc n) = 0

  fetch_range-Fetched :
      (params : QueryParams) (offset limit : ℤ) (c : Answer ℤ × World S M)
      → c.1.result.params ≡ params
      → Fetched b params (limit_of limit) (unfit b offset limit) (fetch_range b offset limit c).0
  unfolding fetch_range limit_of
  fetch_range-Fetched params offset (negsuc n) c same = (λ h. ground (arith, h), λ h. refl)
  fetch_range-Fetched params (negsuc m) (pos zero) c same = (omega arith, tt)
  fetch_range-Fetched params (negsuc m) (pos (suc n)) c same =
      (λ h. ground (arith, h), λ h. ground arith)
  fetch_range-Fetched params (pos m) (pos n) c same = elim (Bool-cases (ltb b.max_capacity n)) [
    | inl e ↦ rw e (λ h. ground (arith, h), λ h. refl)
    | inr e ↦ rw e (fetch_counted-Fetched params m n false c same)
  ]

  load_ids-Same :
      (w : World S M) (a : Answer (List ℤ) × World S M) (e : QueryError)
      → Steady b w a
      → ((load_ids b a).0 ≡ some e → (e ≢ out_of_fuel) × (e ≢ panicked))
        × SameParams b w (load_ids b a).1
  unfolding load_ids
  load_ids-Same w (failed x, v) e h = (
    λ k. let same : x ≡ e = ground (arith, k) in (λ g. h.0.0 (same ∙ g), λ g. h.0.1 (same ∙ g)),
    h.1,
  )
  load_ids-Same w (value ids, v) e h = (λ k. absurd (ground (arith, k)), h.1)

  fetch_list-Same :
      (w : World S M) (e : QueryError)
      → ((fetch_list b w).0 ≡ some e → (e ≢ out_of_fuel) × (e ≢ panicked))
        × SameParams b w (fetch_list b w).1
  unfolding fetch_list
  fetch_list-Same w e = elim (Bool-cases w.result.has_loaded_ids) [
    | inl f ↦ simp (fetch_list, f) (λ k. absurd (ground (arith, k)), refl)
    | inr f ↦ simp (fetch_list, f) (load_ids-Same w (fetch_data b w) e (fetch_data-Steady b w))
  ]

  fetch_listed-Fetched :
      (params : QueryParams) (offset limit : ℤ) (t : Option QueryError × World S M)
      → ((e : QueryError) → t.0 ≡ some e → (e ≢ out_of_fuel) × (e ≢ panicked))
      → t.1.result.params ≡ params
      → Fetched b params (limit_of limit) (unfit b offset limit) (fetch_listed b offset limit t).0
  unfolding fetch_listed
  fetch_listed-Fetched params offset limit (some e, w) h same =
      ((h e refl).0, λ k. absurd ((h e refl).1 k))
  fetch_listed-Fetched params offset limit (none, w) h same =
      elim (Bool-cases (is_empty w.result.cached_ids)) [
        | inl e ↦ simp (fetch_listed, e) (omega arith, tt)
        | inr e ↦
            simp (fetch_listed, e)
              (fetch_range-Fetched params offset limit (count b w) (count-SameParams b w ∙ same))
      ]

  -- Fetch ends for every state of the result and whatever the cache, the database and ByIDs answer.
  -- It panics only for a negative limit, a limit above the largest capacity, or a negative offset
  -- with a limit above zero; otherwise it returns an error, or models that are not more than the
  -- limit asks for and of which each passes KeepItem, unless the query includes deleted rows.
  pub fetch_bounds :
      (offset limit : ℤ) (w : World S M)
      → Fetched b w.result.params (limit_of limit) (unfit b offset limit) (fetch b offset limit w).0
  unfolding fetch
  fetch_bounds offset limit w = elim (Option-cases w.result.init_error) [
    | inr (text, e) ↦ simp (fetch, e) (λ h. ground (arith, h), λ h. absurd (ground (arith, h)))
    | inl e ↦ elim (Bool-cases w.result.initialized) [
      | inr f ↦ simp (fetch, e, f) (λ h. ground (arith, h), λ h. absurd (ground (arith, h)))
      | inl f ↦
          let t = fetch_list b w in
          simp (fetch, e, f)
            (fetch_listed-Fetched w.result.params offset limit t (λ x. (fetch_list-Same w x).0)
              (fetch_list-Same w out_of_fuel).1)
    ]
  ]
