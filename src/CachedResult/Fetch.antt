-- ===== src/CachedResult/Fetch.antt =====
-- Fetch, All and First of query.go.
use thing.Prelude.{
  ℕ, zero, suc, ◌+◌, ◌-◌, ℤ, pos, negsuc, ltb_ℤ, eq_ℤ, Bool, true, false, not, ◌&&◌, ◌||◌, Option,
  none, some, List, [], ◌∷◌, ◌++◌, length, is_empty, ltb, ◌==◌, take, drop, if◌then◌else◌,
}
use thing.CachedResult.{
  QueryError, not_initialized, ids_failed, no_such_model, out_of_fuel, panicked, broken, Answer,
  value, failed, CachedResult, Backend, World,
}
use thing.CachedResult.Ids.{fetch_list, fetch_ids_from_db, invalidate_cache}
use thing.CachedResult.Count.{count}

-- The identifiers of a round, and whether they come from the cached list.
pub data Batch : Type 0 where
  cached stored : List ℤ → Batch
  unreadable : Batch

-- What a round makes of a batch: the models that it adds, how many identifiers it read, how many
-- models are still needed, and whether an identifier of the cached list was no good.
pub record Picked (M : Type 0) : Type 0 where
  pub models : List M
  pub processed : ℕ
  pub remaining : ℕ
  pub issue : Bool

-- The variables of the loop of Fetch. The source's cacheInvalidated is `invalidated`.
pub record Loop (S M : Type 0) : Type 0 where
  pub results : List M
  pub offset : ℕ
  pub limit : ℕ
  pub remaining : ℕ
  pub invalidated : Bool
  pub world : World S M

-- A round ends the loop, with an answer, or goes on.
pub data Round (S M : Type 0) : Type 0 where
  finish : Answer (List M) → World S M → Round S M
  again : Loop S M → Round S M

module _ {S M : Type 0} (b : Backend S M) where
  unfoldable pub batch_of : ℤ → Loop S M → Batch
  unfolding fetch_ids_from_db
  batch_of total l =
      let available = length l.world.result.cached_ids - l.offset in
      elim (ltb l.offset (length l.world.result.cached_ids)) [
        | true ↦ cached (
            take (if ltb available l.limit then available else l.limit)
              (drop l.offset l.world.result.cached_ids))
        | false ↦ elim (ltb_ℤ (pos l.offset) total) [
          | false ↦ stored []
          | true ↦ elim (fetch_ids_from_db b l.world.result l.offset l.limit) [
            | failed e ↦ unreadable
            | value ids ↦ stored ids
          ]
        ]
      ]

  -- The model that counts for an identifier.
  unfoldable pub kept_model : CachedResult M → (ℤ → Option M) → ℤ → Option M
  kept_model r models id = elim (models id) [
    | none ↦ none
    | some m ↦ if r.params.include_deleted || b.keep_item m then some m else none
  ]

  abbrev pub add_model : M → Picked M → Picked M
  add_model m p = record p { models = m ∷ p.models; processed = suc p.processed }

  -- The loop over a batch, which stops at the last model that is needed.
  unfoldable pub pick : (ℤ → Option M) → Bool → List ℤ → ℕ → Picked M
  pick models from_cache [] n = record { models = []; processed = 0; remaining = n; issue = false }
  pick models from_cache (id ∷ ids) n = elim (models id) [
    | none ↦
        let rest = pick models from_cache ids n in
        record rest { processed = suc rest.processed; issue = from_cache || rest.issue }
    | some m ↦ elim (n == 1) [
      | true ↦ record { models = m ∷ []; processed = 1; remaining = 0; issue = false }
      | false ↦ add_model m (pick models from_cache ids (n - 1))
    ]
  ]

  -- The cache is invalidated once.
  unfoldable pub invalidated_if : Bool → Loop S M → Loop S M
  unfolding invalidate_cache
  invalidated_if issue l = elim (issue && not l.invalidated) [
    | true ↦ record l { world = invalidate_cache b l.world; invalidated = true }
    | false ↦ l
  ]

  -- A round whose models were read.
  unfoldable pub loaded_round : Picked M → Loop S M → Loop S M
  unfolding invalidated_if
  loaded_round p l =
      let next = invalidated_if p.issue l in
      record next {
        results = next.results ++ p.models;
        offset = next.offset + p.processed;
        limit = p.remaining;
        remaining = p.remaining;
      }

  -- A round whose models could not be read.
  unfoldable pub failed_round : Bool → ℕ → Loop S M → Loop S M
  unfolding invalidated_if
  failed_round from_cache n l = elim (from_cache && not l.invalidated) [
    | true ↦ record (invalidated_if true l) { offset = l.offset + n }
    | false ↦ record l { offset = l.offset + n; limit = l.remaining }
  ]

  unfoldable pub round_with : Bool → List ℤ → Loop S M → Round S M
  unfolding kept_model pick loaded_round failed_round
  round_with from_cache [] l = finish (value l.results) l.world
  round_with from_cache (id ∷ ids) l =
      let loaded = b.by_ids (id ∷ ids) l.world.result.params.preloads l.world.cache in
      let next = record l { world = record l.world { cache = loaded.1 } } in
      elim loaded.0 [
        | none ↦ again (failed_round from_cache (length (id ∷ ids)) next)
        | some models ↦ again (
            loaded_round (pick (kept_model l.world.result models) from_cache (id ∷ ids) l.remaining)
              next)
      ]

  unfoldable pub round : ℤ → Loop S M → Round S M
  unfolding batch_of round_with
  round total l = elim (batch_of total l) [
    | unreadable ↦ finish (failed ids_failed) l.world
    | cached ids ↦ round_with true ids l
    | stored ids ↦ round_with false ids l
  ]

  -- The loop of Fetch
  unfoldable pub fetch_loop : ℤ → ℕ → Loop S M → Answer (List M) × World S M
  unfolding round
  fetch_loop total zero l = (failed out_of_fuel, l.world)
  fetch_loop total (suc fuel) l = elim (l.remaining == 0) [
    | true ↦ (value l.results, l.world)
    | false ↦ elim (round total l) [ finish a w ↦ (a, w) | again next ↦ fetch_loop total fuel next ]
  ]

  unfoldable pub to_nat : ℤ → ℕ
  to_nat (pos n) = n
  to_nat (negsuc n) = 0

  -- The total of a count that fails is the number of the cached identifiers.
  unfoldable pub total_of : Answer ℤ × World S M → ℤ
  total_of (failed e, w) = pos (length w.result.cached_ids)
  total_of (value n, w) = n

  -- A round reads at least one identifier, and none behind both the list and the total.
  unfoldable pub fetch_counted : ℕ → ℕ → Answer ℤ × World S M → Answer (List M) × World S M
  unfolding fetch_loop to_nat total_of
  fetch_counted offset limit counted =
      let total = total_of counted in
      let w = counted.1 in
      fetch_loop total (length w.result.cached_ids + to_nat total + 2) (record {
        results = [];
        offset = offset;
        limit = limit;
        remaining = limit;
        invalidated = false;
        world = w;
      })

  -- make([]T, 0, limit) panics for a limit that is negative or too large, and cachedIDs[offset:] for a
  -- negative offset.
  unfoldable pub fetch_range : ℤ → ℤ → Answer ℤ × World S M → Answer (List M) × World S M
  unfolding fetch_counted
  fetch_range offset (negsuc n) counted = (failed panicked, counted.1)
  fetch_range (negsuc m) (pos zero) counted = (value [], counted.1)
  fetch_range (negsuc m) (pos (suc n)) counted = (failed panicked, counted.1)
  fetch_range (pos m) (pos n) counted =
      if ltb b.max_capacity n then (failed panicked, counted.1) else fetch_counted m n counted

  unfoldable pub fetch_listed : ℤ → ℤ → Option QueryError × World S M → Answer (List M) × World S M
  unfolding count fetch_range
  fetch_listed offset limit (some e, w) = (failed e, w)
  fetch_listed offset limit (none, w) = elim (is_empty w.result.cached_ids) [
    | true ↦ (value [], w)
    | false ↦ fetch_range offset limit (count b w)
  ]

  -- Fetch
  unfoldable pub fetch : ℤ → ℤ → World S M → Answer (List M) × World S M
  unfolding fetch_list fetch_listed
  fetch offset limit w = elim w.result.init_error [
    | some text ↦ (failed (broken text), w)
    | none ↦ elim w.result.initialized [
      | false ↦ (failed not_initialized, w)
      | true ↦ fetch_listed offset limit (fetch_list b w)
    ]
  ]

  unfoldable pub save_all : Answer (List M) × World S M → Answer (List M) × World S M
  save_all (failed e, w) = (failed e, w)
  save_all (value ms, w) =
      (value ms, record w { result = record w.result { all_models = ms; has_loaded_all = true } })

  unfoldable pub fetch_total : Answer ℤ × World S M → Answer (List M) × World S M
  unfolding fetch save_all
  fetch_total (failed e, w) = (failed e, w)
  fetch_total (value n, w) = elim (eq_ℤ n (pos 0)) [
    | true ↦ (value [], w)
    | false ↦ save_all (fetch (pos 0) n w)
  ]

  -- All
  unfoldable pub fetch_all : World S M → Answer (List M) × World S M
  unfolding count fetch_total
  fetch_all w = elim w.result.has_loaded_all [
    | true ↦ (value w.result.all_models, w)
    | false ↦ fetch_total (count b w)
  ]

  unfoldable first_of : Answer (List M) × World S M → Answer M × World S M
  first_of (failed e, w) = (failed e, w)
  first_of (value [], w) = (failed no_such_model, w)
  first_of (value (m ∷ ms), w) = (value m, w)

  -- First
  unfoldable pub first : World S M → Answer M × World S M
  unfolding fetch first_of
  first w = first_of (fetch (pos 0) (pos 1) w)
