-- ===== src/CachedResult/Rounds.antt =====
-- One round of the loop of Fetch in query.go.
use thing.Prelude.{
  ℕ, ◌+◌, ◌-◌, ◌<◌, ◌≤◌, ℤ, pos, negsuc, ltb_ℤ, Bool, true, false, not, ◌&&◌, ◌||◌, Option, some,
  List, [], ◌∷◌, length, is_empty, ltb, ◌==◌, ◌≡◌, refl, ap, arith, All, All-append, length-append,
  Bool-cases, Option-cases, inl, inr, ◌⊎◌,
}
use thing.Query.{QueryParams}
use thing.CachedResult.{Answer, value, failed, CachedResult, Backend, QueryError, ids_failed}
use thing.CachedResult.Ids.{fetch_ids_from_db, invalidate_cache}
use thing.CachedResult.Fetch.{
  Picked, Loop, Round, finish, again, batch_of, kept_model, pick, invalidated_if, loaded_round,
  failed_round, round_with, round, to_nat,
}

pub Answer-cases :
    {A : Type 0} (a : Answer A) → ((e : QueryError) × (a ≡ failed e)) ⊎ ((x : A) × (a ≡ value x))
Answer-cases (failed e) = inl (e, refl)
Answer-cases (value x) = inr (x, refl)

module _ {S M : Type 0} (b : Backend S M) where
  -- A kept model: deleted rows are included, or it passes KeepItem.
  abbrev pub Kept : QueryParams → M → Type 0
  Kept params m = (params.include_deleted || b.keep_item m) ≡ true

  -- What the loop over a batch guarantees for `n` models that are needed.
  abbrev PickedWell : QueryParams → ℕ → Picked M → Type 0
  PickedWell params n p = (length p.models + p.remaining ≡ n) × All (Kept params) p.models

  abbrev KeptOnly : QueryParams → (ℤ → Option M) → Type 0
  KeptOnly params models = (id : ℤ) (m : M) → models id ≡ some m → Kept params m

  kept_model-KeptOnly :
      (r : CachedResult M) (models : ℤ → Option M) → KeptOnly r.params (kept_model b r models)
  unfolding kept_model
  kept_model-KeptOnly r models id m h = elim (Option-cases (models id)) [
    | inl e ↦ absurd (ground (arith, h, e))
    | inr (x, e) ↦ ground (arith, h, e)
  ]

  pick-PickedWell :
      (params : QueryParams) (models : ℤ → Option M) (from_cache : Bool) (ids : List ℤ) (n : ℕ)
      → KeptOnly params models
      → 0 < n
      → PickedWell params n (pick b models from_cache ids n)
  unfolding pick
  pick-PickedWell params models from_cache [] n kept h = (omega arith, tt)
  pick-PickedWell params models from_cache (id ∷ ids) n kept h = elim (Option-cases (models id)) [
    | inl e ↦ rw (pick, e) (pick-PickedWell params models from_cache ids n kept h)
    | inr (m, e) ↦ elim (Bool-cases (n == 1)) [
      | inl one ↦ rw (pick, e, one) (ground (arith, one), (kept id m e, tt))
      | inr more ↦
          let rest =
            pick-PickedWell params models from_cache ids (n - 1) kept (ground (arith, h, more)) in
          rw (pick, e, more) (omega (arith, rest.0, h), (kept id m e, rest.1))
    ]
  ]

  pick_processed :
      (models : ℤ → Option M) (from_cache : Bool) (id : ℤ) (ids : List ℤ) (n : ℕ)
      → 0 < (pick b models from_cache (id ∷ ids) n).processed
  unfolding pick
  pick_processed models from_cache id ids n = elim (Option-cases (models id)) [
    | inl e ↦ rw (pick, e) (omega arith)
    | inr (m, e) ↦ elim (Bool-cases (n == 1)) [
      | inl one ↦ rw (pick, e, one) (omega arith)
      | inr more ↦ rw (pick, e, more) (omega arith)
    ]
  ]

  -- What a round keeps and what it changes: the parameters stay, the cached list stays or goes,
  -- the offset grows, and the models are kept and no more than those needed.
  pub record Advanced (l next : Loop S M) : Type 0 where
    pub params_stay : next.world.result.params ≡ l.world.result.params
    pub list_shrinks : length next.world.result.cached_ids ≤ length l.world.result.cached_ids
    pub offset_grows : l.offset < next.offset
    pub counted : length next.results + next.remaining ≡ length l.results + l.remaining
    pub all_kept :
        All (Kept l.world.result.params) l.results → All (Kept l.world.result.params) next.results

  -- An invalidation leaves the loop's variables, apart from the cached list, which goes.
  abbrev KeptLoop : Loop S M → Loop S M → Type 0
  KeptLoop l next =
      (next.world.result.params ≡ l.world.result.params)
      × ((length next.world.result.cached_ids ≤ length l.world.result.cached_ids)
          × ((next.offset ≡ l.offset)
              × ((next.results ≡ l.results) × (next.remaining ≡ l.remaining))))

  invalidated_if_lem : (issue : Bool) (l : Loop S M) → KeptLoop l (invalidated_if b issue l)
  unfolding invalidated_if invalidate_cache
  invalidated_if_lem issue l = elim (Bool-cases (issue && not l.invalidated)) [
    | inl e ↦ simp (invalidated_if, e) (refl, (ground arith, (refl, (refl, refl))))
    | inr e ↦ simp (invalidated_if, e) (refl, (omega arith, (refl, (refl, refl))))
  ]

  loaded_round-Advanced :
      (p : Picked M) (l : Loop S M)
      → PickedWell l.world.result.params l.remaining p
      → 0 < p.processed
      → Advanced l (loaded_round b p l)
  unfolding loaded_round
  loaded_round-Advanced p l well h =
      let (params, (shrinks, (offset, (results, remaining)))) = invalidated_if_lem p.issue l in
      record {
        params_stay = params;
        list_shrinks = shrinks;
        offset_grows = omega (arith, offset, h);
        counted = omega (
          arith,
          length-append {0} (invalidated_if b p.issue l).results p.models,
          ap (λ r. length r) results,
          well.0,
        );
        all_kept = λ a. All-append _ _ _ (rw results a) well.1;
      }

  failed_round-Advanced :
      (from_cache : Bool) (n : ℕ) (l : Loop S M)
      → 0 < n
      → Advanced l (failed_round b from_cache n l)
  unfolding failed_round
  failed_round-Advanced from_cache n l h = elim (Bool-cases (from_cache && not l.invalidated)) [
    | inl e ↦
        let (params, (shrinks, (offset, (results, remaining)))) = invalidated_if_lem true l in
        simp (failed_round, e)
          (record {
            params_stay = params;
            list_shrinks = shrinks;
            offset_grows = omega (arith, h);
            counted = omega (arith, ap (λ r. length r) results, remaining);
            all_kept = λ a. rw results a;
          })
    | inr e ↦
        simp (failed_round, e)
          (record {
            params_stay = refl;
            list_shrinks = omega arith;
            offset_grows = omega (arith, h);
            counted = refl;
            all_kept = λ a. a;
          })
  ]

  abbrev with_cache : S → Loop S M → Loop S M
  with_cache s l = record l { world = record l.world { cache = s } }

  Advanced-with_cache :
      (l : Loop S M) (s : S) (next : Loop S M) → Advanced (with_cache s l) next → Advanced l next
  Advanced-with_cache l s next a = record {
    params_stay = a.params_stay;
    list_shrinks = a.list_shrinks;
    offset_grows = a.offset_grows;
    counted = a.counted;
    all_kept = a.all_kept;
  }

  -- An offset inside of the cached list or below the total.
  abbrev pub Inside : ℤ → Loop S M → Type 0
  Inside total l = (l.offset < length l.world.result.cached_ids) ⊎ (l.offset < to_nat b total)

  -- A round ends the loop with the models so far or an error of the database, or advances it.
  abbrev pub RoundWell : ℤ → Loop S M → Round S M → Type 0
  RoundWell total l (finish a w) = (a ≡ value l.results) ⊎ (a ≡ failed ids_failed)
  RoundWell total l (again next) = Advanced l next × Inside total l

  round_with-RoundWell :
      (total : ℤ) (from_cache : Bool) (ids : List ℤ) (l : Loop S M)
      → 0 < l.remaining
      → (is_empty ids ≡ false → Inside total l)
      → RoundWell total l (round_with b from_cache ids l)
  unfolding round_with
  round_with-RoundWell total from_cache [] l h inside = inl refl
  round_with-RoundWell total from_cache (id ∷ ids) l h inside =
      let loaded = b.by_ids (id ∷ ids) l.world.result.params.preloads l.world.cache in
      let next = with_cache loaded.1 l in
      elim (Option-cases loaded.0) [
        | inl e ↦
            simp (round_with, e)
              (
                Advanced-with_cache l loaded.1 _
                    (failed_round-Advanced from_cache (length (id ∷ ids)) next (omega arith)),
                inside refl,
              )
        | inr (models, e) ↦
            let usable = kept_model b l.world.result models in
            simp (round_with, e)
              (
                Advanced-with_cache l loaded.1 _ (
                    loaded_round-Advanced _ next
                      (pick-PickedWell l.world.result.params usable from_cache (id ∷ ids)
                        l.remaining (kept_model-KeptOnly l.world.result models) h)
                      (pick_processed usable from_cache id ids l.remaining)),
                inside refl,
              )
      ]

  below_total : (n : ℕ) (total : ℤ) → ltb_ℤ (pos n) total ≡ true → n < to_nat b total
  unfolding to_nat
  below_total n (pos m) h = ground (arith, h)
  below_total n (negsuc m) h = absurd (ground (arith, h))

  pub round-RoundWell :
      (total : ℤ) (l : Loop S M) → 0 < l.remaining → RoundWell total l (round b total l)
  unfolding round batch_of
  round-RoundWell total l h = elim (Bool-cases (ltb l.offset (length l.world.result.cached_ids))) [
    | inl e ↦
        simp (round, batch_of, e)
          (round_with-RoundWell total true _ l h (λ g. inl (ground (arith, e))))
    | inr e ↦ elim (Bool-cases (ltb_ℤ (pos l.offset) total)) [
      | inr f ↦ simp (round, batch_of, e, f) (inl refl)
      | inl f ↦ elim (Answer-cases (fetch_ids_from_db b l.world.result l.offset l.limit)) [
        | inl (x, g) ↦ simp (round, batch_of, e, f, g) (inr refl)
        | inr (ids, g) ↦
            simp (round, batch_of, e, f, g)
              (round_with-RoundWell total false ids l h (λ k. inr (below_total _ total f)))
      ]
    ]
  ]
