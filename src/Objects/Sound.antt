-- ===== src/Objects/Sound.antt =====
-- The models that crud.go reads by their identifiers, against a store of rows.
use thing.Prelude.{
  ℕ, zero, suc, ◌≤◌, ℤ, eq_ℤ, eq_ℤ_iff, true, false, Option, List, [], ◌∷◌, map, length, take, drop,
  take-drop, length-drop, All, All-append, ◌≡◌, refl, sym, subst, arith, Bool-cases, inl, inr,
}
use thing.Objects.{
  ObjectSource, by_id_batch_size, ModelReads, read_cached, fetch_batch, fetch_batches,
  fetch_missing, fetch_models_by_ids, find_model,
}
use thing.Objects.Reads.{
  Stored, Settled, eq_sound, find_model-Settled, Covered, has_id, read_cached-ReadWell,
}
use thing.Objects.Rows.{Extends, fetch_batch-Extends, Selects, Remembers}

module _ {S M : Type 0} (b : ObjectSource S M) (store : ℤ → Option M) where
  settled_still :
      (ids : List ℤ) (l k : List (ℤ × M))
      → Extends b store l k
      → All (Settled b store l) ids
      → All (Settled b store k) ids
  settled_still [] l k e h = tt
  settled_still (id ∷ ids) l k e h = (e.1 id h.0, settled_still ids l k e h.1)

  fetch_batches-Extends :
      (fuel : ℕ) (ids : List ℤ) (t : List (ℤ × M) × S)
      → Selects b store
      → Stored b store t.0
      → length ids ≤ fuel
      → Extends b store t.0 (fetch_batches b fuel ids t).0
        × All (Settled b store (fetch_batches b fuel ids t).0) ids
  unfolding fetch_batches
  fetch_batches-Extends zero [] t selects k h = ((k, λ id g. g), tt)
  fetch_batches-Extends zero (id ∷ ids) t selects k h = absurd (omega (arith, h))
  fetch_batches-Extends (suc fuel) [] t selects k h = ((k, λ id g. g), tt)
  fetch_batches-Extends (suc fuel) (id ∷ ids) t selects k h =
      let first = take by_id_batch_size (id ∷ ids) in
      let rest = drop by_id_batch_size (id ∷ ids) in
      let read = fetch_batch b first t in
      let ((stored, grows), here) = fetch_batch-Extends b store first t selects k in
      let fewer = length-drop by_id_batch_size (id ∷ ids) in
      let (more, there) =
        fetch_batches-Extends fuel rest read selects stored (omega (arith, fewer, h)) in
      let last = (fetch_batches b fuel rest read).0 in
      let whole = take-drop by_id_batch_size (id ∷ ids) in
      (
        (more.0, λ x g. more.1 x (grows x g)),
        subst (All (Settled b store last)) whole (
            All-append (Settled b store last) first rest (settled_still first read.0 last more here)
              there),
      )

  -- Every identifier reads as the store says.
  abbrev pub AllRead : List (ℤ × M) → List ℤ → Type 0
  AllRead l ids = All (λ id. find_model b id l ≡ store id) ids

  settled_read :
      (ids : List ℤ) (l : List (ℤ × M))
      → Stored b store l
      → All (Settled b store l) ids
      → AllRead l ids
  settled_read [] l k h = tt
  settled_read (id ∷ ids) l k h = (find_model-Settled b store id l k h.0, settled_read ids l k h.1)

  has_settled :
      (id : ℤ) (ids : List ℤ) (l : List (ℤ × M))
      → All (Settled b store l) ids
      → has_id b store id ids ≡ true
      → Settled b store l id
  has_settled id [] l h e = absurd (ground (arith, e))
  has_settled id (x ∷ ids) l h e = elim (Bool-cases (eq_ℤ x id)) [
    | inl f ↦ subst (Settled b store l) (eq_sound b store x id f) h.0
    | inr f ↦ has_settled id ids l h.1 (ground (arith, e, f))
  ]

  none_left_out :
      (ids : List ℤ) (f : ModelReads b) (l : List (ℤ × M))
      → Extends b store f.models l
      → All (Settled b store l) f.missing
      → All (Covered b store f) ids
      → All (Settled b store l) ids
  none_left_out [] f l e h c = tt
  none_left_out (id ∷ ids) f l e h (inl g, c) = (e.1 id g, none_left_out ids f l e h c)
  none_left_out (id ∷ ids) f l e h (inr g, c) =
      (has_settled id f.missing l h g, none_left_out ids f l e h c)

  fetch_missing-AllRead :
      (ids : List ℤ) (f : ModelReads b) (s : S)
      → Selects b store
      → Stored b store f.models
      → All (Covered b store f) ids
      → AllRead (fetch_missing b s f).0 ids
  unfolding fetch_missing
  fetch_missing-AllRead ids f s selects k c =
      let (extends, there) =
        fetch_batches-Extends (length f.missing) f.missing (f.models, s) selects k (omega arith) in
      settled_read ids _ extends.0 (none_left_out ids f _ extends there c)

  nothing_cached :
      (ids : List ℤ) (f : ModelReads b)
      → ((id : ℤ) → has_id b store id ids ≡ true → Covered b store f id)
      → All (Covered b store f) ids
  nothing_cached [] f h = tt
  nothing_cached (id ∷ ids) f h =
      let same = (eq_ℤ_iff id id).1 refl in
      (h id (ground (arith, same)), nothing_cached ids f (λ x e. h x (ground (arith, e))))

  uncached_lem :
      (id : ℤ) (ids : List ℤ) (s : S)
      → b.has_cache ≡ false
      → fetch_models_by_ids b (id ∷ ids) s
        ≡ fetch_missing b s (record { models = []; missing = id ∷ ids })
  unfolding fetch_models_by_ids
  uncached_lem id ids s e = simp (fetch_models_by_ids, e)

  cached_lem :
      (id : ℤ) (ids : List ℤ) (s : S)
      → b.has_cache ≡ true
      → fetch_models_by_ids b (id ∷ ids) s ≡ (
          let answers = b.mget_model (map b.generate_cache_key (id ∷ ids)) s in
          fetch_missing b answers.1
            (read_cached b (id ∷ ids) answers.0 (record { models = []; missing = [] })))
  unfolding fetch_models_by_ids
  cached_lem id ids s e = simp (fetch_models_by_ids, e)

  -- Where the cache holds for each identifier at most a row of the store, or the marker NoneResult for
  -- one that the store does not have, and each statement reads rows of the store, all of those that
  -- it asks for, fetchModelsByIDsInternal finds for each identifier that it is asked for exactly
  -- what the store has, whether the cache hits, misses or fails, and with any number of batches.
  pub fetch_models_by_ids-AllRead :
      (ids : List ℤ) (s : S)
      → Remembers b store
      → Selects b store
      → AllRead (fetch_models_by_ids b ids s).0 ids
  unfolding fetch_models_by_ids
  fetch_models_by_ids-AllRead [] s remembers selects = tt
  fetch_models_by_ids-AllRead (id ∷ ids) s remembers selects = elim (Bool-cases b.has_cache) [
    | inr e ↦
        let start : ModelReads b = record { models = []; missing = id ∷ ids } in
        subst (λ t. AllRead t.0 (id ∷ ids)) (sym (uncached_lem id ids s e))
          (fetch_missing-AllRead (id ∷ ids) start s selects tt
            (nothing_cached (id ∷ ids) start (λ x h. inr h)))
    | inl e ↦
        let answers = b.mget_model (map b.generate_cache_key (id ∷ ids)) s in
        let start : ModelReads b = record { models = []; missing = [] } in
        let (stored, (grows, covered)) =
          read_cached-ReadWell b store (id ∷ ids) answers.0 start (remembers (id ∷ ids) s) tt in
        subst (λ t. AllRead t.0 (id ∷ ids)) (sym (cached_lem id ids s e))
          (fetch_missing-AllRead (id ∷ ids) (read_cached b (id ∷ ids) answers.0 start) answers.1
            selects stored covered)
  ]
