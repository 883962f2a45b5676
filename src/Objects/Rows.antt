-- ===== src/Objects/Rows.antt =====
-- What crud.go reads from the database in a batch, against a store of rows.
use thing.Prelude.{
  ℤ, pos, eq_ℤ, Bool, true, false, Option, none, some, List, [], ◌∷◌, any, map, All, ◌≡◌, refl, sym,
  subst, arith, Bool-cases, inl, inr, ◌⊎◌,
}
use thing.Objects.{
  ObjectSource, by_ids_query, RowBatch, add_row, add_rows, finish_batch, fetch_batch,
}
use thing.Objects.Reads.{Stored, Settled, settled_more, Answers}

module _ {S M : Type 0} (b : ObjectSource S M) (store : ℤ → Option M) where
  -- What the database promises: rows of the store with identifiers other than zero, and a row for
  -- each identifier that the store has.
  abbrev pub StoredRow : M → Type 0
  StoredRow m = (eq_ℤ (b.get_id m) (pos 0) ≡ false) × (store (b.get_id m) ≡ some (b.as_stored m))

  abbrev pub has_row : ℤ → List M → Bool
  has_row id rows = any (λ m. eq_ℤ (b.get_id m) id) rows

  abbrev pub Selects : Type 0
  Selects =
      (ids : List ℤ)
      → (rows : List M) × ((b.select_models (by_ids_query b ids) ids ≡ some rows)
          × (All StoredRow rows × All (λ id. (store id ≡ none) ⊎ (has_row id rows ≡ true)) ids))

  abbrev pub Remembers : Type 0
  Remembers =
      (ids : List ℤ) (s : S) → Answers b store ids (b.mget_model (map b.generate_cache_key ids) s).0

  -- What a batch or a few guarantee.
  abbrev pub Extends : List (ℤ × M) → List (ℤ × M) → Type 0
  Extends l k = Stored b store k × ((id : ℤ) → Settled b store l id → Settled b store k id)

  add_row_lem :
      (m : M) (t : RowBatch b)
      → StoredRow m
      → (add_row b m t).found ≡ (b.get_id m, b.as_stored m) ∷ t.found
  unfolding add_row
  add_row_lem m t h = rw (add_row, h.0) refl

  add_rows-Extends :
      (rows : List M) (t : RowBatch b)
      → All StoredRow rows
      → Stored b store t.found
      → Extends t.found (add_rows b rows t).found
        × ((id : ℤ) → has_row id rows ≡ true → Settled b store (add_rows b rows t).found id)
  unfolding add_rows
  add_rows-Extends [] t h k = ((k, λ id g. g), λ id g. absurd (ground (arith, g)))
  add_rows-Extends (m ∷ rows) t h k =
      let added = add_row_lem m t h.0 in
      let sound = subst (Stored b store) (sym added) (h.0.1, k) in
      let ((stored, grows), read) = add_rows-Extends rows (add_row b m t) h.1 sound in
      let keep : (id : ℤ)
          → Settled b store ((b.get_id m, b.as_stored m) ∷ t.found) id
          → Settled b store (add_rows b rows (add_row b m t)).found id =
        λ id g. grows id (subst (λ l. Settled b store l id) (sym added) g) in
      (
        (stored, λ id g. keep id (settled_more b store id (b.get_id m) (b.as_stored m) t.found g)),
        λ id g. elim (Bool-cases (eq_ℤ (b.get_id m) id)) [
          | inl e ↦ keep id (inr (ground (arith, e)))
          | inr e ↦ read id (ground (arith, g, e))
        ],
      )

  rows_seen :
      (ids : List ℤ) (rows : List M) (l : List (ℤ × M))
      → ((id : ℤ) → has_row id rows ≡ true → Settled b store l id)
      → All (λ id. (store id ≡ none) ⊎ (has_row id rows ≡ true)) ids
      → All (Settled b store l) ids
  rows_seen [] rows l here h = tt
  rows_seen (id ∷ ids) rows l here (inl e, h) = (inl e, rows_seen ids rows l here h)
  rows_seen (id ∷ ids) rows l here (inr e, h) = (here id e, rows_seen ids rows l here h)

  pub fetch_batch-Extends :
      (ids : List ℤ) (t : List (ℤ × M) × S)
      → Selects
      → Stored b store t.0
      → Extends t.0 (fetch_batch b ids t).0 × All (Settled b store (fetch_batch b ids t).0) ids
  unfolding fetch_batch finish_batch
  fetch_batch-Extends ids (found, s) selects k =
      let (rows, (read, (stored, complete))) = selects ids in
      let start : RowBatch b = record { found = found; fetched = []; cache = s } in
      let (extends, here) = add_rows-Extends rows start stored k in
      simp (fetch_batch, read, finish_batch) (extends, rows_seen ids rows _ here complete)
