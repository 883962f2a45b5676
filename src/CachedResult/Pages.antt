-- ===== src/CachedResult/Pages.antt =====
-- What a database and ByIDs promise to query.go: the statement of a query, with a limit and an
-- offset, reads a part of one list, and the models of its identifiers are found and read.
use thing.Prelude.{
  ℕ, zero, suc, ◌<◌, ℤ, Str, Bool, ◌||◌, true, false, is_empty, length, ltb, Bool-cases, inl, inr,
  ◌⊎◌, take_short, length-take_bound, drop-drop, ap, sym, ◌∙◌, ◌+◌, Option, none, some, List, [],
  ◌∷◌, take, drop, ◌≡◌, refl, arith, All,
}
use thing.CachedResult.{value, CachedResult, Backend}
use thing.CachedResult.Ids.{ids_statement, paged, fetch_ids_from_db, is_kept}

module _ {S M : Type 0} (b : Backend S M) where
  -- LIMIT and OFFSET read a part of the list that the statement without them would read.
  abbrev pub Pages : CachedResult M → List ℤ → Type 0
  Pages r ids =
      (offset limit : ℕ)
      → b.select_ids (paged b (ids_statement b r).0 offset limit) (ids_statement b r).1
        ≡ some (take limit (drop offset ids))

  abbrev pub Agree : (ℤ → Option M) → (ℤ → Option M) → List ℤ → Type 0
  Agree f g xs = All (λ id. f id ≡ g id) xs

  -- ByIDs answers, with the models of the store for the identifiers that it is asked for.
  abbrev pub Loads : (ℤ → Option M) → Type 0
  Loads store =
      (xs : List ℤ) (preloads : List Str) (s : S)
      → (models : ℤ → Option M) × (((b.by_ids xs preloads s).0 ≡ some models)
          × Agree models store xs)

  -- Whether the store has a model for an identifier that a query shows: one that KeepItem passes, or
  -- any, where the query includes deleted rows.
  abbrev pub shown : CachedResult M → (ℤ → Option M) → ℤ → Bool
  shown r store id = elim (store id) [
    | none ↦ false
    | some m ↦ r.params.include_deleted || b.keep_item m
  ]

  pub is_kept-shown :
      (r : CachedResult M) (store : ℤ → Option M) (id : ℤ) → is_kept b r store id ≡ shown r store id
  unfolding is_kept
  is_kept-shown r store id = refl

  pub fetch_ids_lem :
      (r : CachedResult M) (ids : List ℤ)
      → r.initialized ≡ true
      → Pages r ids
      → (offset limit : ℕ)
      → fetch_ids_from_db b r offset limit ≡ value (take limit (drop offset ids))
  unfolding fetch_ids_from_db
  fetch_ids_lem r ids i h offset limit = simp (fetch_ids_from_db, i, h offset limit)

  pub is_kept-Agree :
      (r : CachedResult M) (f g : ℤ → Option M) (id : ℤ)
      → f id ≡ g id
      → is_kept b r f id ≡ is_kept b r g id
  unfolding is_kept
  is_kept-Agree r f g id e = rw (is_kept, e) refl

-- A page is empty at the end of the list, short for the last part of it, or full.
module _ (n : ℕ) (xs : List ℤ) where
  abbrev Ended : Type 0
  Ended = (take n xs ≡ []) × (xs ≡ [])

  abbrev Last : Type 0
  Last = (is_empty (take n xs) ≡ false) × ((ltb (length (take n xs)) n ≡ true) × (take n xs ≡ xs))

  abbrev Full : Type 0
  Full =
      (is_empty (take n xs) ≡ false)
      × ((ltb (length (take n xs)) n ≡ false) × (length (take n xs) ≡ n))

pub page-cases : (n : ℕ) (xs : List ℤ) → 0 < n → Ended n xs ⊎ (Last n xs ⊎ Full n xs)
page-cases zero xs h = absurd (omega (arith, h))
page-cases (suc n) [] h = inl (refl, refl)
page-cases (suc n) (x ∷ xs) h = elim (Bool-cases (ltb (length (take (suc n) (x ∷ xs))) (suc n))) [
  | inl e ↦ inr (inl (refl, (e, take_short (suc n) (x ∷ xs) (ground (arith, e)))))
  | inr e ↦ inr (inr (refl, (e, ground (arith, e, length-take_bound (suc n) (x ∷ xs)))))
]

pub drop_page :
    (n offset : ℕ) (ids : List ℤ)
    → length (take n (drop offset ids)) ≡ n
    → drop (offset + length (take n (drop offset ids))) ids ≡ drop n (drop offset ids)
drop_page n offset ids size = ap (λ k. drop (offset + k) ids) size ∙ sym (drop-drop offset n ids)
