-- ===== src/Objects/Reads.antt =====
-- What crud.go reads from the cache of models, against a store of rows.
use thing.Prelude.{
  ℤ, eq_ℤ, eq_ℤ_iff, Bool, true, false, Option, none, some, List, [], ◌∷◌, ◌++◌, any, any-append,
  All, ◌≡◌, refl, sym, ap, ◌∙◌, arith, Bool-cases, inl, inr, ◌⊎◌,
}
use thing.Objects.{
  ModelRead, hit, none_result, not_found, broken, ObjectSource, ModelReads, read_cached, find_model,
}

module _ {S M : Type 0} (b : ObjectSource S M) (store : ℤ → Option M) where
  -- Entries that are rows of the store.
  abbrev pub Stored : List (ℤ × M) → Type 0
  Stored l = All (λ e. store e.0 ≡ some e.1) l

  abbrev has_model : ℤ → List (ℤ × M) → Bool
  has_model id l = any (λ e. eq_ℤ e.0 id) l

  -- An identifier that the store does not have, or that has an entry.
  abbrev pub Settled : List (ℤ × M) → ℤ → Type 0
  Settled l id = (store id ≡ none) ⊎ (has_model id l ≡ true)

  pub eq_sound : (a c : ℤ) → eq_ℤ a c ≡ true → a ≡ c
  eq_sound a c h = (eq_ℤ_iff a c).0 h

  later :
      (id k : ℤ) (m : M) (l : List (ℤ × M))
      → Settled ((k, m) ∷ l) id
      → eq_ℤ k id ≡ false
      → Settled l id
  later id k m l (inl n) e = inl n
  later id k m l (inr y) e = inr (ground (arith, y, e))

  pub find_model-Settled :
      (id : ℤ) (l : List (ℤ × M)) → Stored l → Settled l id → find_model b id l ≡ store id
  unfolding find_model
  find_model-Settled id [] h (inl e) = sym e
  find_model-Settled id [] h (inr e) = absurd (ground (arith, e))
  find_model-Settled id ((k, m) ∷ l) h g = elim (Bool-cases (eq_ℤ k id)) [
    | inl e ↦ let same = eq_sound k id e in rw e (sym (h.0) ∙ ap store same)
    | inr e ↦ rw e (find_model-Settled id l h.1 (later id k m l g e))
  ]

  -- What the cache promises: one answer for each key; a hit is a row of the store, and a marker
  -- stands for a row that the store does not have.
  pub data Answers : List ℤ → List (ModelRead M) → Type 0 where
    done : Answers [] []
    hits :
        {id : ℤ} {m : M} {ids : List ℤ} {reads : List (ModelRead M)}
        → store id ≡ some (b.as_stored m)
        → Answers ids reads
        → Answers (id ∷ ids) (hit m ∷ reads)
    marked :
        {id : ℤ} {ids : List ℤ} {reads : List (ModelRead M)}
        → store id ≡ none
        → Answers ids reads
        → Answers (id ∷ ids) (none_result ∷ reads)
    misses :
        {id : ℤ} {ids : List ℤ} {reads : List (ModelRead M)}
        → Answers ids reads
        → Answers (id ∷ ids) (not_found ∷ reads)
    breaks :
        {id : ℤ} {ids : List ℤ} {reads : List (ModelRead M)}
        → Answers ids reads
        → Answers (id ∷ ids) (broken ∷ reads)

  abbrev pub has_id : ℤ → List ℤ → Bool
  has_id id ids = any (λ x. eq_ℤ x id) ids

  -- Settled, or missing.
  abbrev pub Covered : ModelReads b → ℤ → Type 0
  Covered f id = Settled f.models id ⊎ (has_id id f.missing ≡ true)

  abbrev Grows : ModelReads b → ModelReads b → Type 0
  Grows f g = (id : ℤ) → Covered f id → Covered g id

  pub settled_more : (id k : ℤ) (m : M) (l : List (ℤ × M)) → Settled l id → Settled ((k, m) ∷ l) id
  settled_more id k m l (inl n) = inl n
  settled_more id k m l (inr y) = inr (ground (arith, y))

  settled_here : (id : ℤ) (m : M) (l : List (ℤ × M)) → Settled ((id, m) ∷ l) id
  settled_here id m l = let same = (eq_ℤ_iff id id).1 refl in inr (ground (arith, same))

  entry_kept :
      (id k : ℤ) (m : M) (f : ModelReads b)
      → Covered f id
      → Covered (record f { models = (k, m) ∷ f.models }) id
  entry_kept id k m f (inl h) = inl (settled_more id k m f.models h)
  entry_kept id k m f (inr h) = inr h

  has_id-append : (id : ℤ) (xs ys : List ℤ) → has_id id xs ≡ true → has_id id (xs ++ ys) ≡ true
  has_id-append id xs ys h = ground (arith, any-append (λ x. eq_ℤ x id) xs ys, h)

  missing_more :
      (id k : ℤ) (f : ModelReads b)
      → Covered f id
      → Covered (record f { missing = f.missing ++ (k ∷ []) }) id
  missing_more id k f (inl h) = inl h
  missing_more id k f (inr h) = inr (has_id-append id f.missing (k ∷ []) h)

  missing_here :
      (id : ℤ) (f : ModelReads b) → Covered (record f { missing = f.missing ++ (id ∷ []) }) id
  missing_here id f =
      let same = (eq_ℤ_iff id id).1 refl in
      inr (ground (arith, any-append (λ x. eq_ℤ x id) f.missing (id ∷ []), same))

  -- What the loop over the answers guarantees.
  abbrev ReadWell : List ℤ → ModelReads b → ModelReads b → Type 0
  ReadWell ids f g = Stored g.models × (Grows f g × All (Covered g) ids)

  pub read_cached-ReadWell :
      (ids : List ℤ) (reads : List (ModelRead M)) (f : ModelReads b)
      → Answers ids reads
      → Stored f.models
      → ReadWell ids f (read_cached b ids reads f)
  unfolding read_cached
  read_cached-ReadWell [] [] f done h = (h, (λ id c. c, tt))
  read_cached-ReadWell [] (r ∷ reads) f a h = elim a [ ]
  read_cached-ReadWell (id ∷ ids) [] f a h = elim a [ ]
  read_cached-ReadWell (id ∷ ids) (hit m ∷ reads) f (hits e a) h =
      let next : ModelReads b = record f { models = (id, b.as_stored m) ∷ f.models } in
      let (sound, (grows, all)) = read_cached-ReadWell ids reads next a (e, h) in
      (
        sound,
        (
          λ x c. grows x (entry_kept x id (b.as_stored m) f c),
          (grows id (inl (settled_here id (b.as_stored m) f.models)), all),
        ),
      )
  read_cached-ReadWell (id ∷ ids) (none_result ∷ reads) f (marked e a) h =
      let (sound, (grows, all)) = read_cached-ReadWell ids reads f a h in
      (sound, (grows, (grows id (inl (inl e)), all)))
  read_cached-ReadWell (id ∷ ids) (not_found ∷ reads) f (misses a) h =
      let next : ModelReads b = record f { missing = f.missing ++ (id ∷ []) } in
      let (sound, (grows, all)) = read_cached-ReadWell ids reads next a h in
      (sound, (λ x c. grows x (missing_more x id f c), (grows id (missing_here id f), all)))
  read_cached-ReadWell (id ∷ ids) (broken ∷ reads) f (breaks a) h =
      let next : ModelReads b = record f { missing = f.missing ++ (id ∷ []) } in
      let (sound, (grows, all)) = read_cached-ReadWell ids reads next a h in
      (sound, (λ x c. grows x (missing_more x id f c), (grows id (missing_here id f), all)))
