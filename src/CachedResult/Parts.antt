-- ===== src/CachedResult/Parts.antt =====
-- A round of Fetch in query.go that reads a part of the list of a query.
use thing.Prelude.{
  ℕ, zero, suc, ◌+◌, ◌-◌, ◌<◌, ◌≤◌, ℤ, pos, ltb_ℤ, Bool, true, false, Option, some, List, [], ◌∷◌,
  ◌++◌, length, is_empty, map, ltb, ◌==◌, take, drop, take-drop, drop-append, drop_all, All-drop,
  All-prefix, append_assoc, length-take_bound, length-drop, ◌≡◌, refl, sym, ap, subst, ◌∙◌, arith,
  All, Bool-cases, inl, inr,
}
use thing.CachedResult.{value, CachedResult, Backend}
use thing.CachedResult.Pages.{Pages, Loads, Agree, fetch_ids_lem}
use thing.CachedResult.Fetch.{
  Loop, Round, finish, again, batch_of, kept_model, pick, add_model, invalidated_if, loaded_round,
  round_with, round,
}

-- A part that is not empty.
empty_take : {A : Type 0} (n : ℕ) (xs : List A) → 0 < n → is_empty (take n xs) ≡ true → xs ≡ []
empty_take zero xs h e = absurd (omega (arith, h))
empty_take (suc n) [] h e = refl
empty_take (suc n) (x ∷ xs) h e = absurd (ground (arith, e))

module _ {S M : Type 0} (b : Backend S M) (model : ℤ → M) where
  abbrev pub AllFound : (ℤ → Option M) → List ℤ → Type 0
  AllFound f xs = All (λ id. f id ≡ some (model id)) xs

  pick-AllFound :
      (f : ℤ → Option M) (from_cache : Bool) (xs : List ℤ) (n : ℕ)
      → 0 < n
      → length xs ≤ n
      → AllFound f xs
      → pick b f from_cache xs n ≡ record {
        models = map model xs;
        processed = length xs;
        remaining = n - length xs;
        issue = false;
      }
  unfolding pick
  pick-AllFound f from_cache [] n h k found = let e : n - 0 ≡ n = omega arith in rw e refl
  pick-AllFound f from_cache (x ∷ []) n h k found = elim (Bool-cases (n == 1)) [
    | inl one ↦ let e : n - 1 ≡ 0 = ground (arith, one) in rw (pick, found.0, one, e) refl
    | inr more ↦ rw (pick, found.0, more) refl
  ]
  pick-AllFound f from_cache (x ∷ y ∷ xs) n h k found =
      let more : (n == 1) ≡ false = ground (arith, k) in
      let ih =
        pick-AllFound f from_cache (y ∷ xs) (n - 1) (omega (arith, k)) (omega (arith, k)) found.1 in
      let e : (n - 1) - suc (length xs) ≡ n - suc (suc (length xs)) = omega arith in
      rw (pick, found.0, more) (ap (add_model b (model x)) ih ∙ rw e refl)

  kept_model-AllFound :
      (r : CachedResult M) (f g : ℤ → Option M) (xs : List ℤ)
      → Agree b f g xs
      → AllFound (kept_model b r g) xs
      → AllFound (kept_model b r f) xs
  unfolding kept_model
  kept_model-AllFound r f g [] h k = tt
  kept_model-AllFound r f g (x ∷ xs) h k =
      (simp (kept_model, h.0) k.0, kept_model-AllFound r f g xs h.1 k.1)

  -- What a round that reads a part of a list does to the loop.
  pub record Moved (ids : List ℤ) (l next : Loop S M) : Type 0 where
    pub part : List ℤ
    pub rest : List ℤ
    pub parts : part ++ rest ≡ drop l.offset ids
    pub some_part : 0 < length part
    pub fits : length part ≤ l.remaining
    pub results_lem : next.results ≡ l.results ++ map model part
    pub offset_lem : next.offset ≡ l.offset + length part
    pub remaining_lem : next.remaining ≡ l.remaining - length part
    pub limit_lem : next.limit ≡ next.remaining
    pub same : next.world.result ≡ l.world.result

  -- The round ends behind the list, or moves on.
  abbrev pub PageRound : List ℤ → Loop S M → Round S M → Type 0
  PageRound ids l (finish a w) = (a ≡ value l.results) × (drop l.offset ids ≡ [])
  PageRound ids l (again next) = Moved ids l next

  round_with-PageRound :
      (ids : List ℤ) (store : ℤ → Option M) (from_cache : Bool) (xs rest : List ℤ) (l : Loop S M)
      → Loads b store
      → AllFound (kept_model b l.world.result store) xs
      → 0 < l.remaining
      → length xs ≤ l.remaining
      → xs ++ rest ≡ drop l.offset ids
      → (is_empty xs ≡ true → rest ≡ [])
      → PageRound ids l (round_with b from_cache xs l)
  unfolding round_with
  round_with-PageRound ids store from_cache [] rest l loads found h k parts last =
      (refl, sym parts ∙ last refl)
  round_with-PageRound ids store from_cache (x ∷ xs) rest l loads found h k parts last =
      let (models, (read, agree)) = loads (x ∷ xs) l.world.result.params.preloads l.world.cache in
      let usable = kept_model-AllFound l.world.result models store (x ∷ xs) agree found in
      let picked =
        pick-AllFound (kept_model b l.world.result models) from_cache (x ∷ xs) l.remaining h k
          usable in
      simp (round_with, read, picked, loaded_round, invalidated_if)
        (record {
          part = x ∷ xs;
          rest = rest;
          parts = parts;
          some_part = omega arith;
          fits = k;
          results_lem = refl;
          offset_lem = refl;
          remaining_lem = refl;
          limit_lem = refl;
          same = refl;
        })

  -- A loop over a result whose cached list is a first part of the list of the query.
  pub record Tracks (ids : List ℤ) (store : ℤ → Option M) (l : Loop S M) : Type 0 where
    pub ready : l.world.result.initialized ≡ true
    pub beyond : List ℤ
    pub first_part : l.world.result.cached_ids ++ beyond ≡ ids
    pub pages : Pages b l.world.result ids
    pub found : AllFound (kept_model b l.world.result store) ids
    pub limit_lem : l.limit ≡ l.remaining

  found_part :
      (f : ℤ → Option M) (ids xs rest : List ℤ) (n : ℕ)
      → AllFound f ids
      → xs ++ rest ≡ drop n ids
      → AllFound f xs
  found_part f ids xs rest n found parts =
      All-prefix _ xs rest (subst (AllFound f) (sym parts) (All-drop _ n ids found))

  cached_part :
      (o m : ℕ) (list beyond ids : List ℤ)
      → o ≤ length list
      → list ++ beyond ≡ ids
      → take m (drop o list) ++ (drop m (drop o list) ++ beyond) ≡ drop o ids
  cached_part o m list beyond ids h e =
      sym (append_assoc (take m (drop o list)) (drop m (drop o list)) beyond)
      ∙ (ap (λ l. l ++ beyond) (take-drop m (drop o list))
          ∙ (sym (drop-append o list beyond h) ∙ ap (drop o) e))

  round_cached :
      (ids : List ℤ) (store : ℤ → Option M) (l : Loop S M) (m : ℕ)
      → Loads b store
      → Tracks ids store l
      → l.offset < length l.world.result.cached_ids
      → 0 < m
      → m ≤ l.remaining
      → PageRound ids l (round_with b true (take m (drop l.offset l.world.result.cached_ids)) l)
  round_cached ids store l m loads t h k g =
      let list = l.world.result.cached_ids in
      let xs = take m (drop l.offset list) in
      let rest = drop m (drop l.offset list) ++ t.beyond in
      let parts = cached_part l.offset m list t.beyond ids (omega (arith, h)) t.first_part in
      round_with-PageRound ids store true xs rest l loads
        (found_part (kept_model b l.world.result store) ids xs rest l.offset t.found parts)
        (omega (arith, k, g)) (omega (arith, length-take_bound m (drop l.offset list), g)) parts
        (λ e. absurd (
          let none_left = empty_take m (drop l.offset list) k e in
          omega (arith, length-drop l.offset list, ap (λ v. length v) none_left, h)))

  round_stored :
      (ids : List ℤ) (store : ℤ → Option M) (l : Loop S M)
      → Loads b store
      → Tracks ids store l
      → 0 < l.remaining
      → PageRound ids l (round_with b false (take l.limit (drop l.offset ids)) l)
  round_stored ids store l loads t h =
      let xs = take l.limit (drop l.offset ids) in
      let rest = drop l.limit (drop l.offset ids) in
      let parts = take-drop l.limit (drop l.offset ids) in
      round_with-PageRound ids store false xs rest l loads
        (found_part (kept_model b l.world.result store) ids xs rest l.offset t.found parts) h
        (omega (arith, length-take_bound l.limit (drop l.offset ids), t.limit_lem)) parts
        (λ e.
          let none_left =
            empty_take l.limit (drop l.offset ids) (omega (arith, h, t.limit_lem)) e in
          ap (drop l.limit) none_left ∙ drop_all l.limit [] (omega arith))

  pub round-PageRound :
      (ids : List ℤ) (store : ℤ → Option M) (l : Loop S M)
      → Loads b store
      → Tracks ids store l
      → 0 < l.remaining
      → PageRound ids l (round b (pos (length ids)) l)
  unfolding round batch_of
  round-PageRound ids store l loads t h =
      let available = length l.world.result.cached_ids - l.offset in
      elim (Bool-cases (ltb l.offset (length l.world.result.cached_ids))) [
        | inl e ↦ elim (Bool-cases (ltb available l.limit)) [
          | inl f ↦
              simp (round, batch_of, e, f)
                (round_cached ids store l available loads t (ground (arith, e)) (ground (arith, e))
                  (ground (arith, f, t.limit_lem)))
          | inr f ↦
              simp (round, batch_of, e, f)
                (round_cached ids store l l.limit loads t (ground (arith, e))
                  (omega (arith, h, t.limit_lem)) (omega (arith, t.limit_lem)))
        ]
        | inr e ↦ elim (Bool-cases (ltb_ℤ (pos l.offset) (pos (length ids)))) [
          | inr f ↦ simp (round, batch_of, e, f) (refl, drop_all l.offset ids (ground (arith, f)))
          | inl f ↦
              simp
                (
                  round,
                  batch_of,
                  e,
                  f,
                  fetch_ids_lem b l.world.result ids t.ready t.pages l.offset l.limit,
                )
                (round_stored ids store l loads t h)
        ]
      ]
