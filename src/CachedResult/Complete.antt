-- ===== src/CachedResult/Complete.antt =====
-- Fetch and All of query.go, where each row of the query is found and kept.
use thing.Prelude.{
  ℕ, zero, suc, ◌+◌, ◌-◌, ◌<◌, ℤ, pos, eq_ℤ, ltb, not, ◌&&◌, if◌then◌else◌, Bool, true, false,
  Option, none, List, [], ◌∷◌, ◌++◌, length, is_empty, map, ◌==◌, take, drop, take-drop,
  take-append, drop_prefix, drop_nil, drop-drop, append_assoc, length-take_all, length-append,
  length-drop, ◌≡◌, refl, sym, ap, subst, ◌∙◌, arith, Bool-cases, inl, inr, append_nil_lem,
}
use thing.CachedResult.Loops.{loop_done, loop_finish, loop_again, Round-cases}
use thing.CachedResult.{Answer, panicked, value, failed, CachedResult, Backend, World}
use thing.CachedResult.Count.{count}
use thing.CachedResult.Ids.{fetch_list, cache_list_count_limit}
use thing.CachedResult.Pages.{Pages, Loads}
use thing.CachedResult.Fetch.{
  Loop, kept_model, round, fetch_loop, to_nat, total_of, fetch, fetch_listed, fetch_range,
  fetch_counted, fetch_all, fetch_total, save_all,
}
use thing.CachedResult.Parts.{AllFound, Moved, PageRound, Tracks, round-PageRound}

take_nil : {A : Type 0} (n : ℕ) → take {A = A} n [] ≡ []
take_nil zero = refl
take_nil (suc n) = refl

map_append : {A B : Type 0} (f : A → B) (xs ys : List A) → map f (xs ++ ys) ≡ map f xs ++ map f ys
map_append f [] ys = refl
map_append f (x ∷ xs) ys = ap (λ r. f x ∷ r) (map_append f xs ys)

module _ {S M : Type 0} (b : Backend S M) (model : ℤ → M) where
  -- The models that are still to come.
  abbrev page : List ℤ → Loop S M → List M
  page ids l = l.results ++ map model (take l.remaining (drop l.offset ids))

  page-Moved :
      (ids : List ℤ) (l next : Loop S M) → Moved b model ids l next → page ids next ≡ page ids l
  page-Moved ids l next m =
      let left = take (l.remaining - length m.part) m.rest in
      let behind : drop next.offset ids ≡ m.rest =
        ap (λ o. drop o ids) m.offset_lem
        ∙ (sym (drop-drop l.offset (length m.part) ids)
            ∙ (ap (drop (length m.part)) (sym m.parts) ∙ drop_prefix m.part m.rest)) in
      let whole : take l.remaining (drop l.offset ids) ≡ m.part ++ left =
        ap (take l.remaining) (sym m.parts) ∙ take-append l.remaining m.part m.rest m.fits in
      rw (m.results_lem, m.remaining_lem, behind, whole, map_append)
        (append_assoc l.results (map model m.part) (map model left))

  Tracks-Moved :
      (ids : List ℤ) (store : ℤ → Option M) (l next : Loop S M)
      → Tracks b model ids store l
      → Moved b model ids l next
      → Tracks b model ids store next
  Tracks-Moved ids store l next t m = record {
    ready = subst (λ r. r.initialized ≡ true) (sym m.same) t.ready;
    beyond = t.beyond;
    first_part = subst (λ r. r.cached_ids ++ t.beyond ≡ ids) (sym m.same) t.first_part;
    pages = subst (λ r. Pages b r ids) (sym m.same) t.pages;
    found = subst (λ r. AllFound b model (kept_model b r store) ids) (sym m.same) t.found;
    limit_lem = m.limit_lem;
  }

  page_end : (ids : List ℤ) (l : Loop S M) → drop l.offset ids ≡ [] → l.results ≡ page ids l
  page_end ids l e = rw (e, take_nil l.remaining) (sym (append_nil_lem l.results))

  page_full : (ids : List ℤ) (l : Loop S M) → l.remaining ≡ 0 → l.results ≡ page ids l
  page_full ids l e = rw e (sym (append_nil_lem l.results))

  fetch_loop-page :
      (ids : List ℤ) (store : ℤ → Option M) (fuel : ℕ) (l : Loop S M)
      → Loads b store
      → Tracks b model ids store l
      → 0 < fuel
      → length ids < l.offset + fuel
      → (fetch_loop b (pos (length ids)) fuel l).0 ≡ value (page ids l)
  fetch_loop-page ids store zero l loads t h k = absurd (omega (arith, h))
  fetch_loop-page ids store (suc fuel) l loads t h k =
      let total = pos (length ids) in
      elim (Bool-cases (l.remaining == 0)) [
        | inl e ↦ loop_done b total fuel l e ∙ ap value (page_full ids l (ground (arith, e)))
        | inr e ↦
            let ran = round-PageRound b model ids store l loads t (ground (arith, e)) in
            elim (Round-cases b (round b total l)) [
              | inl (a, (w, f)) ↦
                  let (same, ended) = subst (PageRound b model ids l) f ran in
                  loop_finish b total fuel l a w e f ∙ (same ∙ ap value (page_end ids l ended))
              | inr (next, f) ↦
                  let m = subst (PageRound b model ids l) f ran in
                  let size = ap (λ v. length v) m.parts in
                  let below = length-append {0} m.part m.rest in
                  let cut = length-drop l.offset ids in
                  let read = m.some_part in
                  let moved = m.offset_lem in
                  ap (λ x. x.0) (loop_again b total fuel l next e f)
                  ∙ (fetch_loop-page ids store fuel next loads (Tracks-Moved ids store l next t m)
                        (omega (arith, size, below, cut, read, k)) (omega (arith, moved, read, k))
                      ∙ ap value (page-Moved ids l next m))
            ]
      ]

  -- A result that has loaded its list, of at most 200 identifiers, and its count.
  pub record HasLoaded (ids : List ℤ) (r : CachedResult M) : Type 0 where
    pub ready : r.initialized ≡ true
    pub no_error : r.init_error ≡ none
    pub list_loaded : r.has_loaded_ids ≡ true
    pub count_loaded : r.has_loaded_count ≡ true
    pub list_lem : r.cached_ids ≡ take cache_list_count_limit ids
    pub count_lem : r.cached_count ≡ pos (length ids)

  nothing_there :
      (ids : List ℤ) (o n : ℕ) (big : Bool)
      → is_empty (take cache_list_count_limit ids) ≡ true
      → value [] ≡ (
          if big && not (is_empty ids)
          then failed panicked
          else value (map model (take n (drop o ids))))
  nothing_there [] o n true h = rw (drop_nil o, take_nil n) refl
  nothing_there [] o n false h = rw (drop_nil o, take_nil n) refl
  nothing_there (x ∷ ids) o n big h = absurd (ground (arith, h))

  some_there :
      (ids : List ℤ) → is_empty (take cache_list_count_limit ids) ≡ false → is_empty ids ≡ false
  some_there [] h = absurd (ground (arith, h))
  some_there (x ∷ ids) h = refl

  -- Where a result has loaded its list and a count that is the number of all rows of the query, the
  -- database reads pages of one list of identifiers, and ByIDs finds a model for each of them that
  -- is kept, Fetch of an offset and a limit that are not negative returns exactly the models of the
  -- page of the whole list, also where it reaches behind the first 200 identifiers; where there are
  -- rows and the limit is above the largest capacity, it panics.
  pub fetch_page :
      (ids : List ℤ) (store : ℤ → Option M) (w : World S M) (offset limit : ℕ)
      → HasLoaded ids w.result
      → Pages b w.result ids
      → Loads b store
      → AllFound b model (kept_model b w.result store) ids
      → (fetch b (pos offset) (pos limit) w).0 ≡ (
          if ltb b.max_capacity limit && not (is_empty ids)
          then failed panicked
          else value (map model (take limit (drop offset ids))))
  unfolding fetch fetch_list fetch_listed count fetch_range fetch_counted
  fetch_page ids store w offset limit h pages loads found =
      elim (Bool-cases (is_empty w.result.cached_ids)) [
        | inl e ↦
            let none_listed = subst (λ l. is_empty l ≡ true) h.list_lem e in
            simp (fetch, fetch_list, fetch_listed, h.no_error, h.ready, h.list_loaded, e)
              (nothing_there ids offset limit (ltb b.max_capacity limit) none_listed)
        | inr e ↦
            let start : Loop S M = record {
              results = [];
              offset = offset;
              limit = limit;
              remaining = limit;
              invalidated = false;
              world = w;
            } in
            let tracks : Tracks b model ids store start = record {
              ready = h.ready;
              beyond = drop cache_list_count_limit ids;
              first_part =
                  ap (λ l. l ++ drop cache_list_count_limit ids) h.list_lem
                  ∙ take-drop cache_list_count_limit ids;
              pages = pages;
              found = found;
              limit_lem = refl;
            } in
            let fuel = length w.result.cached_ids + length ids + 2 in
            let listed = some_there ids (subst (λ l. is_empty l ≡ false) h.list_lem e) in
            elim (Bool-cases (ltb b.max_capacity limit)) [
              | inl big ↦ simp (
                fetch, fetch_list, fetch_listed, count, fetch_range, h.no_error, h.ready,
                h.list_loaded, e, big, listed,
              )
              | inr fits ↦
                  simp
                    (
                      fetch, fetch_list, fetch_listed, count, fetch_range, fetch_counted, total_of,
                      to_nat, h.no_error, h.ready, h.list_loaded, h.count_loaded, h.count_lem, e,
                      fits,
                    )
                    (fetch_loop-page ids store fuel start loads tracks (omega arith) (omega arith))
            ]
      ]

  counted_lem :
      (ids : List ℤ) (w : World S M)
      → HasLoaded ids w.result
      → count b w ≡ (value (pos (length ids)), w)
  unfolding count
  counted_lem ids w h = simp (count, h.ready, h.count_loaded, h.count_lem)

  save_all_lem : (t : Answer (List M) × World S M) → (save_all b t).0 ≡ t.0
  unfolding save_all
  save_all_lem (failed e, w) = refl
  save_all_lem (value ms, w) = refl

  -- Where a result has loaded its list and a count that is the number of all rows of the query, the
  -- database reads pages of one list of identifiers, and ByIDs finds a model for each of them that
  -- is kept, All returns the models of the whole list, if it has not loaded them before; where they
  -- are more than the largest capacity, it panics.
  pub fetch_all_lem :
      (ids : List ℤ) (store : ℤ → Option M) (w : World S M)
      → w.result.has_loaded_all ≡ false
      → HasLoaded ids w.result
      → Pages b w.result ids
      → Loads b store
      → AllFound b model (kept_model b w.result store) ids
      → (fetch_all b w).0
        ≡ (if ltb b.max_capacity (length ids) then failed panicked else value (map model ids))
  unfolding fetch_all count fetch_total
  fetch_all_lem [] store w fresh h pages loads found =
      let fits : ltb b.max_capacity 0 ≡ false = ground arith in
      rw (fetch_all, fresh, counted_lem [] w h, fits) refl
  fetch_all_lem (x ∷ ids) store w fresh h pages loads found =
      let n = length (x ∷ ids) in
      let whole = length-take_all n (x ∷ ids) (omega arith) in
      let large : (ltb b.max_capacity n && not (is_empty (x ∷ ids))) ≡ ltb b.max_capacity n =
        ground arith in
      let positive : eq_ℤ (pos n) (pos 0) ≡ false = ground arith in
      rw (fetch_all, fresh, counted_lem (x ∷ ids) w h, fetch_total, positive)
        (save_all_lem (fetch b (pos 0) (pos n) w)
          ∙ (fetch_page (x ∷ ids) store w 0 n h pages loads found
              ∙ (ap (λ t. if t then failed panicked else value (map model (take n (x ∷ ids)))) large
                  ∙ ap (λ l. if ltb b.max_capacity n then failed panicked else value (map model l))
                      whole)))
