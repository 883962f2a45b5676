-- ===== src/CachedResult/Loops.antt =====
-- The loop of Fetch in query.go, round by round.
use thing.Prelude.{
  ℕ, zero, suc, ◌+◌, ◌<◌, ◌≤◌, ℤ, pos, negsuc, ltb, Bool, true, false, List, length, ◌==◌, ◌≡◌, ◌≢◌,
  refl, sym, subst, ◌∙◌, arith, All, Bool-cases, inl, inr, ◌⊎◌,
}
use thing.Query.{QueryParams}
use thing.CachedResult.{Answer, value, failed, Backend, World, out_of_fuel, panicked, ids_failed}
use thing.CachedResult.Fetch.{Loop, Round, finish, again, round, fetch_loop, to_nat}
use thing.CachedResult.Rounds.{Kept, RoundWell, Inside, round-RoundWell}

module _ {S M : Type 0} (b : Backend S M) where
  -- Whether an offset and a limit make Fetch panic, if the list of the query is not empty: a negative
  -- limit, one above the largest capacity, or a negative offset with a limit above zero.
  abbrev pub unfit : ℤ → ℤ → Bool
  unfit offset (negsuc n) = true
  unfit (negsuc m) (pos n) = ltb 0 n
  unfit (pos m) (pos n) = ltb b.max_capacity n

  -- At most `limit` models, each of them kept, or an error: no lack of fuel, and a panic only where
  -- the arguments are unfit.
  abbrev pub Fetched : QueryParams → ℕ → Bool → Answer (List M) → Type 0
  Fetched params limit panics (value ms) = (length ms ≤ limit) × All (Kept b params) ms
  Fetched params limit panics (failed e) = (e ≢ out_of_fuel) × (e ≡ panicked → panics ≡ true)

  ended-Fetched :
      (params : QueryParams) (l : Loop S M) (limit : ℕ) (panics : Bool) (a : Answer (List M))
      → length l.results + l.remaining ≡ limit
      → All (Kept b params) l.results
      → (a ≡ value l.results) ⊎ (a ≡ failed ids_failed)
      → Fetched params limit panics a
  ended-Fetched params l limit panics a size kept (inl e) = rw e (omega (arith, size), kept)
  ended-Fetched params l limit panics a size kept (inr e) =
      rw e (λ h. ground (arith, h), λ h. absurd (ground (arith, h)))

  -- A round inside of the list or the total is not the last one of the fuel.
  fuel_left :
      (total : ℤ) (l : Loop S M) (fuel : ℕ)
      → Inside b total l
      → length l.world.result.cached_ids < l.offset + suc fuel
      → to_nat b total < l.offset + suc fuel
      → 0 < fuel
  fuel_left total l fuel (inl h) k g = omega (arith, h, k)
  fuel_left total l fuel (inr h) k g = omega (arith, h, g)

  pub loop_done :
      (total : ℤ) (fuel : ℕ) (l : Loop S M)
      → (l.remaining == 0) ≡ true
      → (fetch_loop b total (suc fuel) l).0 ≡ value l.results
  unfolding fetch_loop
  loop_done total fuel l h = rw (fetch_loop, h) refl

  pub loop_finish :
      (total : ℤ) (fuel : ℕ) (l : Loop S M) (a : Answer (List M)) (w : World S M)
      → (l.remaining == 0) ≡ false
      → round b total l ≡ finish a w
      → (fetch_loop b total (suc fuel) l).0 ≡ a
  unfolding fetch_loop
  loop_finish total fuel l a w h k = simp (fetch_loop, h, k)

  pub loop_again :
      (total : ℤ) (fuel : ℕ) (l next : Loop S M)
      → (l.remaining == 0) ≡ false
      → round b total l ≡ again next
      → fetch_loop b total (suc fuel) l ≡ fetch_loop b total fuel next
  unfolding fetch_loop
  loop_again total fuel l next h k = simp (fetch_loop, h, k)

  pub Round-cases :
      (t : Round S M)
      → ((a : Answer (List M)) × ((w : World S M) × (t ≡ finish a w)))
        ⊎ ((next : Loop S M) × (t ≡ again next))
  Round-cases (finish a w) = inl (a, (w, refl))
  Round-cases (again next) = inr (next, refl)

  pub fetch_loop-Fetched :
      (total : ℤ) (params : QueryParams) (limit : ℕ) (panics : Bool) (fuel : ℕ) (l : Loop S M)
      → length l.results + l.remaining ≡ limit
      → l.world.result.params ≡ params
      → All (Kept b params) l.results
      → 0 < fuel
      → length l.world.result.cached_ids < l.offset + fuel
      → to_nat b total < l.offset + fuel
      → Fetched params limit panics (fetch_loop b total fuel l).0
  fetch_loop-Fetched total params limit panics zero l size same kept h k g =
      absurd (omega (arith, h))
  fetch_loop-Fetched total params limit panics (suc fuel) l size same kept h k g =
      elim (Bool-cases (l.remaining == 0)) [
        | inl e ↦ rw (loop_done total fuel l e) (omega (arith, size), kept)
        | inr e ↦
            let well = round-RoundWell b total l (ground (arith, e)) in
            elim (Round-cases (round b total l)) [
              | inl (a, (w, f)) ↦ rw (loop_finish total fuel l a w e f) (
                  ended-Fetched params l limit panics a size kept
                    (subst (RoundWell b total l) f well))
              | inr (next, f) ↦
                  let (ahead, inside) = subst (RoundWell b total l) f well in
                  let stays = ahead.params_stay ∙ same in
                  let old = subst (λ q. All (Kept b q) l.results) (sym same) kept in
                  let new = subst (λ q. All (Kept b q) next.results) same (ahead.all_kept old) in
                  let more = fuel_left total l fuel inside k g in
                  let grows = ahead.offset_grows in
                  let shrinks = ahead.list_shrinks in
                  rw (loop_again total fuel l next e f) (
                    fetch_loop-Fetched total params limit panics fuel next (ahead.counted ∙ size)
                      stays new more (omega (arith, k, grows, shrinks)) (omega (arith, g, grows)))
            ]
      ]
