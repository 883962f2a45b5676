-- ===== src/SqlBuilder/Expand.antt =====
-- The IN clauses that ExpandInClauses of internal/sqlbuilder/sqlbuilder.go expands.
use thing.Prelude.{
  ℕ, ◌≤◌, Str, true, false, none, List, [], ◌∷◌, ◌++◌, length, ◌==◌, ◌≡◌, refl, arith, Bool-cases,
  Option-cases, All, length-append, inl, inr,
}
use thing.Value.{Value}
use thing.SqlBuilder.{
  Piece, slice_items, plain_mark, expanded_mark, piece, in_clause, expand_from, expand_in_clauses,
}
use thing.SqlBuilder.Marks.{marks, marks-append, marks-marks_for}

-- A piece holds a mark for each of its arguments, and one argument is taken.
abbrev Fits : Value → List Value → Piece → Type 0
Fits v args p = (marks p.text ≡ length p.used) × (p.left ≡ args)

plain_mark-Fits : (v : Value) (args : List Value) → Fits v args (plain_mark (v ∷ args))
unfolding plain_mark marks
plain_mark-Fits v args = (refl, refl)

expanded_mark-Fits : (v : Value) (args : List Value) → Fits v args (expanded_mark (v ∷ args))
unfolding expanded_mark
expanded_mark-Fits v args = elim (Option-cases (slice_items v)) [
  | inl e ↦ rw (e, expanded_mark) (plain_mark-Fits v args)
  | inr (items, e) ↦ rw (e, expanded_mark) (marks-marks_for items, refl)
]

piece-Fits :
    (c : ℕ) (before rest : Str) (v : Value) (args : List Value)
    → (c == 63) ≡ true
    → Fits v args (piece c before rest (v ∷ args))
unfolding piece
piece-Fits c before rest v args h = elim (Bool-cases (in_clause before rest)) [
  | inl e ↦ rw (piece, h, e) (expanded_mark-Fits v args)
  | inr e ↦ rw (piece, h, e) (plain_mark-Fits v args)
]

other_lem :
    (c : ℕ) (before rest : Str) (args : List Value)
    → (c == 63) ≡ false
    → piece c before rest args ≡ record { text = c ∷ []; used = []; left = args }
unfolding piece
other_lem c before rest args h = rw h refl

-- The marks and the arguments agree for a piece and what follows it.
join_balanced :
    (p : Piece) (r : Str × List Value)
    → marks p.text ≡ length p.used
    → marks r.0 ≡ length r.1
    → marks (p.text ++ r.0) ≡ length (p.used ++ r.1)
join_balanced p r h k = omega (arith, marks-append p.text r.0, length-append {0} p.used r.1, h, k)

expand_from_balanced :
    (before s : Str) (args : List Value)
    → marks s ≤ length args
    → let r = expand_from before s args in marks r.0 ≡ length r.1
unfolding expand_from marks
expand_from_balanced before [] args h = refl
expand_from_balanced before (c ∷ s) [] h = elim (Bool-cases (c == 63)) [
  | inr e ↦
      let ih = expand_from_balanced (c ∷ before) s [] (ground (arith, h, e)) in
      rw (other_lem c before s [] e, e) ih
  | inl e ↦ absurd (ground (arith, h, e))
]
expand_from_balanced before (c ∷ s) (v ∷ args) h = elim (Bool-cases (c == 63)) [
  | inr e ↦
      let ih = expand_from_balanced (c ∷ before) s (v ∷ args) (ground (arith, h, e)) in
      rw (other_lem c before s (v ∷ args) e, e) ih
  | inl e ↦
      let fits = piece-Fits c before s v args e in
      let ih = expand_from_balanced (c ∷ before) s args (ground (arith, h, e)) in
      join_balanced (piece c before s (v ∷ args)) _ fits.0 (rw fits.1 ih)
]

-- With at least one argument for each mark of the clause, ExpandInClauses returns a clause that
-- has exactly one mark for each argument that it returns.
pub expand_in_clauses_balanced :
    (s : Str) (args : List Value)
    → marks s ≤ length args
    → let r = expand_in_clauses s args in marks r.0 ≡ length r.1
unfolding expand_in_clauses
expand_in_clauses_balanced s args h = expand_from_balanced [] s args h

-- Not a slice.
abbrev Plain : Value → Type 0
Plain v = slice_items v ≡ none

expanded_mark-Plain : (args : List Value) → All Plain args → expanded_mark args ≡ plain_mark args
unfolding expanded_mark
expanded_mark-Plain [] h = refl
expanded_mark-Plain (v ∷ args) h = rw (expanded_mark, h.0) refl

piece-Plain :
    (c : ℕ) (before rest : Str) (args : List Value)
    → (c == 63) ≡ true
    → All Plain args
    → piece c before rest args ≡ plain_mark args
unfolding piece
piece-Plain c before rest args h k = elim (Bool-cases (in_clause before rest)) [
  | inl e ↦ rw (piece, h, e) (expanded_mark-Plain args k)
  | inr e ↦ rw (piece, h, e) refl
]

expand_from-Plain :
    (before s : Str) (args : List Value)
    → marks s ≡ length args
    → All Plain args
    → expand_from before s args ≡ (s, args)
unfolding expand_from marks plain_mark
expand_from-Plain before [] [] h k = refl
expand_from-Plain before [] (v ∷ args) h k = absurd (ground (arith, h))
expand_from-Plain before (c ∷ s) [] h k = elim (Bool-cases (c == 63)) [
  | inr e ↦
      rw (other_lem c before s [] e, expand_from-Plain (c ∷ before) s [] (ground (arith, h, e)) k)
        refl
  | inl e ↦ absurd (ground (arith, h, e))
]
expand_from-Plain before (c ∷ s) (v ∷ args) h k = elim (Bool-cases (c == 63)) [
  | inr e ↦
      let ih = expand_from-Plain (c ∷ before) s (v ∷ args) (ground (arith, h, e)) k in
      rw (other_lem c before s (v ∷ args) e, ih) refl
  | inl e ↦
      let ih = expand_from-Plain (c ∷ before) s args (ground (arith, h, e)) k.1 in
      let mark : c ≡ 63 = ground (arith, e) in
      rw (piece-Plain c before s (v ∷ args) e k, ih, mark) refl
]

-- ExpandInClauses returns a clause with as many marks as arguments, none of which is a slice, and
-- the arguments, as they are.
pub expand_in_clauses-Plain :
    (s : Str) (args : List Value)
    → marks s ≡ length args
    → All Plain args
    → expand_in_clauses s args ≡ (s, args)
unfolding expand_in_clauses
expand_in_clauses-Plain s args h k = expand_from-Plain [] s args h k
