-- ===== src/SqlBuilder/Marks.antt =====
-- The marks '?' of the statements of internal/sqlbuilder/sqlbuilder.go, counted.
use thing.Prelude.{
  ℕ, suc, ◌+◌, Str, List, [], ◌∷◌, ◌++◌, map, length, ◌==◌, if◌then◌else◌, ◌≡◌, refl, arith, All,
  ◌∙◌,
}
use thing.Value.{Value}
use thing.SqlBuilder.{
  Dialector, mysql_dialector, sqlite_dialector, marks_for, join, comma_space, placeholders,
  set_parts, replace_mark,
}

-- The number of bytes 63.
unfoldable pub marks : Str → ℕ
marks [] = 0
marks (c ∷ s) = if c == 63 then suc (marks s) else marks s

pub marks-append : (s t : Str) → marks (s ++ t) ≡ marks s + marks t
unfolding marks
marks-append [] t = omega arith
marks-append (c ∷ s) t = ground (arith, marks-append s t)

-- A list of texts that hold one mark each.
unfoldable pub marks_of : List Str → ℕ
marks_of [] = 0
marks_of (s ∷ rest) = marks s + marks_of rest

pub marks-join : (parts : List Str) → marks (join comma_space parts) ≡ marks_of parts
unfolding marks join marks_of
marks-join [] = refl
marks-join (s ∷ []) = omega arith
marks-join (s ∷ t ∷ rest) =
    let ih = marks-join (t ∷ rest) in
    let e = marks-append s (comma_space ++ join comma_space (t ∷ rest)) in ground (arith, e, ih)

question_marks : List Value → List Str
question_marks vs = map (λ v. 63 ∷ []) vs

marks_of-question_marks : (vs : List Value) → marks_of (question_marks vs) ≡ length vs
unfolding question_marks marks_of marks
marks_of-question_marks [] = refl
marks_of-question_marks (v ∷ vs) = omega (arith, marks_of-question_marks vs)

pub marks-marks_for : (vs : List Value) → marks (marks_for vs) ≡ length vs
unfolding marks_for question_marks
marks-marks_for [] = unfold marks in refl
marks-marks_for (v ∷ vs) = marks-join (question_marks (v ∷ vs)) ∙ marks_of-question_marks (v ∷ vs)

-- Dialects that write every placeholder as one mark and whose quotes add no mark.
abbrev pub MarkDialect : Dialector → Type 0
MarkDialect d = ((i : ℕ) → marks (d.placeholder i) ≡ 1) × ((s : Str) → marks (d.quote s) ≡ marks s)

pub marks_of-placeholders :
    (d : Dialector)
    → MarkDialect d
    → (i : ℕ) (columns : List Str) → marks_of (placeholders d i columns) ≡ length columns
unfolding placeholders marks_of
marks_of-placeholders d h i [] = refl
marks_of-placeholders d h i (c ∷ columns) =
    omega (arith, h.0 i, marks_of-placeholders d h (i + 1) columns)

-- No mark in a list of texts.
abbrev pub Unmarked : Str → Type 0
Unmarked s = marks s ≡ 0

pub marks_of-quotes :
    (d : Dialector)
    → MarkDialect d
    → (columns : List Str) → All Unmarked columns
    → marks_of (map d.quote columns) ≡ 0
unfolding marks_of
marks_of-quotes d h [] u = refl
marks_of-quotes d h (c ∷ columns) u = omega (arith, h.1 c, u.0, marks_of-quotes d h columns u.1)

abbrev pub OneMark : Str → Type 0
OneMark s = marks s ≡ 1

marks-replace_mark : (s by : Str) → marks s ≡ 1 → marks by ≡ 1 → marks (replace_mark s by) ≡ 1
unfolding marks replace_mark
marks-replace_mark [] by h k = ground arith
marks-replace_mark (c ∷ s) by h k =
    ground (arith, marks-append by s, λ (e : marks s ≡ 1). marks-replace_mark s by e k)

pub marks_of-set_parts :
    (d : Dialector)
    → MarkDialect d
    → (i : ℕ) (clauses : List Str) → All OneMark clauses
    → marks_of (set_parts d i clauses) ≡ length clauses
unfolding set_parts marks_of
marks_of-set_parts d h i [] u = refl
marks_of-set_parts d h i (c ∷ clauses) u = omega (
  arith,
  marks-replace_mark c (d.placeholder i) u.0 (h.0 i),
  marks_of-set_parts d h (i + 1) clauses u.1,
)

mysql_dialector-MarkDialect : MarkDialect mysql_dialector
unfolding marks
mysql_dialector-MarkDialect = (λ i. refl, λ s. ground (arith, marks-append s (96 ∷ [])))

pub sqlite_dialector-MarkDialect : MarkDialect sqlite_dialector
unfolding marks
sqlite_dialector-MarkDialect = (λ i. refl, λ s. ground (arith, marks-append s (34 ∷ [])))
