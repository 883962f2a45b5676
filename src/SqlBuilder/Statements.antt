-- ===== src/SqlBuilder/Statements.antt =====
-- The placeholders of the statements of internal/sqlbuilder/sqlbuilder.go.
use thing.Prelude.{
  ◌+◌, Str, str, false, List, [], ◌∷◌, ◌++◌, map, length, is_empty, ◌≡◌, refl, ◌∙◌, arith, All,
}
use thing.Value.{Value}
use thing.SqlBuilder.{
  Dialector, join, comma_space, build_insert_sql, build_update_sql, placeholders, set_parts,
}
use thing.SqlBuilder.Marks.{
  marks, marks-append, marks-join, MarkDialect, Unmarked, OneMark, marks_of-placeholders,
  marks_of-quotes, marks_of-set_parts,
}

-- A word without marks adds none.
marks_between :
    (word s rest : Str) → marks word ≡ 0 → marks (word ++ (s ++ rest)) ≡ marks s + marks rest
marks_between word s rest h = omega (arith, marks-append word (s ++ rest), marks-append s rest, h)

-- For a dialect with marks and names that hold none, BuildInsertSQL writes exactly one mark for
-- each column.
pub marks-build_insert_sql :
    (d : Dialector) (table : Str) (columns : List Str)
    → MarkDialect d
    → is_empty table ≡ false
    → Unmarked table
    → All Unmarked columns
    → marks (build_insert_sql d table columns) ≡ length columns
unfolding build_insert_sql marks
marks-build_insert_sql d table [] h given u v = rw given refl
marks-build_insert_sql d table (c ∷ columns) h given u v =
    let names = join comma_space (map d.quote (c ∷ columns)) in
    let values = join comma_space (placeholders d 1 (c ∷ columns)) in
    let names_lem = marks-join (map d.quote (c ∷ columns)) ∙ marks_of-quotes d h (c ∷ columns) v in
    let values_lem =
      marks-join (placeholders d 1 (c ∷ columns)) ∙ marks_of-placeholders d h 1 (c ∷ columns) in
    let tail = str ") VALUES (" ++ (values ++ str ")") in
    let e1 =
      marks_between (str "INSERT INTO ") (d.quote table) (str " (" ++ (names ++ tail)) refl in
    let e2 = marks_between (str " (") names tail refl in
    let e3 = marks_between (str ") VALUES (") values (str ")") refl in
    rw (given, e1, e2, e3, names_lem, values_lem, h.1 table, u) (omega arith)

-- For a dialect with marks, names that hold none, and set clauses with one mark each, BuildUpdateSQL
-- writes one mark for each set clause and one more, that of the primary key.
pub marks-build_update_sql :
    (d : Dialector) (table : Str) (clauses : List Str) (pk : Str)
    → MarkDialect d
    → is_empty table ≡ false
    → is_empty clauses ≡ false
    → is_empty pk ≡ false
    → Unmarked table
    → Unmarked pk
    → All OneMark clauses
    → marks (build_update_sql d table clauses pk) ≡ length clauses + 1
unfolding build_update_sql marks
marks-build_update_sql d table clauses pk h given some_clause keyed u k v =
    let sets = join comma_space (set_parts d 1 clauses) in
    let sets_lem = marks-join (set_parts d 1 clauses) ∙ marks_of-set_parts d h 1 clauses v in
    let last = d.placeholder (length clauses + 1) in
    let tail = d.quote pk ++ (str " = " ++ last) in
    let e1 =
      marks_between (str "UPDATE ") (d.quote table)
        (str " SET " ++ (sets ++ (str " WHERE " ++ tail))) refl in
    let e2 = marks_between (str " SET ") sets (str " WHERE " ++ tail) refl in
    let e3 = marks_between (str " WHERE ") (d.quote pk) (str " = " ++ last) refl in
    let e4 = marks-append (str " = ") last in
    rw (given, some_clause, keyed, e1, e2, e3, e4, sets_lem, h.1 table, h.1 pk, u, k, h.0 _)
      (omega arith)
