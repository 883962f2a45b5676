-- ===== src/Tests/Statements.antt =====
-- SQL statements for SQLite and PostgreSQL.
use thing.Prelude.{str, [], ◌∷◌, length, pos, ◌≡◌, refl, arith}
use thing.Value.{Value, IntKind, Typ, of_list}
use thing.Prelude.Decimal.{print_ℤ}
use thing.SqlBuilder.{
  join, slice_items, sqlite_dialector, postgres_dialector, expand_in_clauses, build_insert_sql,
  build_update_sql, build_delete_sql, build_count_sql, build_select_sql, rebind,
}
use thing.SqlBuilder.Marks.{marks, sqlite_dialector-MarkDialect}
use thing.SqlBuilder.Expand.{expand_in_clauses_balanced, expand_in_clauses-Plain}
use thing.SqlBuilder.Rebind.{rebind-numbered}
use thing.SqlBuilder.Statements.{marks-build_insert_sql, marks-build_update_sql}

abbrev ages : Value
ages =
    Value.slice Typ.any
      (of_list (Value.int IntKind.int (pos 3) ∷ Value.int IntKind.int (pos 5) ∷ []))

expand_ages :
    expand_in_clauses (str "age IN (?)") (ages ∷ [])
    ≡ (str "age IN (?, ?)", Value.int IntKind.int (pos 3) ∷ Value.int IntKind.int (pos 5) ∷ [])
unfolding expand_in_clauses of_list
expand_ages = refl

-- MIN (?) is no IN clause.
expand_min : (expand_in_clauses (str "MIN (?)") (ages ∷ [])).0 ≡ str "MIN (?)"
unfolding expand_in_clauses
expand_min = refl

update_age :
    build_update_sql sqlite_dialector (str "users") (str "\"age\" = ?" ∷ []) (str "id")
    ≡ str "UPDATE \"users\" SET \"age\" = ? WHERE \"id\" = ?"
unfolding build_update_sql
update_age = refl

rebind_postgres : rebind postgres_dialector (str "a = ? AND b = ?") ≡ str "a = $1 AND b = $2"
unfolding rebind print_ℤ
rebind_postgres = refl

delete_user :
    build_delete_sql sqlite_dialector (str "users") (str "id")
    ≡ str "DELETE FROM \"users\" WHERE \"id\" = ?"
unfolding build_delete_sql
delete_user = refl

count_users :
    build_count_sql sqlite_dialector (str "users") (str "age > ?")
    ≡ str "SELECT COUNT(*) FROM \"users\" WHERE age > ?"
unfolding build_count_sql
count_users = refl

select_users :
    build_select_sql sqlite_dialector (str "users") (str "id" ∷ str "age" ∷ [])
    ≡ str "SELECT \"id\", \"age\" FROM \"users\""
unfolding build_select_sql
select_users = refl

expand_in_clauses_balanced_example :
    let r = expand_in_clauses (str "age IN (?)") (ages ∷ []) in marks r.0 ≡ length r.1
expand_in_clauses_balanced_example =
    expand_in_clauses_balanced (str "age IN (?)") (ages ∷ []) (unfold marks in omega arith)

expand_in_clauses-Plain_example :
    expand_in_clauses (str "age > ?") (Value.int IntKind.int (pos 3) ∷ [])
    ≡ (str "age > ?", Value.int IntKind.int (pos 3) ∷ [])
unfolding marks slice_items
expand_in_clauses-Plain_example =
    expand_in_clauses-Plain (str "age > ?") (Value.int IntKind.int (pos 3) ∷ []) refl (refl, tt)

rebind-numbered_example :
    rebind postgres_dialector (join (63 ∷ []) (str "a = " ∷ str " AND b = " ∷ [] ∷ []))
    ≡ str "a = $1 AND b = $2"
unfolding print_ℤ
rebind-numbered_example =
    rebind-numbered postgres_dialector (str "a = " ∷ str " AND b = " ∷ [] ∷ []) (
      (refl, (refl, (refl, (refl, tt)))),
      ((refl, (refl, (refl, (refl, (refl, (refl, (refl, (refl, (refl, tt))))))))), (tt, tt)),
    )

marks-build_insert_sql_example :
    marks (build_insert_sql sqlite_dialector (str "users") (str "id" ∷ str "age" ∷ [])) ≡ 2
unfolding marks
marks-build_insert_sql_example =
    marks-build_insert_sql sqlite_dialector (str "users") (str "id" ∷ str "age" ∷ [])
      sqlite_dialector-MarkDialect refl refl (refl, (refl, tt))

marks-build_update_sql_example :
    marks (build_update_sql sqlite_dialector (str "users") (str "age = ?" ∷ []) (str "id")) ≡ 2
unfolding marks
marks-build_update_sql_example =
    marks-build_update_sql sqlite_dialector (str "users") (str "age = ?" ∷ []) (str "id")
      sqlite_dialector-MarkDialect refl refl refl refl refl (refl, tt)
