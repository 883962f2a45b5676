-- ===== src/SqlBuilder.antt =====
-- internal/sqlbuilder/sqlbuilder.go, and the dialects of drivers/db. The byte 63 is '?'.
pub mod Marks
pub mod Expand
pub mod Rebind
pub mod Statements
use thing.Prelude.{
  ℕ, zero, suc, ◌+◌, Str, str, equal_fold, member_of, Bool, true, false, not, ◌&&◌, ◌||◌, Option,
  none, some, List, [], ◌∷◌, ◌++◌, map, length, is_empty, leb, pos, ◌==◌, if◌then◌else◌,
}
use thing.Prelude.Decimal.{print_ℤ}
use thing.Value.{Value, to_list}

-- Dialector
pub record Dialector : Type 0 where
  pub quote : Str → Str
  pub placeholder : ℕ → Str

-- MySQLDialector
abbrev pub mysql_dialector : Dialector
mysql_dialector = record { quote = λ s. 96 ∷ (s ++ 96 ∷ []); placeholder = λ n. 63 ∷ [] }

-- SQLiteDialector
abbrev pub sqlite_dialector : Dialector
sqlite_dialector = record { quote = λ s. 34 ∷ (s ++ 34 ∷ []); placeholder = λ n. 63 ∷ [] }

-- Dialector of drivers/db/postgres
abbrev pub postgres_dialector : Dialector
postgres_dialector = record {
  quote = λ s. 34 ∷ (s ++ 34 ∷ []);
  placeholder = λ n. 36 ∷ print_ℤ (pos n);
}

-- strings.Join
unfoldable pub join : Str → List Str → Str
join sep [] = []
join sep (s ∷ []) = s
join sep (s ∷ t ∷ rest) = s ++ (sep ++ join sep (t ∷ rest))

-- strings.Replace of the first '?'
unfoldable pub replace_mark : Str → Str → Str
replace_mark [] by = []
replace_mark (c ∷ s) by = if c == 63 then by ++ s else c ∷ replace_mark s by

abbrev pub comma_space : Str
comma_space = 44 ∷ 32 ∷ []

unfoldable skip_blanks : Str → Str
unfolding member_of
skip_blanks [] = []
skip_blanks (c ∷ s) = if member_of c (32 ∷ 9 ∷ 10 ∷ 13 ∷ []) then skip_blanks s else c ∷ s

unfoldable is_word_byte : ℕ → Bool
is_word_byte c =
    (c == 95) || ((leb 48 c && leb c 57) || ((leb 65 c && leb c 90) || (leb 97 c && leb c 122)))

-- Whether bytes, read backwards, begin with the word IN.
unfoldable ends_in_word : Str → Bool
unfolding equal_fold is_word_byte
ends_in_word (n ∷ i ∷ []) = equal_fold (i ∷ n ∷ []) (str "IN")
ends_in_word (n ∷ i ∷ c ∷ s) = equal_fold (i ∷ n ∷ []) (str "IN") && not (is_word_byte c)
ends_in_word _ = false

-- Whether bytes, read backwards, begin with a bracket behind the word IN.
unfoldable opens_in : Str → Bool
unfolding ends_in_word skip_blanks
opens_in [] = false
opens_in (c ∷ s) = (c == 40) && ends_in_word (skip_blanks s)

unfoldable closes : Str → Bool
closes [] = false
closes (c ∷ s) = c == 41

-- inClause, from the bytes before a mark, read backwards, and those behind it
unfoldable pub in_clause : Str → Str → Bool
unfolding skip_blanks opens_in closes
in_clause before rest = opens_in (skip_blanks before) && closes (skip_blanks rest)

-- The elements of a slice.
unfoldable pub slice_items : Value → Option (List Value)
unfolding to_list
slice_items (Value.slice t vs) = some (to_list vs)
slice_items (Value.null_slice t) = some []
slice_items _ = none

unfoldable pub marks_for : List Value → Str
unfolding join
marks_for vs = if is_empty vs then str "NULL" else join comma_space (map (λ v. 63 ∷ []) vs)

-- What a mark becomes, the arguments that it adds, and those that are left.
pub record Piece : Type 0 where
  pub text : Str
  pub used : List Value
  pub left : List Value

unfoldable pub plain_mark : List Value → Piece
plain_mark [] = record { text = 63 ∷ []; used = []; left = [] }
plain_mark (v ∷ args) = record { text = 63 ∷ []; used = v ∷ []; left = args }

unfoldable pub expanded_mark : List Value → Piece
unfolding slice_items marks_for plain_mark
expanded_mark [] = plain_mark []
expanded_mark (v ∷ args) = elim (slice_items v) [
  | none ↦ plain_mark (v ∷ args)
  | some items ↦ record { text = marks_for items; used = items; left = args }
]

unfoldable pub piece : ℕ → Str → Str → List Value → Piece
unfolding in_clause plain_mark expanded_mark
piece c before rest args =
    if c == 63
    then (if in_clause before rest then expanded_mark args else plain_mark args)
    else record { text = c ∷ []; used = []; left = args }

-- The loop of ExpandInClauses; `before` holds the bytes read, backwards.
unfoldable pub expand_from : Str → Str → List Value → Str × List Value
unfolding piece
expand_from before [] args = ([], [])
expand_from before (c ∷ rest) args =
    let p = piece c before rest args in
    let tail = expand_from (c ∷ before) rest p.left in (p.text ++ tail.0, p.used ++ tail.1)

-- ExpandInClauses
unfoldable pub expand_in_clauses : Str → List Value → Str × List Value
unfolding expand_from
expand_in_clauses where_clause args = expand_from [] where_clause args

-- The loop of Rebind.
unfoldable pub rebind_from : Dialector → ℕ → Str → Str
rebind_from d i [] = []
rebind_from d i (c ∷ s) =
    let rest = rebind_from d (if c == 63 then i + 1 else i) s in
    if c == 63 then d.placeholder i ++ rest else c ∷ rest

-- Rebind
unfoldable pub rebind : Dialector → Str → Str
unfolding rebind_from
rebind d query = rebind_from d 1 query

-- BuildSelectSQL
unfoldable pub build_select_sql : Dialector → Str → List Str → Str
unfolding join
build_select_sql d table columns =
    if is_empty table || is_empty columns
    then []
    else str "SELECT "
      ++ (join comma_space (map d.quote columns) ++ (str " FROM " ++ d.quote table))

-- BuildSelectIDsSQL
unfoldable pub build_select_ids_sql :
    Dialector → Str → Str → Str → List Value → Str → Str × List Value
unfolding expand_in_clauses
build_select_ids_sql d table pk where_clause args order =
    if is_empty table || is_empty pk
    then ([], [])
    else (let expanded = expand_in_clauses where_clause args in
        let selected = str "SELECT " ++ (d.quote pk ++ (str " FROM " ++ d.quote table)) in
        let filtered = if is_empty where_clause then [] else str " WHERE " ++ expanded.0 in
        let sorted = if is_empty order then [] else str " ORDER BY " ++ order in
        (selected ++ (filtered ++ sorted), if is_empty where_clause then args else expanded.1))

-- The placeholders from an index on, one for each column.
unfoldable pub placeholders : Dialector → ℕ → List Str → List Str
placeholders d i [] = []
placeholders d i (c ∷ columns) = d.placeholder i ∷ placeholders d (i + 1) columns

-- BuildInsertSQL
unfoldable pub build_insert_sql : Dialector → Str → List Str → Str
unfolding join placeholders
build_insert_sql d table columns =
    if is_empty table || is_empty columns
    then []
    else str "INSERT INTO "
      ++ (d.quote table
          ++ (str " ("
              ++ (join comma_space (map d.quote columns)
                  ++ (str ") VALUES ("
                      ++ (join comma_space (placeholders d 1 columns) ++ str ")")))))

-- The set clauses, from an index on.
unfoldable pub set_parts : Dialector → ℕ → List Str → List Str
unfolding replace_mark
set_parts d i [] = []
set_parts d i (c ∷ clauses) = replace_mark c (d.placeholder i) ∷ set_parts d (i + 1) clauses

-- BuildUpdateSQL
unfoldable pub build_update_sql : Dialector → Str → List Str → Str → Str
unfolding join set_parts
build_update_sql d table clauses pk =
    if is_empty table || (is_empty clauses || is_empty pk)
    then []
    else str "UPDATE "
      ++ (d.quote table
          ++ (str " SET "
              ++ (join comma_space (set_parts d 1 clauses)
                  ++ (str " WHERE "
                      ++ (d.quote pk ++ (str " = " ++ d.placeholder (length clauses + 1)))))))

-- BuildDeleteSQL
unfoldable pub build_delete_sql : Dialector → Str → Str → Str
build_delete_sql d table pk =
    if is_empty table || is_empty pk
    then []
    else str "DELETE FROM "
      ++ (d.quote table ++ (str " WHERE " ++ (d.quote pk ++ (str " = " ++ d.placeholder 1))))

-- BuildCountSQL
unfoldable pub build_count_sql : Dialector → Str → Str → Str
build_count_sql d table where_clause =
    if is_empty table
    then []
    else str "SELECT COUNT(*) FROM "
      ++ (d.quote table ++ (if is_empty where_clause then [] else str " WHERE " ++ where_clause))
