-- ===== src/Index/Order.antt =====
-- ParseOrderFields of internal/cache/index.go.
use thing.Prelude.{
  Str, str, equal_fold, trim, trim_space, trim_prefix, trim_suffix, has_prefix, has_suffix,
  contains_any, split, last_or, words_by, white, Bool, true, false, not, ◌&&◌, ◌||◌, Option, none,
  some, List, [], ◌∷◌, ◌++◌, is_empty, if◌then◌else◌,
}
use thing.Prelude.Dict.{mem_str}

-- The column behind the last dot, without its quotes.
unfoldable unquote : Str → Str
unfolding trim_space split last_or trim has_prefix has_suffix trim_prefix trim_suffix
unquote raw =
    let column = trim (trim_space (last_or (split raw 46) [])) (34 ∷ 96 ∷ []) in
    if has_prefix column (91 ∷ []) && has_suffix column (93 ∷ [])
    then trim_prefix (trim_suffix column (93 ∷ [])) (91 ∷ [])
    else column

-- normalizeOrderIdentifier: none where the source returns false
unfoldable normalize_order_identifier : Str → Option Str
unfolding trim_space contains_any unquote
normalize_order_identifier raw =
    let name = trim_space raw in
    if is_empty name || contains_any name (str "()+-*/")
    then none
    else (let column = unquote name in
        if is_empty column || contains_any column (32 ∷ 9 ∷ 10 ∷ 13 ∷ [])
        then none
        else some column)

-- The words of a clause: whether they are too many or end in no direction.
unfoldable uncertain_words : List Str → Bool
unfolding equal_fold
uncertain_words (name ∷ []) = false
uncertain_words (name ∷ direction ∷ []) =
    not (equal_fold direction (str "ASC")) && not (equal_fold direction (str "DESC"))
uncertain_words _ = true

unfoldable add_field : Option Str → List Str × Bool → List Str × Bool
unfolding mem_str
add_field none (fields, uncertain) = (fields, true)
add_field (some field) (fields, uncertain) =
    if mem_str field fields then (fields, uncertain) else (fields ++ field ∷ [], uncertain)

unfoldable mark_words : List Str → List Str × Bool → List Str × Bool
unfolding uncertain_words
mark_words words (fields, uncertain) = (fields, uncertain || uncertain_words words)

-- One clause of the loop, by its words; a blank clause has none.
unfoldable add_clause : List Str → List Str × Bool → List Str × Bool
unfolding normalize_order_identifier add_field mark_words
add_clause [] (fields, uncertain) = (fields, true)
add_clause (name ∷ words) state =
    add_field (normalize_order_identifier name) (mark_words (name ∷ words) state)

unfoldable add_clauses : List Str → List Str × Bool → List Str × Bool
unfolding add_clause words_by trim_space
add_clauses [] state = state
add_clauses (clause ∷ clauses) state =
    add_clauses clauses (add_clause (words_by white (trim_space clause)) state)

-- ParseOrderFields
unfoldable pub parse_order_fields : Str → List Str × Bool
unfolding add_clauses split trim_space
parse_order_fields order =
    if is_empty (trim_space order) then ([], false) else add_clauses (split order 44) ([], false)
