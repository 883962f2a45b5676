-- ===== src/Index/Legacy.antt =====
-- The heuristic of internal/cache/index.go for WHERE clauses that the parser refuses.
use thing.Prelude.{
  ℕ, Str, str, str_eq, trim, words_by, Bool, true, false, ◌&&◌, ◌||◌, List, [], ◌∷◌, ◌++◌, map,
  reverse, is_empty, upper_byte, ◌==◌, if◌then◌else◌,
}
use thing.Prelude.Dict.{Dict, put}
use thing.Query.{QueryParams}
use thing.Value.{Typ, IntKind, Value, to_list}
use thing.Value.Convert.{encode_rune}

-- space and tab
abbrev blanks : Str
blanks = 32 ∷ 9 ∷ []

-- trimSpace
unfoldable trim_blanks : Str → Str
unfolding trim
trim_blanks s = trim s blanks

-- string(s[i]) of a byte is the text of that code point
unfoldable encode_bytes : Str → Str
unfolding encode_rune
encode_bytes [] = []
encode_bytes (c ∷ s) = encode_rune c ++ encode_bytes s

-- splitFields
unfoldable split_fields : Str → List Str
unfolding words_by encode_bytes
split_fields s = map encode_bytes (words_by blanks s)

unfoldable is_and_word : ℕ → ℕ → ℕ → Bool
unfolding upper_byte
is_and_word a n d = (upper_byte a == 65) && ((upper_byte n == 78) && (upper_byte d == 68))

unfoldable starts_space : Str → Bool
starts_space [] = true
starts_space (c ∷ s) = c == 32

-- The loop of splitByAND: `before` tells whether the last byte was a space or there was none, and
-- `piece` is the piece so far, reversed.
unfoldable split_and_from : Bool → Str → Str → List Str
unfolding is_and_word starts_space
split_and_from before piece [] = reverse piece ∷ []
split_and_from before piece (a ∷ []) = reverse (a ∷ piece) ∷ []
split_and_from before piece (a ∷ n ∷ []) = reverse (n ∷ a ∷ piece) ∷ []
split_and_from before piece (a ∷ n ∷ d ∷ s) =
    let cut = reverse piece ∷ split_and_from false [] s in
    let go = split_and_from (a == 32) (a ∷ piece) (n ∷ d ∷ s) in
    if is_and_word a n d && (before && starts_space s) then cut else go

-- splitByAND, and splitAndConditions
unfoldable split_and_conditions : Str → List Str
unfolding split_and_from trim_blanks
split_and_conditions s = map trim_blanks (split_and_from true [] s)

-- The fields of the conditions: the first word of each.
unfoldable first_words : List Str → List Str
unfolding trim_blanks split_fields
first_words [] = []
first_words (cond ∷ conds) = elim (split_fields (trim_blanks cond)) [
  | [] ↦ first_words conds
  | word ∷ words ↦ word ∷ first_words conds
]

-- legacyExtractAllWhereFields
unfoldable pub legacy_extract_all_where_fields : QueryParams → List Str
unfolding first_words split_and_conditions
legacy_extract_all_where_fields params =
    if is_empty params.where_clause
    then []
    else first_words (split_and_conditions params.where_clause)

-- The values of an IN argument: []interface{}, []int and []string alone.
unfoldable legacy_in_values : Value → List Value
unfolding to_list
legacy_in_values (Value.slice Typ.any vs) = to_list vs
legacy_in_values (Value.slice (Typ.int IntKind.int) vs) = to_list vs
legacy_in_values (Value.slice Typ.text vs) = to_list vs
legacy_in_values _ = []

unfoldable put_values : Str → List Value → Dict (List Value) → Dict (List Value)
unfolding put
put_values field vs result = if is_empty vs then result else put field vs result

-- One condition with an argument at hand.
unfoldable legacy_condition : List Str → Value → Dict (List Value) → Dict (List Value)
unfolding str_eq legacy_in_values put_values put
legacy_condition (field ∷ operator ∷ operand ∷ []) arg result =
    if str_eq operator (str "=") && str_eq operand (str "?")
    then put field (arg ∷ []) result
    else if str_eq operator (str "IN") && str_eq operand (str "(?)")
    then put_values field (legacy_in_values arg) result
    else result
legacy_condition _ arg result = result

-- The loop over the conditions; the arguments from `argIdx` on are left.
unfoldable legacy_conditions : List Str → List Value → Dict (List Value) → Dict (List Value)
unfolding legacy_condition trim_blanks split_fields
legacy_conditions [] args result = result
legacy_conditions (cond ∷ conds) [] result = result
legacy_conditions (cond ∷ conds) (arg ∷ args) result =
    let word = trim_blanks cond in
    let skip = legacy_conditions conds (arg ∷ args) result in
    let go = legacy_conditions conds args (legacy_condition (split_fields word) arg result) in
    if is_empty word then skip else go

-- legacyParseExactMatchFields
unfoldable pub legacy_parse_exact_match_fields : QueryParams → Dict (List Value)
unfolding legacy_conditions split_and_conditions
legacy_parse_exact_match_fields params =
    if is_empty params.where_clause || is_empty params.args
    then []
    else legacy_conditions (split_and_conditions params.where_clause) params.args []
