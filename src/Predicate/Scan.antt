-- ===== src/Predicate/Scan.antt =====
-- The tokenizer of internal/cache/query_predicate.go. Where the source keeps an index into the
-- clause, the model keeps the bytes from that index on.
pub mod Progress
pub mod Literals
use thing.Prelude.{
  ℕ, zero, suc, Str, str, member_of, Bool, true, false, ◌&&◌, ◌||◌, List, [], ◌∷◌, ◌++◌, reverse,
  length, ◌==◌, if◌then◌else◌,
}
use thing.Query.{
  Error, unsupported_symbol, unterminated_identifier, unterminated_literal, out_of_fuel, Result, ok,
  err, ◌>>=◌,
}
use thing.Value.{Value, Runtime}
use thing.Predicate.Token.{
  Token, end, operator, placeholder, literal, left_paren, right_paren, comma, classify_word,
}

-- ' ', '\t', '\n', '\r'
unfoldable pub is_space : ℕ → Bool
is_space c = c == 32 || (c == 9 || (c == 10 || c == 13))

-- strings.ContainsRune("=<>!", rune(ch))
unfoldable pub is_symbol : ℕ → Bool
is_symbol c = c == 61 || (c == 60 || (c == 62 || c == 33))

unfoldable pub single_operator : ℕ → Str → Result (Str × Str)
single_operator c rest =
    if c == 61 || (c == 62 || c == 60) then ok (c ∷ [], rest) else err unsupported_symbol

-- scanSymbolOperator: the operator, and what follows it
unfoldable pub scan_symbol_operator : ℕ → Str → Result (Str × Str)
unfolding single_operator
scan_symbol_operator c [] = single_operator c []
scan_symbol_operator c (d ∷ rest) =
    -- >=, <=, !=, <>
    if (d == 61 && (c == 62 || (c == 60 || c == 33))) || (c == 60 && d == 62)
    then ok (c ∷ d ∷ [], rest)
    else single_operator c (d ∷ rest)

-- The loop of scanStringLiteral, from behind the opening quote; `b` is the builder, reversed.
unfoldable pub scan_string_literal : Str → Str → Result (Str × Str)
scan_string_literal b [] = err unterminated_literal
scan_string_literal b (c ∷ []) = if c == 39 then ok (reverse b, []) else err unterminated_literal
scan_string_literal b (c ∷ d ∷ s) =
    let plain = scan_string_literal (c ∷ b) (d ∷ s) in
    let doubled = scan_string_literal (39 ∷ b) s in
    if c == 39 then (if d == 39 then doubled else ok (reverse b, d ∷ s)) else plain

-- The loop of scanQuotedIdentifier, up to the closing quote and with it.
unfoldable pub scan_to_close : ℕ → Str → Str → Result (Str × Str)
scan_to_close close b [] = err unterminated_identifier
scan_to_close close b (c ∷ s) =
    let go = scan_to_close close (c ∷ b) s in if c == close then ok (reverse (c ∷ b), s) else go

-- scanQuotedIdentifier: the quotes stay in the identifier
unfoldable pub scan_quoted_identifier : ℕ → Str → Result (Str × Str)
unfolding scan_to_close
scan_quoted_identifier quote s = scan_to_close (if quote == 91 then 93 else quote) (quote ∷ []) s

-- What ends a word: white space, brackets, a comma, a placeholder, a symbol.
unfoldable pub ends_word : ℕ → Bool
unfolding is_space is_symbol
ends_word c = is_space c || (c == 40 || (c == 41 || (c == 44 || (c == 63 || is_symbol c))))

-- scanWord
unfoldable pub scan_word : Str → Str → Str × Str
unfolding ends_word
scan_word b [] = (reverse b, [])
scan_word b (c ∷ s) = let go = scan_word (c ∷ b) s in if ends_word c then (reverse b, c ∷ s) else go

-- One round of the loop of tokenizeWhere at a byte that is no white space: a token and the rest.
unfoldable pub next_token : Runtime → ℕ → Str → Result (Token × Str)
unfolding is_symbol scan_symbol_operator scan_string_literal scan_quoted_identifier scan_word
    classify_word
next_token f c s =
    if c == 40
    then ok (left_paren, s)
    else if c == 41
    then ok (right_paren, s)
    else if c == 44
    then ok (comma, s)
    else if c == 63
    then ok (placeholder, s)
    else if is_symbol c
    then (do (op, rest) ← scan_symbol_operator c s; ok (operator op, rest))
    else if c == 39
    then (do (text, rest) ← scan_string_literal [] s; ok (literal (Value.text text), rest))
    else if c == 96 || (c == 34 || c == 91)
    then (do (name, rest) ← scan_quoted_identifier c s; ok (classify_word f name, rest))
    else (let (word, rest) = scan_word [] (c ∷ s) in ok (classify_word f word, rest))

-- The loop of tokenizeWhere; one round for each unit of fuel.
unfoldable pub tokenize_from : Runtime → ℕ → Str → Result (List Token)
unfolding is_space next_token
tokenize_from f zero s = err out_of_fuel
tokenize_from f (suc n) [] = ok (end ∷ [])
tokenize_from f (suc n) (c ∷ s) =
    let skip = tokenize_from f n s in
    let emit = next_token f c s >>= λ t. tokenize_from f n t.1 >>= λ ts. ok (t.0 ∷ ts) in
    if is_space c then skip else emit

-- tokenizeWhere
unfoldable pub tokenize_where : Runtime → Str → Result (List Token)
unfolding tokenize_from
tokenize_where f s = tokenize_from f (suc (length s)) s
