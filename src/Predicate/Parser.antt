-- ===== src/Predicate/Parser.antt =====
-- The recursive descent parser of internal/cache/query_predicate.go. `fuel` bounds the depth of
-- brackets, and the rounds of a loop.
pub mod Outcome
pub mod Operands
pub mod Progress
use thing.Prelude.{
  ℕ, zero, suc, ◌+◌, Str, str, str_eq, trim_space, trim_prefix, trim_suffix, trim, has_prefix,
  has_suffix, split, last_or, Bool, true, false, ◌&&◌, ◌||◌, Option, none, some, List, [], ◌∷◌,
  ◌++◌, length, is_empty, ltb, ◌==◌, if◌then◌else◌,
}
use thing.Query.{
  QueryParams, Error, unsupported_structure, argument_mismatch, expected_paren, expected_field,
  expected_operator, not_without_like_or_in, expected_in_paren, expected_in_close,
  not_enough_arguments, expected_operand, out_of_fuel, Result, ok, err, ◌>>=◌,
}
use thing.Value.{Value, Runtime}
use thing.Predicate.Token.{
  Token, end, identifier, operator, placeholder, literal, and, or, not, left_paren, right_paren,
  comma,
}
use thing.Predicate.Scan.{tokenize_where}
use thing.Predicate.Node.{Operand, argument, constant, Node, logical, condition, Predicate, is_in}
use thing.Predicate.Cursor.{
  Parser, current, advance, is_or, is_and, is_left, is_right, is_comma, is_end, match_token,
}

-- normalizeWhereIdentifier
unfoldable normalize_where_identifier : Str → Str
unfolding trim_space split last_or trim has_prefix has_suffix trim_prefix trim_suffix
normalize_where_identifier raw =
    let name = trim_space raw in
    if is_empty name
    then name
    else (let column = trim (trim_space (last_or (split name 46) [])) (92 ∷ 34 ∷ 96 ∷ 39 ∷ []) in
        if has_prefix column (91 ∷ []) && has_suffix column (93 ∷ [])
        then trim_prefix (trim_suffix column (93 ∷ [])) (91 ∷ [])
        else column)

-- The operator behind NOT.
unfoldable pub parse_negated : Token → Result Str
unfolding str_eq
parse_negated (operator op) =
    if str_eq op (str "LIKE") || str_eq op (str "IN")
    then ok (str "NOT " ++ op)
    else err not_without_like_or_in
parse_negated _ = err not_without_like_or_in

-- parseOperator, by the current token
unfoldable parse_operator_at : Token → Parser → Result (Str × Parser)
unfolding parse_negated current advance
parse_operator_at not p = do
  let next = advance p.tokens
  op ← parse_negated (current next)
  ok (op, record p { tokens = advance next })
parse_operator_at (operator op) p = ok (op, record p { tokens = advance p.tokens })
parse_operator_at _ p = err expected_operator

unfoldable pub parse_operator : Parser → Result (Str × Parser)
unfolding parse_operator_at current
parse_operator p = parse_operator_at (current p.tokens) p

-- parseOperand, by the current token
unfoldable parse_operand_at : Token → Parser → Result (Operand × Parser)
unfolding advance
parse_operand_at placeholder p =
    if ltb p.arg_index p.args
    then ok
        (argument p.arg_index, record p { tokens = advance p.tokens; arg_index = p.arg_index + 1 })
    else err not_enough_arguments
parse_operand_at (literal v) p = ok (constant v, record p { tokens = advance p.tokens })
parse_operand_at _ p = err expected_operand

unfoldable pub parse_operand : Parser → Result (Operand × Parser)
unfolding parse_operand_at current
parse_operand p = parse_operand_at (current p.tokens) p

-- The loop over the operands of an IN, up to the operand that no comma follows.
unfoldable pub parse_operand_list : ℕ → Parser → Result (List Operand × Parser)
unfolding parse_operand match_token is_comma
parse_operand_list zero p = err out_of_fuel
parse_operand_list (suc fuel) p = parse_operand p >>= λ r.
    let (more, q) = match_token is_comma r.1 in
    let rest = parse_operand_list fuel q >>= λ s. ok (r.0 ∷ s.0, s.1) in
    if more then rest else ok (r.0 ∷ [], q)

-- What follows the operand list of an IN.
unfoldable pub close_operands : List Operand × Parser → Result (List Operand × Parser)
unfolding match_token is_right
close_operands (operands, p) =
    let (closed, q) = match_token is_right p in
    if closed then ok (operands, q) else err expected_in_close

-- parseOperands
unfoldable pub parse_operands : Str → Parser → Result (List Operand × Parser)
unfolding is_in match_token is_left parse_operand_list close_operands parse_operand
parse_operands op p =
    if is_in op
    then (let (opened, q) = match_token is_left p in
        if opened
        then (parse_operand_list (suc (length q.tokens)) q >>= close_operands)
        else err expected_in_paren)
    else (do (operand, q) ← parse_operand p; ok (operand ∷ [], q))

-- parseCondition, by the current token
unfoldable parse_condition_at : Token → Parser → Result (Node × Parser)
unfolding normalize_where_identifier parse_operator parse_operands advance
parse_condition_at (identifier name) p = do
  (op, q) ← parse_operator (record p { tokens = advance p.tokens })
  (operands, r) ← parse_operands op q
  ok (condition (normalize_where_identifier name) op operands, r)
parse_condition_at _ p = err expected_field

unfoldable pub parse_condition : Parser → Result (Node × Parser)
unfolding parse_condition_at current
parse_condition p = parse_condition_at (current p.tokens) p

-- What follows the expression inside brackets.
unfoldable pub close_paren : Node × Parser → Result (Node × Parser)
unfolding match_token is_right
close_paren (node, p) =
    let (closed, q) = match_token is_right p in if closed then ok (node, q) else err expected_paren

module _ (expression : Parser → Result (Node × Parser)) where
  -- parsePrimary, over the parser of what stands in brackets
  unfoldable pub parse_primary : Parser → Result (Node × Parser)
  unfolding match_token is_left close_paren parse_condition
  parse_primary p =
      let (opened, q) = match_token is_left p in
      if opened then (expression q >>= close_paren) else parse_condition p

  -- The loop of parseAnd.
  unfoldable pub and_loop : ℕ → Node × Parser → Result (Node × Parser)
  unfolding parse_primary is_and
  and_loop zero s = err out_of_fuel
  and_loop (suc fuel) (left, p) =
      let (more, q) = match_token is_and p in
      let rest = parse_primary q >>= λ r. and_loop fuel (logical (str "AND") left r.0, r.1) in
      if more then rest else ok (left, p)

  -- parseAnd
  unfoldable pub parse_and : Parser → Result (Node × Parser)
  unfolding and_loop
  parse_and p = parse_primary p >>= λ r. and_loop (suc (length r.1.tokens)) r

  -- The loop of parseOr.
  unfoldable pub or_loop : ℕ → Node × Parser → Result (Node × Parser)
  unfolding parse_and is_or
  or_loop zero s = err out_of_fuel
  or_loop (suc fuel) (left, p) =
      let (more, q) = match_token is_or p in
      let rest = parse_and q >>= λ r. or_loop fuel (logical (str "OR") left r.0, r.1) in
      if more then rest else ok (left, p)

  -- parseOr
  unfoldable pub parse_or : Parser → Result (Node × Parser)
  unfolding or_loop
  parse_or p = parse_and p >>= λ r. or_loop (suc (length r.1.tokens)) r

-- parseExpression, to a depth of brackets
unfoldable pub parse_expression : ℕ → Parser → Result (Node × Parser)
unfolding parse_or
parse_expression zero p = err out_of_fuel
parse_expression (suc depth) p = parse_or (parse_expression depth) p

-- The tests behind the expression in parseQueryPredicate.
unfoldable pub finish : List Value → Node × Parser → Result Predicate
unfolding current is_end
finish args (node, p) =
    if is_end (current p.tokens)
    then (if p.arg_index == length args
        then ok (record { root = some node; args = args })
        else err argument_mismatch)
    else err unsupported_structure

-- parseQueryPredicate
unfoldable pub parse_query_predicate : Runtime → QueryParams → Result Predicate
unfolding trim_space tokenize_where parse_expression finish
parse_query_predicate f params =
    let clause = trim_space params.where_clause in
    if is_empty clause then ok (record { root = none; args = params.args }) else (do
      tokens ← tokenize_where f clause
      found ←
          parse_expression (suc (length tokens))
            (record { tokens = tokens; args = length params.args; arg_index = 0 })
      finish params.args found)
