-- ===== src/Predicate/Arguments.antt =====
-- parseQueryPredicate of internal/cache/query_predicate.go as a whole, and the arguments that its
-- predicates use.
use thing.Prelude.{
  suc, ◌≡◌, refl, ◌≢◌, ◌⊎◌, inl, inr, List, none, some, length, is_empty, iota, arith, trim_space,
  ◌==◌,
}
use thing.Query.{QueryParams, Outcome, Outcome-bind, Outcome-if, out_of_fuel, ok, err}
use thing.Value.{Value, Runtime}
use thing.Predicate.Token.{Token}
use thing.Predicate.Scan.{tokenize_where}
use thing.Predicate.Scan.Progress.{tokenize_where_total}
use thing.Predicate.Node.{Node, Predicate}
use thing.Predicate.Parser.{parse_expression, finish, parse_query_predicate}
use thing.Predicate.Cursor.{Parser, current, is_end}
use thing.Predicate.Parser.Outcome.{node_indices, IsWellFormed, Parses, at}
use thing.Predicate.Parser.Progress.{parse_expression_lem}

-- A predicate whose placeholders, from left to right, are all the arguments in order.
abbrev pub UsesArguments : List Value → Predicate → Type 0
UsesArguments args p =
    (p.args ≡ args)
    × ((p.root ≡ none)
        ⊎ ((n : Node) × (p.root ≡ some n)
            × (node_indices n ≡ iota 0 (length args))
            × IsWellFormed n))

finish_lem :
    (tokens : List Token) (args : List Value) (s : Node × Parser)
    → Parses (at tokens (length args) 0) s
    → Outcome (UsesArguments args) (finish args s)
unfolding finish
finish_lem tokens args (n, q) parsed =
    Outcome-if (UsesArguments args) (is_end (current q.tokens)) _ _
      (λ _.
        Outcome-if (UsesArguments args) (q.arg_index == length args) _ _
          (λ same. (refl, inr (n, refl, ground (arith, parsed.0.in_order), parsed.2))) (λ _ e. cc))
      (λ _ e. cc)

parse-Outcome :
    (f : Runtime) (params : QueryParams)
    → Outcome (UsesArguments params.args) (parse_query_predicate f params)
unfolding parse_query_predicate
parse-Outcome f params =
    let clause = trim_space params.where_clause in
    let P = UsesArguments params.args in
    Outcome-if P (is_empty clause) _ _ (λ _. (refl, inl refl))
      λ _.
        Outcome-bind (λ _. Unit {0}) P (tokenize_where f clause) _ (tokenize_where_total f clause)
          λ tokens _.
            Outcome-bind (Parses (at tokens (length params.args) 0)) P
              (parse_expression (suc (length tokens)) (at tokens (length params.args) 0)) _
              (parse_expression_lem (suc (length tokens)) (at tokens (length params.args) 0)
                (omega arith))
              λ s parsed. finish_lem tokens params.args s parsed

-- A predicate that parseQueryPredicate returns keeps the arguments of the query, and is empty or
-- well formed with the placeholders 0, 1, ... from left to right, one for each argument.
pub parse_arguments :
    (f : Runtime) (params : QueryParams) (p : Predicate)
    → parse_query_predicate f params ≡ ok p
    → UsesArguments params.args p
parse_arguments f params p h = rw h at (parse-Outcome f params)

-- For every query, parseQueryPredicate returns a predicate or an error other than that of the model's
-- fuel: the fuel of the tokenizer and of the parser is always enough.
pub parse_total :
    (f : Runtime) (params : QueryParams) → parse_query_predicate f params ≢ err out_of_fuel
parse_total f params h =
    let k : out_of_fuel ≢ out_of_fuel = rw h at (parse-Outcome f params) in k refl
