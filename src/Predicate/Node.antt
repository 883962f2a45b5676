-- ===== src/Predicate/Node.antt =====
-- The predicates of internal/cache/query_predicate.go: evaluation, fields, exact matches. The
-- test of one condition on a row, matchPredicateCondition, is the argument `test`.
use thing.Prelude.{
  ℕ, Str, str, str_eq, Bool, true, false, not, ◌&&◌, ◌||◌, Option, none, some, List, [], ◌∷◌, ◌++◌,
  length, get_elem?, is_empty, ◌==◌, if◌then◌else◌,
}
use thing.Prelude.Dict.{Dict, put, get_or, keys}
use thing.Query.{
  unsupported_logical, no_operands, single_operand, index_out_of_bounds, Result, ok, err, ◌>>=◌,
}
use thing.Value.{Value, to_list}

-- predicateOperand: a placeholder's argument index, or a literal
pub data Operand : Type 0 where
  argument : ℕ → Operand
  constant : Value → Operand

-- predicateNode: logicalPredicateNode and conditionPredicateNode
pub data Node : Type 0 where
  logical : Str → Node → Node → Node
  condition : Str → Str → List Operand → Node

-- queryPredicate
pub record Predicate : Type 0 where
  pub root : Option Node
  pub args : List Value

unfoldable resolve_operand : List Value → Operand → Result Value
resolve_operand args (constant v) = ok v
resolve_operand args (argument i) = elim (get_elem? args i) [
  | none ↦ err index_out_of_bounds
  | some v ↦ ok v
]

-- resolveOperands
unfoldable pub resolve_operands : List Value → List Operand → Result (List Value)
unfolding resolve_operand
resolve_operands args [] = ok []
resolve_operands args (o ∷ os) = do
  v ← resolve_operand args o
  vs ← resolve_operands args os
  ok (v ∷ vs)

unfoldable pub is_in : Str → Bool
unfolding str_eq
is_in operator = str_eq operator (str "IN") || str_eq operator (str "NOT IN")

-- One operand, a placeholder: its argument is the list of an IN.
unfoldable pub is_list_argument : List Operand → Bool
is_list_argument (argument i ∷ []) = true
is_list_argument _ = false

-- matchAnyPredicateValue
unfoldable pub match_any : (Value → Result Bool) → List Value → Result Bool
match_any equal [] = ok false
match_any equal (v ∷ vs) =
    let rest = match_any equal vs in equal v >>= λ found. if found then ok true else rest

-- What logicalPredicateNode.Match does with the result on the left.
unfoldable pub combine : Str → Bool → Result Bool → Result Bool
unfolding str_eq
combine op left right =
    if str_eq op (str "AND")
    then (if left then right else ok false)
    else if str_eq op (str "OR")
    then (if left then ok true else right)
    else err unsupported_logical

module _ (test : Str → Str → Value → Result Bool) (args : List Value) where
  -- The values of conditionPredicateNode.Match, once resolved.
  unfoldable pub match_values : Str → Str → List Operand → List Value → Result Bool
  unfolding is_in is_list_argument match_any
  match_values field operator operands [] = err no_operands
  match_values field operator operands (v ∷ vs) =
      if is_in operator
      then (if is_empty vs && is_list_argument operands
          then test field operator v
          else (match_any (test field (str "=")) (v ∷ vs) >>= λ found.
              ok (if str_eq operator (str "NOT IN") then not found else found)))
      else if is_empty vs
      then test field operator v
      else err single_operand

  -- predicateNode.Match
  unfoldable pub match_node : Node → Result Bool
  unfolding match_values resolve_operands combine
  match_node (logical op l r) =
      let right = match_node r in match_node l >>= λ left. combine op left right
  match_node (condition field operator operands) = do
    values ← resolve_operands args operands
    match_values field operator operands values

-- queryPredicate.Match
unfoldable pub match_predicate : (Str → Str → Value → Result Bool) → Predicate → Result Bool
unfolding match_node
match_predicate test p = elim (p.root) [ none ↦ ok true | some n ↦ match_node test p.args n ]

-- predicateNode.Fields
unfoldable pub node_fields : Node → Dict Bool → Dict Bool
unfolding put
node_fields (logical op l r) out = node_fields r (node_fields l out)
node_fields (condition field operator operands) out = put field true out

-- queryPredicate.Fields
unfoldable pub predicate_fields : Predicate → List Str
unfolding node_fields keys
predicate_fields p = elim (p.root) [ none ↦ [] | some n ↦ keys (node_fields n []) ]

-- expandExactMatchValues
unfoldable expand_exact_match_values : Value → List Value
unfolding to_list
expand_exact_match_values (Value.slice t vs) = to_list vs
expand_exact_match_values _ = []

-- out[field] = append(out[field], values...)
unfoldable add_values : Str → List Value → Dict (List Value) → Dict (List Value)
unfolding put get_or
add_values field vs out = put field (get_or field out [] ++ vs) out

unfoldable add_some_values : Str → List Value → Dict (List Value) → Dict (List Value)
unfolding add_values
add_some_values field vs out = if is_empty vs then out else add_values field vs out

-- The loop over the operands of an IN.
unfoldable add_in_values : Str → List Value → Dict (List Value) → Dict (List Value)
unfolding add_values expand_exact_match_values
add_in_values field [] out = out
add_in_values field (v ∷ vs) out =
    let several = expand_exact_match_values v in
    add_in_values field vs
      (if is_empty several then add_values field (v ∷ []) out else add_values field several out)

-- The values of a list argument, resolved to one value.
unfoldable first_expanded : List Value → List Value
unfolding expand_exact_match_values
first_expanded [] = []
first_expanded (v ∷ vs) = expand_exact_match_values v

unfoldable condition_exact_matches :
    Str → Str → List Operand → List Value → Dict (List Value) → Dict (List Value)
unfolding str_eq add_some_values add_in_values is_list_argument first_expanded
condition_exact_matches field operator operands values out =
    if str_eq operator (str "=")
    then (if length values == 1 then add_values field values out else out)
    else if str_eq operator (str "IN")
    then (if is_list_argument operands
        then add_some_values field (first_expanded values) out
        else add_in_values field values out)
    else out

-- predicateNode.ExactMatches
unfoldable node_exact_matches : List Value → Node → Dict (List Value) → Dict (List Value)
unfolding condition_exact_matches resolve_operands
node_exact_matches args (logical op l r) out =
    node_exact_matches args r (node_exact_matches args l out)
node_exact_matches args (condition field operator operands) out =
    elim (resolve_operands args operands) [
      | ok values ↦ condition_exact_matches field operator operands values out
      | err e ↦ out
    ]

-- queryPredicate.ExactMatches
unfoldable pub exact_matches : Predicate → Dict (List Value)
unfolding node_exact_matches
exact_matches p = elim (p.root) [ none ↦ [] | some n ↦ node_exact_matches p.args n [] ]
