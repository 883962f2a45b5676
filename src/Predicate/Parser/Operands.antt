-- ===== src/Predicate/Parser/Operands.antt =====
-- The operands and conditions of the parser of internal/cache/query_predicate.go: arguments, tokens
-- and fuel.
use thing.Prelude.{
  str, str_eq, ◌||◌, Str, ℕ, zero, suc, ◌<◌, true, ◌≡◌, refl, ◌⊎◌, inl, inr, List, [], ◌∷◌, ◌++◌,
  length, arith, Bool-cases, ltb, if◌then◌else◌,
}
use thing.Query.{
  Outcome, Outcome-bind, Outcome-mono, expected_in_close, expected_in_paren, ok, err, ◌>>=◌,
}
use thing.Predicate.Token.{Token, identifier, operator, placeholder, literal, not}
use thing.Predicate.Node.{Operand, argument, constant, is_in}
use thing.Predicate.Parser.{
  parse_negated, parse_operator, parse_operand, parse_operand_list, close_operands, parse_operands,
  parse_condition,
}
use thing.Predicate.Cursor.{Parser, is_comma, is_right, is_left}
use thing.Predicate.Parser.Outcome.{
  Advances-one, Advances-trans, Outcome-match, operand_indices, Reads, Reads-trans, Reads-Advances,
  Advances-Reads, Advances, Reads-none, Reads-one, Parses, at,
}

-- What the parser of operands promises.
abbrev Takes : Parser → List Operand × Parser → Type 0
Takes p (os, q) = Reads p q (operand_indices os) × (length q.tokens < length p.tokens)

abbrev TakesOne : Parser → Operand × Parser → Type 0
TakesOne p (o, q) = Takes p (o ∷ [], q)

parse_operand_lem :
    (ts : List Token) (n i : ℕ) → Outcome (TakesOne (at ts n i)) (parse_operand (at ts n i))
unfolding parse_operand
parse_operand_lem [] n i = λ e. cc
parse_operand_lem (placeholder ∷ ts) n i = elim (Bool-cases (ltb i n)) [
  | inl room ↦
      rw room (Reads-one (placeholder ∷ ts) ts n i (omega arith) (ground arith), omega arith)
  | inr taken ↦ rw taken (λ e. cc)
]
parse_operand_lem (literal v ∷ ts) n i =
    (Reads-none (literal v ∷ ts) ts n i (omega arith), omega arith)
parse_operand_lem (_ ∷ ts) n i = λ e. cc

operand_indices-cons :
    (o : Operand) (os : List Operand)
    → operand_indices (o ∷ os) ≡ operand_indices (o ∷ []) ++ operand_indices os
operand_indices-cons (argument i) os = refl
operand_indices-cons (constant v) os = refl

-- An operand list is not empty.
abbrev TakesSome : Parser → List Operand × Parser → Type 0
TakesSome p (os, q) = Takes p (os, q) × (0 < length os)

-- One operand, then a list.
TakesSome-cons :
    {p q r s : Parser} (o : Operand) (os : List Operand)
    → TakesOne p (o, q)
    → Advances q r
    → TakesSome r (os, s)
    → TakesSome p (o ∷ os, s)
TakesSome-cons o os a b c =
    let reads = Reads-trans (Reads-Advances a.0 b) c.0.0 in
    ((rw operand_indices-cons reads, omega (arith, a.1, b.shorter, c.0.1)), omega arith)

parse_operand_list_lem :
    (fuel : ℕ) (p : Parser)
    → length p.tokens < fuel
    → Outcome (TakesSome p) (parse_operand_list fuel p)
unfolding parse_operand_list
parse_operand_list_lem zero p h = absurd (omega arith)
parse_operand_list_lem (suc fuel) p h =
    Outcome-bind (TakesOne p) (TakesSome p) (parse_operand p) _
      (parse_operand_lem p.tokens p.args p.arg_index)
      λ r taken.
        Outcome-match (TakesSome p) is_comma r.1
          (λ m.
            if m.0
            then (parse_operand_list fuel m.1 >>= λ s. ok (r.0 ∷ s.0, s.1))
            else ok (r.0 ∷ [], m.1))
          refl (taken, omega arith)
          λ q step.
            Outcome-bind (TakesSome q) (TakesSome p) (parse_operand_list fuel q) _
              (parse_operand_list_lem fuel q (omega (arith, taken.1, step.shorter)))
              λ s tail. TakesSome-cons r.0 s.0 taken step tail

close_operands_lem :
    (p : Parser) (s : List Operand × Parser)
    → TakesSome p s
    → Outcome (TakesSome p) (close_operands s)
unfolding close_operands
close_operands_lem p (os, q) taken =
    Outcome-match (TakesSome p) is_right q
      (λ m. if m.0 then ok (os, m.1) else err expected_in_close) refl (λ e. cc)
      λ r step. ((Reads-Advances taken.0.0 step, omega (arith, taken.0.1, step.shorter)), taken.1)

-- The operands suit the operator: one, or for an IN at least one.
abbrev Suits : Str → Parser → List Operand × Parser → Type 0
Suits op p (os, q) = Takes p (os, q) × ((length os ≡ 1) ⊎ ((is_in op ≡ true) × (0 < length os)))

parse_operands_lem : (op : Str) (p : Parser) → Outcome (Suits op p) (parse_operands op p)
unfolding parse_operands
parse_operands_lem op p = elim (Bool-cases (is_in op)) [
  | inl several ↦ rw several (
      Outcome-match (Suits op p) is_left p
        (λ m.
          if m.0
          then (parse_operand_list (suc (length m.1.tokens)) m.1 >>= close_operands)
          else err expected_in_paren)
        refl (λ e. cc)
        λ q step.
          Outcome-bind (TakesSome q) (Suits op p) (parse_operand_list (suc (length q.tokens)) q) _
            (parse_operand_list_lem (suc (length q.tokens)) q (omega arith))
            λ s taken.
              Outcome-mono (TakesSome q) (Suits op p) (close_operands s)
                (close_operands_lem q s taken)
                λ t closed. (
                  (Advances-Reads step closed.0.0, omega (arith, step.shorter, closed.0.1)),
                  inr (several, closed.1),
                ))
  | inr one ↦ rw one (
      Outcome-bind (TakesOne p) (Suits op p) (parse_operand p) _
        (parse_operand_lem p.tokens p.args p.arg_index) λ r taken. (taken, inl refl))
]

-- parseOperator takes a token, and no argument.
abbrev TakesOperator : Parser → Str × Parser → Type 0
TakesOperator p (op, q) = Advances p q

parse_negated_lem : (t : Token) → Outcome (λ _. Unit {0}) (parse_negated t)
unfolding parse_negated
parse_negated_lem (operator op) =
    elim (Bool-cases (str_eq op (str "LIKE") || str_eq op (str "IN"))) [
      | inl like_or_in ↦ rw like_or_in tt
      | inr other ↦ rw other (λ e. cc)
    ]
parse_negated_lem _ = λ e. cc

parse_operator_lem :
    (ts : List Token) (n i : ℕ) → Outcome (TakesOperator (at ts n i)) (parse_operator (at ts n i))
unfolding parse_operator
parse_operator_lem [] n i = λ e. cc
parse_operator_lem (operator op ∷ ts) n i = Advances-one (operator op) ts n i
parse_operator_lem (not ∷ []) n i = λ e. cc
parse_operator_lem (not ∷ t ∷ ts) n i =
    Outcome-bind (λ _. Unit {0}) (TakesOperator (at (not ∷ t ∷ ts) n i)) (parse_negated t) _
      (parse_negated_lem t)
      λ op _. Advances-trans (Advances-one not (t ∷ ts) n i) (Advances-one t ts n i)
parse_operator_lem (_ ∷ ts) n i = λ e. cc

pub parse_condition_lem :
    (ts : List Token) (n i : ℕ) → Outcome (Parses (at ts n i)) (parse_condition (at ts n i))
unfolding parse_condition
parse_condition_lem [] n i = λ e. cc
parse_condition_lem (identifier name ∷ ts) n i =
    Outcome-bind (TakesOperator (at ts n i)) (Parses (at (identifier name ∷ ts) n i))
      (parse_operator (at ts n i)) _ (parse_operator_lem ts n i)
      λ r step.
        Outcome-bind (Suits r.0 r.1) (Parses (at (identifier name ∷ ts) n i))
          (parse_operands r.0 r.1) _ (parse_operands_lem r.0 r.1)
          λ s taken.
            let ahead = Advances-trans (Advances-one (identifier name) ts n i) step in
            (Advances-Reads ahead taken.0.0, omega (arith, ahead.shorter, taken.0.1), taken.1)
parse_condition_lem (_ ∷ ts) n i = λ e. cc
