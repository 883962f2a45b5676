-- ===== src/Predicate/Parser/Progress.antt =====
-- The whole parser of internal/cache/query_predicate.go: fuel, placeholders and nodes.
use thing.Prelude.{
  ℕ, zero, suc, ◌≤◌, ◌<◌, str, ◌≡◌, refl, ◌⊎◌, inl, inr, List, length, arith, if◌then◌else◌,
}
use thing.Query.{Outcome, Outcome-bind, expected_paren, Result, ok, err, ◌>>=◌}
use thing.Predicate.Node.{Node, logical}
use thing.Predicate.Parser.{
  close_paren, parse_condition, parse_primary, and_loop, parse_and, or_loop, parse_or,
  parse_expression,
}
use thing.Predicate.Cursor.{Parser, is_left, is_right, is_and, is_or}
use thing.Predicate.Parser.Outcome.{
  Outcome-match, Reads-trans, Advances, Reads-Advances, Advances-Reads, Parses,
}
use thing.Predicate.Parser.Operands.{parse_condition_lem}

close_paren_lem : (p : Parser) (s : Node × Parser) → Parses p s → Outcome (Parses p) (close_paren s)
unfolding close_paren
close_paren_lem p (n, q) parsed =
    Outcome-match (Parses p) is_right q (λ m. if m.0 then ok (n, m.1) else err expected_paren) refl
      (λ e. cc)
      λ r step. (Reads-Advances parsed.0 step, omega (arith, parsed.1, step.shorter), parsed.2)

-- Behind a token, what is parsed is parsed from before it.
Advances-Parses : {p q : Parser} (s : Node × Parser) → Advances p q → Parses q s → Parses p s
Advances-Parses (n, r) step parsed =
    (Advances-Reads step parsed.0, omega (arith, step.shorter, parsed.1), parsed.2)

-- Two nodes joined by a logical operator.
Parses-logical :
    {p q r : Parser} (op : List ℕ) (left : Node) (s : Node × Parser)
    → (op ≡ str "AND") ⊎ (op ≡ str "OR")
    → Parses p (left, q)
    → Advances q r
    → Parses r s
    → Parses p (logical op left s.0, s.1)
Parses-logical op left (n, t) known a step b = (
  Reads-trans (Reads-Advances a.0 step) b.0,
  omega (arith, a.1, step.shorter, b.1),
  (known, a.2, b.2),
)

module _ (expression : Parser → Result (Node × Parser)) (depth : ℕ)
    (inner : (q : Parser) → length q.tokens < depth → Outcome (Parses q) (expression q)) where
  parse_primary_lem :
      (p : Parser) → length p.tokens ≤ depth → Outcome (Parses p) (parse_primary expression p)
  unfolding parse_primary
  parse_primary_lem p h =
      Outcome-match (Parses p) is_left p
        (λ m. if m.0 then (expression m.1 >>= close_paren) else parse_condition p) refl
        (parse_condition_lem p.tokens p.args p.arg_index)
        λ q step.
          Outcome-bind (Parses q) (Parses p) (expression q) close_paren
            (inner q (omega (arith, step.shorter)))
            λ s parsed. close_paren_lem p s (Advances-Parses s step parsed)

  and_loop_lem :
      (fuel : ℕ) (p : Parser) (left : Node) (q : Parser)
      → length q.tokens < fuel
      → length p.tokens ≤ depth
      → Parses p (left, q)
      → Outcome (Parses p) (and_loop expression fuel (left, q))
  unfolding and_loop
  and_loop_lem zero p left q f d parsed = absurd (omega arith)
  and_loop_lem (suc fuel) p left q f d parsed =
      Outcome-match (Parses p) is_and q
        (λ m.
          if m.0
          then (parse_primary expression m.1 >>= λ r.
              and_loop expression fuel (logical (str "AND") left r.0, r.1))
          else ok (left, q))
        refl parsed
        λ r step.
          Outcome-bind (Parses r) (Parses p) (parse_primary expression r) _
            (parse_primary_lem r (omega (arith, step.shorter, parsed.1)))
            λ s more.
              and_loop_lem fuel p (logical (str "AND") left s.0) s.1
                (omega (arith, step.shorter, more.1)) d
                (Parses-logical (str "AND") left s (inl refl) parsed step more)

  parse_and_lem :
      (p : Parser) → length p.tokens ≤ depth → Outcome (Parses p) (parse_and expression p)
  unfolding parse_and
  parse_and_lem p h =
      Outcome-bind (Parses p) (Parses p) (parse_primary expression p) _ (parse_primary_lem p h)
        λ s parsed. and_loop_lem (suc (length s.1.tokens)) p s.0 s.1 (omega arith) h parsed

  or_loop_lem :
      (fuel : ℕ) (p : Parser) (left : Node) (q : Parser)
      → length q.tokens < fuel
      → length p.tokens ≤ depth
      → Parses p (left, q)
      → Outcome (Parses p) (or_loop expression fuel (left, q))
  unfolding or_loop
  or_loop_lem zero p left q f d parsed = absurd (omega arith)
  or_loop_lem (suc fuel) p left q f d parsed =
      Outcome-match (Parses p) is_or q
        (λ m.
          if m.0
          then (parse_and expression m.1 >>= λ r.
              or_loop expression fuel (logical (str "OR") left r.0, r.1))
          else ok (left, q))
        refl parsed
        λ r step.
          Outcome-bind (Parses r) (Parses p) (parse_and expression r) _
            (parse_and_lem r (omega (arith, step.shorter, parsed.1)))
            λ s more.
              or_loop_lem fuel p (logical (str "OR") left s.0) s.1
                (omega (arith, step.shorter, more.1)) d
                (Parses-logical (str "OR") left s (inr refl) parsed step more)

  parse_or_lem : (p : Parser) → length p.tokens ≤ depth → Outcome (Parses p) (parse_or expression p)
  unfolding parse_or
  parse_or_lem p h =
      Outcome-bind (Parses p) (Parses p) (parse_and expression p) _ (parse_and_lem p h)
        λ s parsed. or_loop_lem (suc (length s.1.tokens)) p s.0 s.1 (omega arith) h parsed

-- An expression is parsed with fuel for more levels of brackets than there are tokens.
pub parse_expression_lem :
    (depth : ℕ) (p : Parser)
    → length p.tokens < depth
    → Outcome (Parses p) (parse_expression depth p)
unfolding parse_expression
parse_expression_lem zero p h = absurd (omega arith)
parse_expression_lem (suc depth) p h =
    parse_or_lem (parse_expression depth) depth (parse_expression_lem depth) p (omega arith)
