-- ===== src/Predicate/Errors.antt =====
-- The errors in the evaluation of a predicate that parseQueryPredicate of
-- internal/cache/query_predicate.go returned.
use thing.Prelude.{
  ℕ, zero, suc, ◌+◌, ◌≤◌, ◌<◌, Str, str, str_eq, str_eq_iff, Bool, true, false, ◌≡◌, refl, ◌⊎◌, inl,
  inr, List, [], ◌∷◌, ◌++◌, some, length, get_elem?, All, iota, arith, Bool-cases,
}
use mathlib.Core.List.{Memᴰ}
use thing.Query.{QueryParams, Error, Result, ok, err}
use thing.Value.{Value, Runtime}
use thing.Predicate.Node.{
  Operand, argument, constant, Node, logical, condition, Predicate, resolve_operands, is_in,
  is_list_argument, match_any, match_values, combine, match_node, match_predicate,
}
use thing.Predicate.Failing.{
  FailsWith, FailsWith-map, FailsWith-bind, FailsWith-if, StandFor, HasCondition, here, left, right,
  MakesTest, whole, member,
}
use thing.Predicate.Parser.{parse_query_predicate}
use thing.Predicate.Parser.Outcome.{operand_indices, node_indices, IsWellFormed}
use thing.Predicate.Arguments.{UsesArguments, parse_arguments}

-- Indices below a bound.
abbrev Below : ℕ → List ℕ → Type 0
Below k = All (λ i. i < k)

Below-iota : (k a n : ℕ) → a + n ≤ k → Below k (iota a n)
Below-iota k a zero h = tt
Below-iota k a (suc n) h = (omega arith, Below-iota k (suc a) n (omega arith))

Below-left : (k : ℕ) (xs ys : List ℕ) → Below k (xs ++ ys) → Below k xs
Below-left k [] ys h = tt
Below-left k (x ∷ xs) ys h = (h.0, Below-left k xs ys h.1)

Below-right : (k : ℕ) (xs ys : List ℕ) → Below k (xs ++ ys) → Below k ys
Below-right k [] ys h = h
Below-right k (x ∷ xs) ys h = Below-right k xs ys h.1

get_elem?-some :
    (args : List Value) (i : ℕ) → i < length args → (v : Value) × (get_elem? args i ≡ some v)
get_elem?-some [] i h = elim h [ ]
get_elem?-some (v ∷ args) zero h = (v, refl)
get_elem?-some (v ∷ args) (suc i) h = get_elem?-some args i (omega arith)

resolve_lem :
    (args : List Value) (os : List Operand)
    → Below (length args) (operand_indices os)
    → (vs : List Value) × (resolve_operands args os ≡ ok vs)
      × (length vs ≡ length os)
      × StandFor args os vs
unfolding resolve_operands
resolve_lem args [] h = ([], refl, refl, tt)
resolve_lem args (constant v ∷ os) h =
    let (vs, e, same, stand) = resolve_lem args os h in (v ∷ vs, rw e, omega arith, (refl, stand))
resolve_lem args (argument i ∷ os) h =
    let (v, found) = get_elem?-some args i h.0 in
    let (vs, e, same, stand) = resolve_lem args os h.1 in
    (v ∷ vs, ground (arith, found, e), omega arith, (found, stand))

in_lem :
    (operator : Str) → is_in operator ≡ true → (operator ≡ str "IN") ⊎ (operator ≡ str "NOT IN")
unfolding is_in
in_lem operator h = elim (Bool-cases (str_eq operator (str "IN"))) [
  | inl e ↦ inl ((str_eq_iff operator (str "IN")).0 e)
  | inr e ↦ inr ((str_eq_iff operator (str "NOT IN")).0 (ground (arith, h, e)))
]

module _ (test : Str → Str → Value → Result Bool) where
  -- A test that a condition of the tree makes of the values of its operands fails with the error.
  pub record Failure (args : List Value) (n : Node) (e : Error) : Type 0 where
    pub field : Str
    pub operator : Str
    pub operands : List Operand
    pub occurs : HasCondition field operator operands n
    pub values : List Value
    pub resolved : StandFor args operands values
    tested : Str
    tested_value : Value
    pub made : MakesTest operator values tested tested_value
    pub fails : test field tested tested_value ≡ err e

  Failure-left :
      (args : List Value) (op : Str) (l r : Node) (e : Error)
      → Failure args l e
      → Failure args (logical op l r) e
  Failure-left args op l r e f = record {
    field = f.field;
    operator = f.operator;
    operands = f.operands;
    occurs = left op l r f.occurs;
    values = f.values;
    resolved = f.resolved;
    tested = f.tested;
    tested_value = f.tested_value;
    made = f.made;
    fails = f.fails;
  }

  Failure-right :
      (args : List Value) (op : Str) (l r : Node) (e : Error)
      → Failure args r e
      → Failure args (logical op l r) e
  Failure-right args op l r e f = record {
    field = f.field;
    operator = f.operator;
    operands = f.operands;
    occurs = right op l r f.occurs;
    values = f.values;
    resolved = f.resolved;
    tested = f.tested;
    tested_value = f.tested_value;
    made = f.made;
    fails = f.fails;
  }

  -- The error of one test of a condition.
  abbrev TestFails : Str → Str → List Value → Error → Type 0
  TestFails field operator vs e =
      (tested : Str) × (v : Value) × MakesTest operator vs tested v × (test field tested v ≡ err e)

  test_lem :
      (field operator tested : Str) (vs : List Value) (v : Value)
      → MakesTest operator vs tested v
      → FailsWith (TestFails field operator vs) (test field tested v)
  test_lem field operator tested vs v made = by_result (test field tested v) refl
    where
      by_result :
          (r : Result Bool) → test field tested v ≡ r → FailsWith (TestFails field operator vs) r
      by_result (ok b) h = tt
      by_result (err e) h = (tested, v, made, h)

  match_any_lem :
      (field operator : Str) (all vs : List Value)
      → (operator ≡ str "IN") ⊎ (operator ≡ str "NOT IN")
      → ((v : Value) → Memᴰ v vs → Memᴰ v all)
      → FailsWith (TestFails field operator all) (match_any (test field (str "=")) vs)
  unfolding match_any
  match_any_lem field operator all [] several part = tt
  match_any_lem field operator all (v ∷ vs) several part =
      FailsWith-bind _ (test field (str "=") v) _
        (test_lem field operator (str "=") all v (member v several (part v (Memᴰ.head refl))))
        λ found.
          FailsWith-if _ found (ok true) _ tt
            (match_any_lem field operator all vs several (λ w m. part w (Memᴰ.tail m)))

  match_values_lem :
      (args : List Value) (field operator : Str) (os : List Operand) (vs : List Value)
      → length vs ≡ length os
      → (length os ≡ 1) ⊎ ((is_in operator ≡ true) × (0 < length os))
      → FailsWith (TestFails field operator vs) (match_values test args field operator os vs)
  unfolding match_values
  match_values_lem args field operator os [] same known = absurd (omega arith)
  match_values_lem args field operator os (v ∷ []) same known =
      let one = test_lem field operator operator (v ∷ []) v (whole v refl) in
      elim (Bool-cases (is_in operator)) [
        | inr single ↦ rw (single) one
        | inl several ↦ rw several (
            FailsWith-if _ (is_list_argument os) _ _ one (
              FailsWith-bind _ (match_any (test field (str "=")) (v ∷ [])) _
                (match_any_lem field operator (v ∷ []) (v ∷ []) (in_lem operator several)
                  (λ w m. m))
                (λ found. tt)))
      ]
  match_values_lem args field operator os (v ∷ w ∷ vs) same known =
      let several : is_in operator ≡ true = ground (arith, same, known) in
      rw several (
        FailsWith-bind _ (match_any (test field (str "=")) (v ∷ w ∷ vs)) _
          (match_any_lem field operator (v ∷ w ∷ vs) (v ∷ w ∷ vs) (in_lem operator several)
            (λ x m. m))
          (λ found. tt))

  combine_lem :
      (P : Error → Type 0) (op : Str) (b : Bool) (m : Result Bool)
      → (op ≡ str "AND") ⊎ (op ≡ str "OR")
      → FailsWith P m
      → FailsWith P (combine op b m)
  unfolding combine
  combine_lem P op b m (inl e) h = rw e (FailsWith-if P b m (ok false) h tt)
  combine_lem P op b m (inr e) h = rw e (FailsWith-if P b (ok true) m tt h)

  match_node_lem :
      (args : List Value) (n : Node)
      → IsWellFormed n
      → Below (length args) (node_indices n)
      → FailsWith (Failure args n) (match_node test args n)
  unfolding match_node
  match_node_lem args (logical op l r) w b =
      FailsWith-bind _ (match_node test args l) _
        (FailsWith-map _ _ (match_node test args l) (Failure-left args op l r) (
          match_node_lem args l w.1 (Below-left (length args) (node_indices l) (node_indices r) b)))
        λ found. combine_lem _ op found (match_node test args r) w.0 (
          FailsWith-map _ _ (match_node test args r) (Failure-right args op l r) (
            match_node_lem args r w.2
              (Below-right (length args) (node_indices l) (node_indices r) b)))
  match_node_lem args (condition field operator os) w b =
      let (vs, found, same, resolved) = resolve_lem args os b in
      rw found (
        FailsWith-map (TestFails field operator vs) _ (match_values test args field operator os vs)
          (λ e t. record {
            field = field;
            operator = operator;
            operands = os;
            occurs = here;
            values = vs;
            resolved = resolved;
            tested = t.0;
            tested_value = t.1;
            made = t.2;
            fails = t.3;
          })
          (match_values_lem args field operator os vs same w))

  -- The error of a predicate is that of a condition of its tree.
  abbrev pub FailsInCondition : Predicate → Error → Type 0
  FailsInCondition p e = (n : Node) × (p.root ≡ some n) × Failure p.args n e

  match_predicate_lem :
      (args : List Value) (p : Predicate)
      → UsesArguments args p
      → FailsWith (FailsInCondition p) (match_predicate test p)
  unfolding match_predicate
  match_predicate_lem args p (same, inl blank) = rw blank tt
  match_predicate_lem args p (same, inr (n, found, order, w)) =
      let failure =
        match_node_lem p.args n w
          (rw (order, same) (Below-iota (length args) 0 (length args) (omega arith))) in
      simp (match_predicate, found)
        (FailsWith-map _ (FailsInCondition p) (match_node test p.args n) (λ e h. (n, found, h))
          failure)

-- Where the evaluation of a predicate that parseQueryPredicate returned fails, a condition of its tree
-- fails: its operands stand for values, a literal for itself and a placeholder for its argument, and
-- the error is that of the test of its field with its operator on its only value or, for IN and NOT
-- IN, with equality on one of its values.
pub match_predicate_errors :
    (test : Str → Str → Value → Result Bool) (f : Runtime) (params : QueryParams) (p : Predicate)
    (e : Error)
    → parse_query_predicate f params ≡ ok p
    → match_predicate test p ≡ err e
    → FailsInCondition test p e
match_predicate_errors test f params p e parsed failed =
    rw failed at (match_predicate_lem test params.args p (parse_arguments f params p parsed))
