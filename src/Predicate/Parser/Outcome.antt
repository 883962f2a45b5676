-- ===== src/Predicate/Parser/Outcome.antt =====
-- What a run of a part of the parser of internal/cache/query_predicate.go may lead to: the words
-- in which the proofs about the parser are stated.
use thing.Prelude.{
  ℕ, ◌+◌, ◌-◌, ◌≤◌, ◌<◌, str, Bool, true, false, ◌≡◌, refl, ◌⊎◌, inl, inr, List, [], ◌∷◌, ◌++◌, ap,
  length, iota, iota-append, arith,
}
use thing.Query.{Outcome, Result}
use thing.Predicate.Token.{Token, end}
use thing.Predicate.Node.{Operand, argument, constant, Node, logical, condition, is_in}
use thing.Predicate.Cursor.{Parser, match_token}

-- The argument indices of placeholders, from left to right.
abbrev pub operand_indices : List Operand → List ℕ
operand_indices [] = []
operand_indices (argument i ∷ os) = i ∷ operand_indices os
operand_indices (constant v ∷ os) = operand_indices os

abbrev pub node_indices : Node → List ℕ
node_indices (logical op l r) = node_indices l ++ node_indices r
node_indices (condition field operator operands) = operand_indices operands

-- The shape of what the parser builds: the two logical operators, and as many operands as the
-- operator of a condition takes.
abbrev pub IsWellFormed : Node → Type 0
IsWellFormed (logical op l r) =
    ((op ≡ str "AND") ⊎ (op ≡ str "OR")) × IsWellFormed l × IsWellFormed r
IsWellFormed (condition field operator operands) =
    (length operands ≡ 1) ⊎ ((is_in operator ≡ true) × (0 < length operands))

-- From `p` to `q` the parser has handed out the arguments `found`, in order and each once.
pub record Reads (p q : Parser) (found : List ℕ) : Type 0 where
  no_longer : length q.tokens ≤ length p.tokens
  args_kept : q.args ≡ p.args
  grows : p.arg_index ≤ q.arg_index
  bounded : p.arg_index ≤ p.args → q.arg_index ≤ p.args
  pub in_order : found ≡ iota p.arg_index (q.arg_index - p.arg_index)

pub Reads-trans :
    {p q r : Parser} {xs ys : List ℕ} → Reads p q xs → Reads q r ys → Reads p r (xs ++ ys)
Reads-trans {p} {q} {r} a b =
    let m = q.arg_index - p.arg_index in
    let n = r.arg_index - q.arg_index in
    let e : p.arg_index + m ≡ q.arg_index = omega arith in
    let f : m + n ≡ r.arg_index - p.arg_index = omega arith in
    record {
      no_longer = omega arith;
      args_kept = ground arith;
      grows = omega arith;
      bounded = λ h. ground (arith, a.bounded h, b.bounded);
      in_order = ground (arith, iota-append p.arg_index m n);
    }

abbrev pub at : List Token → ℕ → ℕ → Parser
at ts n i = record { tokens = ts; args = n; arg_index = i }

-- From `p` to `q` a token has been taken, and no argument.
pub record Advances (p q : Parser) : Type 0 where
  pub shorter : length q.tokens < length p.tokens
  same_args : q.args ≡ p.args
  same_index : q.arg_index ≡ p.arg_index

pub Advances-trans : {p q r : Parser} → Advances p q → Advances q r → Advances p r
Advances-trans a b = record {
  shorter = omega (arith, a.shorter, b.shorter);
  same_args = ground (arith, a.same_args, b.same_args);
  same_index = ground (arith, a.same_index, b.same_index);
}

pub Advances-one : (t : Token) (ts : List Token) (n i : ℕ) → Advances (at (t ∷ ts) n i) (at ts n i)
Advances-one t ts n i = record { shorter = omega arith; same_args = refl; same_index = refl }

pub Reads-Advances : {p q r : Parser} {xs : List ℕ} → Reads p q xs → Advances q r → Reads p r xs
Reads-Advances a b = record {
  no_longer = omega (arith, a.no_longer, b.shorter);
  args_kept = ground (arith, b.same_args);
  grows = omega (arith, b.same_index);
  bounded = λ k. ground (arith, a.bounded k, b.same_index);
  in_order = ground (arith, a.in_order, b.same_index);
}

pub Advances-Reads : {p q r : Parser} {xs : List ℕ} → Advances p q → Reads q r xs → Reads p r xs
Advances-Reads a b = record {
  no_longer = omega (arith, a.shorter, b.no_longer);
  args_kept = ground (arith, a.same_args);
  grows = omega (arith, a.same_index, b.grows);
  bounded = λ k. ground (arith, a.same_index, a.same_args, b.bounded);
  in_order = ground (arith, a.same_index, b.in_order);
}

-- What the parser of an expression, or of a part of it, promises of a node that it returns.
abbrev pub Parses : Parser → Node × Parser → Type 0
Parses p (n, q) = Reads p q (node_indices n) × (length q.tokens < length p.tokens) × IsWellFormed n

-- A test for a token that the end token fails: either nothing moves, or one token is taken.
match_token-cases :
    (kind : Token → Bool) (ts : List Token) (n i : ℕ)
    → kind end ≡ false
    → (match_token kind (at ts n i) ≡ (false, at ts n i))
      ⊎ ((t : Token) × (rest : List Token) × (ts ≡ t ∷ rest)
          × (match_token kind (at ts n i) ≡ (true, at rest n i)))
unfolding match_token
match_token-cases kind [] n i h = inl (rw h)
match_token-cases kind (t ∷ ts) n i h = by_kind (kind t) refl
  where
    by_kind :
        (b : Bool)
        → kind t ≡ b
        → (match_token kind (at (t ∷ ts) n i) ≡ (false, at (t ∷ ts) n i))
          ⊎ ((u : Token) × (rest : List Token) × (t ∷ ts ≡ u ∷ rest)
              × (match_token kind (at (t ∷ ts) n i) ≡ (true, at rest n i)))
    by_kind true e = inr (t, ts, refl, rw e)
    by_kind false e = inl (rw e)

-- A step that takes tokens and hands out nothing, or the next argument.
pub Reads-none :
    (ts us : List Token) (n i : ℕ) → length us ≤ length ts → Reads (at ts n i) (at us n i) []
Reads-none ts us n i h =
    let e : i - i ≡ 0 = omega arith in
    record {
      no_longer = h;
      args_kept = refl;
      grows = omega arith;
      bounded = λ k. k;
      in_order = rw e;
    }

pub Reads-one :
    (ts us : List Token) (n i : ℕ)
    → length us ≤ length ts
    → i < n
    → Reads (at ts n i) (at us n (i + 1)) (i ∷ [])
Reads-one ts us n i h room =
    let e : i + 1 - i ≡ 1 = omega arith in
    record {
      no_longer = h;
      args_kept = refl;
      grows = omega arith;
      bounded = λ k. omega arith;
      in_order = rw e;
    }

-- To reason about what follows a test for a token.
pub Outcome-match {ℓ} :
    {B : Type ℓ} (Q : B → Type 0) (kind : Token → Bool) (p : Parser) (k : Bool × Parser → Result B)
    → kind end ≡ false
    → Outcome Q (k (false, p))
    → ((q : Parser) → Advances p q → Outcome Q (k (true, q)))
    → Outcome Q (k (match_token kind p))
Outcome-match Q kind p k at_end stay go =
    elim (match_token-cases kind p.tokens p.args p.arg_index at_end) [
      | inl e ↦ rw e stay
      | inr (t, rest, split, e) ↦ rw e (
          go (at rest p.args p.arg_index) (record {
            shorter = omega (arith, ap length split);
            same_args = refl;
            same_index = refl;
          }))
    ]
