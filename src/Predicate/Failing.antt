-- ===== src/Predicate/Failing.antt =====
-- A failed evaluation of a predicate of internal/cache/query_predicate.go, and the condition in
-- which it has failed.
use thing.Prelude.{
  Str, str, get_elem?, some, Bool, true, false, ◌≡◌, ◌⊎◌, List, [], ◌∷◌, if◌then◌else◌,
}
use mathlib.Core.List.{Memᴰ}
use thing.Query.{Error, Result, ok, err, ◌>>=◌}
use thing.Value.{Value}
use thing.Predicate.Node.{Operand, constant, argument, Node, logical, condition}

-- A result is a value, or an error of which `P` holds.
abbrev pub FailsWith : (Error → Type 0) → Result Bool → Type 0
FailsWith P (ok b) = Unit
FailsWith P (err e) = P e

pub FailsWith-map :
    (P Q : Error → Type 0) (m : Result Bool)
    → ((e : Error) → P e → Q e)
    → FailsWith P m
    → FailsWith Q m
FailsWith-map P Q (ok b) k h = tt
FailsWith-map P Q (err e) k h = k e h

pub FailsWith-bind :
    (P : Error → Type 0) (m : Result Bool) (g : Bool → Result Bool)
    → FailsWith P m
    → ((b : Bool) → FailsWith P (g b))
    → FailsWith P (m >>= g)
FailsWith-bind P (ok b) g h k = k b
FailsWith-bind P (err e) g h k = h

pub FailsWith-if :
    (P : Error → Type 0) (b : Bool) (m n : Result Bool)
    → FailsWith P m
    → FailsWith P n
    → FailsWith P (if b then m else n)
FailsWith-if P true m n h k = h
FailsWith-if P false m n h k = k

-- The values that operands stand for: a literal for itself, a placeholder for its argument.
abbrev pub StandFor : List Value → List Operand → List Value → Type 0
StandFor args [] [] = Unit
StandFor args [] (v ∷ vs) = ⊥
StandFor args (o ∷ os) [] = ⊥
StandFor args (constant w ∷ os) (v ∷ vs) = (w ≡ v) × StandFor args os vs
StandFor args (argument i ∷ os) (v ∷ vs) = (get_elem? args i ≡ some v) × StandFor args os vs

-- A condition stands in a tree.
pub data HasCondition (field operator : Str) (operands : List Operand) : Node → Type 0 where
  here : HasCondition field operator operands (condition field operator operands)
  left :
      (op : Str) (l r : Node)
      → HasCondition field operator operands l
      → HasCondition field operator operands (logical op l r)
  right :
      (op : Str) (l r : Node)
      → HasCondition field operator operands r
      → HasCondition field operator operands (logical op l r)

-- The tests that a condition makes of its values: its operator on its only value, or, for IN and NOT
-- IN, equality on one of them.
pub data MakesTest (operator : Str) (values : List Value) : Str → Value → Type 0 where
  whole : (v : Value) → values ≡ v ∷ [] → MakesTest operator values operator v
  member :
      (v : Value)
      → (operator ≡ str "IN") ⊎ (operator ≡ str "NOT IN")
      → Memᴰ v values
      → MakesTest operator values (str "=") v
