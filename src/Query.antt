-- ===== src/Query.antt =====
-- What the parts of internal/cache share: the parameters of a query and the errors of parsing and
-- matching a WHERE clause. An error stands for its message, without the values printed in it.
use thing.Prelude.{Str, Bool, true, false, List, ◌≡◌, refl, ◌≢◌, if◌then◌else◌}
use thing.Value.{Value}

pub record QueryParams : Type 0 where
  pub where_clause : Str
  pub args : List Value
  pub order : Str
  pub preloads : List Str
  pub include_deleted : Bool

pub data Error : Type 0 where
  -- internal/cache/query_predicate.go
  unsupported_structure argument_mismatch unsupported_symbol unterminated_identifier : Error
  unterminated_literal expected_paren expected_field expected_operator not_without_like_or_in :
      Error
  expected_in_paren expected_in_close no_in_operand not_enough_arguments expected_operand : Error
  unsupported_logical no_operands single_operand index_out_of_bounds : Error
  -- internal/cache/query_match.go
  nil_model model_no_pointer empty_table nil_column_map column_not_found field_not_valid
        like_not_text :
      Error
  underscore_pattern unsupported_operator nil_model_value nil_argument incompatible_int : Error
  incompatible_uint incompatible_float incompatible_text unsupported_type fallthrough : Error
  in_not_slice in_incompatible in_conversion : Error
  -- a run-time panic
  panicked : Error
  -- no Go error: the fuel of a loop of the model ran out
  out_of_fuel : Error

pub data Result {ℓ} (A : Type ℓ) : Type ℓ where
  ok : A → Result A
  err : Error → Result A

infixl 5 ◌>>=◌
abbrev pub ◌>>=◌ {ℓ κ} : {A : Type ℓ} {B : Type κ} → Result A → (A → Result B) → Result B
ok a >>= f = f a
err e >>= f = err e

-- A result satisfies `P`, and an error is one of the code, not a lack of fuel.
abbrev pub Outcome {ℓ} : {A : Type ℓ} → (A → Type 0) → Result A → Type 0
Outcome P (ok a) = P a
Outcome P (err e) = e ≢ out_of_fuel

pub Outcome-bind {ℓ κ} :
    {A : Type ℓ} {B : Type κ} (P : A → Type 0) (Q : B → Type 0) (m : Result A) (f : A → Result B)
    → Outcome P m
    → ((a : A) → P a → Outcome Q (f a))
    → Outcome Q (m >>= f)
Outcome-bind P Q (ok a) f h k = k a h
Outcome-bind P Q (err e) f h k = h

pub Outcome-mono {ℓ} :
    {A : Type ℓ} (P Q : A → Type 0) (m : Result A)
    → Outcome P m
    → ((a : A) → P a → Q a)
    → Outcome Q m
Outcome-mono P Q (ok a) h k = k a h
Outcome-mono P Q (err e) h k = h

pub Outcome-if {ℓ} :
    {A : Type ℓ} (P : A → Type 0) (b : Bool) (m n : Result A)
    → (b ≡ true → Outcome P m)
    → (b ≡ false → Outcome P n)
    → Outcome P (if b then m else n)
Outcome-if P true m n h k = h refl
Outcome-if P false m n h k = k refl
