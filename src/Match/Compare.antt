-- ===== src/Match/Compare.antt =====
-- The orders >, <, >=, <= of internal/cache/query_match.go.
use thing.Prelude.{
  ℕ, ◌-◌, ◌^◌, ℤ, pos, negsuc, eq_ℤ, ltb_ℤ, Str, str, str_eq, Bool, true, false, ◌||◌, ◌&&◌, Option,
  none, some, [], ◌∷◌, ltb, ◌==◌, if◌then◌else◌,
}
use thing.Query.{
  fallthrough, nil_model_value, nil_argument, incompatible_int, incompatible_uint,
  incompatible_float, incompatible_text, unsupported_type, panicked, Result, ok, err, ◌>>=◌,
}
use thing.Value.{Value, Runtime, int, uint, float, text, time, nil, pointer, null_pointer}

-- a < b on strings
unfoldable str_less : Str → Str → Bool
str_less s [] = false
str_less [] (d ∷ t) = true
str_less (c ∷ s) (d ∷ t) = ltb c d || ((c == d) && str_less s t)

-- The switch on the operator, from `model > arg`, `model < arg` and `model == arg`.
unfoldable by_operator : Str → Bool → Bool → Bool → Result Bool
unfolding str_eq
by_operator operator greater less same =
    if str_eq operator (str ">")
    then ok greater
    else if str_eq operator (str "<")
    then ok less
    else if str_eq operator (str ">=")
    then ok (greater || same)
    else if str_eq operator (str "<=")
    then ok (less || same)
    else err fallthrough

-- convertToInt64
unfoldable convert_to_int64 : Runtime → Value → Option ℤ
convert_to_int64 f (int k n) = some n
convert_to_int64 f (uint k n) = if ltb (2 ^ 63 - 1) n then none else some (pos n)
convert_to_int64 f (float k b) = some (f.to_int b)
convert_to_int64 f _ = none

-- convertToUint64
unfoldable convert_to_uint64 : Runtime → Value → Option ℕ
convert_to_uint64 f (int k (pos n)) = some n
convert_to_uint64 f (int k (negsuc n)) = none
convert_to_uint64 f (uint k n) = some n
convert_to_uint64 f (float k b) = if f.less b 0 then none else some (f.to_uint b)
convert_to_uint64 f _ = none

-- convertToFloat64
unfoldable convert_to_float64 : Runtime → Value → Option ℕ
convert_to_float64 f (int k n) = some (f.of_int n)
convert_to_float64 f (uint k n) = some (f.of_int (pos n))
convert_to_float64 f (float k b) = some b
convert_to_float64 f _ = none

-- The argument of a comparison behind one pointer. reflect's Interface panics on an untyped nil.
unfoldable argument_of : Value → Result Value
argument_of nil = err panicked
argument_of (null_pointer t) = err nil_argument
argument_of (pointer v) = ok v
argument_of v = ok v

unfoldable pub model_of : Value → Result Value
model_of (null_pointer t) = err nil_model_value
model_of (pointer v) = ok v
model_of v = ok v

unfoldable compare_int : Str → ℤ → Option ℤ → Result Bool
unfolding by_operator
compare_int operator m none = err incompatible_int
compare_int operator m (some a) = by_operator operator (ltb_ℤ a m) (ltb_ℤ m a) (eq_ℤ m a)

unfoldable compare_uint : Str → ℕ → Option ℕ → Result Bool
unfolding by_operator
compare_uint operator m none = err incompatible_uint
compare_uint operator m (some a) = by_operator operator (ltb a m) (ltb m a) (m == a)

unfoldable compare_float : Runtime → Str → ℕ → Option ℕ → Result Bool
unfolding by_operator
compare_float f operator m none = err incompatible_float
compare_float f operator m (some a) = by_operator operator (f.less a m) (f.less m a) (f.same m a)

unfoldable compare_plain : Runtime → Value → Value → Str → Result Bool
unfolding compare_int compare_uint compare_float by_operator str_less convert_to_int64
    convert_to_uint64 convert_to_float64
compare_plain f (time t l) (time u m) operator =
    by_operator operator (ltb_ℤ u t) (ltb_ℤ t u) (eq_ℤ t u)
compare_plain f (int k n) a operator = compare_int operator n (convert_to_int64 f a)
compare_plain f (uint k n) a operator = compare_uint operator n (convert_to_uint64 f a)
compare_plain f (float k b) a operator = compare_float f operator b (convert_to_float64 f a)
compare_plain f (text s) (text t) operator =
    by_operator operator (str_less t s) (str_less s t) (str_eq s t)
compare_plain f (text s) a operator = err incompatible_text
compare_plain f m a operator = err unsupported_type

-- compareValues
unfoldable pub compare_values : Runtime → Value → Value → Str → Result Bool
unfolding model_of argument_of compare_plain
compare_values f model arg operator = do
  m ← model_of model
  a ← argument_of arg
  compare_plain f m a operator
