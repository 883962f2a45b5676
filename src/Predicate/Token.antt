-- ===== src/Predicate/Token.antt =====
-- Tokens of internal/cache/query_predicate.go, and the classes of its words.
use thing.Prelude.{
  ℕ, zero, suc, ◌+◌, ◌-◌, ◌*◌, ◌^◌, ℤ, pos, negsuc, Str, str, str_eq, to_upper, Bool, true, false,
  ◌&&◌, ◌||◌, Option, none, some, [], ◌∷◌, is_empty, ltb, leb, ◌==◌, if◌then◌else◌,
}
use thing.Value.{Value, IntKind, FloatKind, Runtime}

-- tokenKind; the zero of `kind`, tokenEOF, is `end`. A token of a kind with one spelling has it.
pub data Token : Type 0 where
  end : Token
  identifier : Str → Token
  operator : Str → Token
  placeholder : Token
  literal : Value → Token
  and or not left_paren right_paren comma : Token

-- The digits of a decimal number, none at a byte that is no digit.
unfoldable pub digits : ℕ → Str → Option ℕ
digits n [] = some n
digits n (c ∷ s) = elim (leb 48 c && leb c 57) [
  | true ↦ digits (n * 10 + (c - 48)) s
  | false ↦ none
]

unfoldable signed : Bool → Str → Option ℤ
unfolding digits
signed minus s = if is_empty s then none else elim (digits 0 s) [
  | none ↦ none
  | some n ↦
      if minus
      then (if leb n (2 ^ 63) then some (elim n [ zero ↦ pos 0 | suc m ↦ negsuc m ]) else none)
      else (if ltb n (2 ^ 63) then some (pos n) else none)
]

-- strconv.ParseInt(s, 10, 64)
unfoldable parse_int : Str → Option ℤ
unfolding signed
parse_int [] = none
parse_int (c ∷ s) =
    if c == 45 then signed true s else if c == 43 then signed false s else signed false (c ∷ s)

unfoldable classify_number : Runtime → Str → Token
unfolding parse_int
classify_number f word = elim (parse_int word) [
  | some n ↦ literal (Value.int IntKind.int64 n)
  | none ↦ elim (f.parse word) [
    | some b ↦ literal (Value.float FloatKind.float64 b)
    | none ↦ identifier word
  ]
]

-- classifyWordToken
unfoldable pub classify_word : Runtime → Str → Token
unfolding classify_number to_upper str_eq
classify_word f word =
    let upper = to_upper word in
    if str_eq upper (str "AND")
    then and
    else if str_eq upper (str "OR")
    then or
    else if str_eq upper (str "NOT")
    then not
    else if str_eq upper (str "LIKE") || str_eq upper (str "IN")
    then operator upper
    else if str_eq upper (str "TRUE")
    then literal (Value.boolean true)
    else if str_eq upper (str "FALSE")
    then literal (Value.boolean false)
    else if str_eq upper (str "NULL")
    then literal Value.nil
    else classify_number f word
