-- ===== src/Predicate/Cursor.antt =====
-- The cursor of the parser of internal/cache/query_predicate.go. For the token slice and the
-- position in it the model keeps the tokens from that position on; behind the last one `current` is
-- the end token.
use thing.Prelude.{ℕ, Bool, true, false, List, [], ◌∷◌, if◌then◌else◌}
use thing.Predicate.Token.{Token, end, and, or, left_paren, right_paren, comma}

-- predicateParser
pub record Parser : Type 0 where
  pub tokens : List Token
  pub args : ℕ
  pub arg_index : ℕ

-- current
unfoldable pub current : List Token → Token
current [] = end
current (t ∷ ts) = t

-- p.pos++
unfoldable pub advance : List Token → List Token
advance [] = []
advance (t ∷ ts) = ts

unfoldable pub is_or : Token → Bool
is_or or = true
is_or _ = false

unfoldable pub is_and : Token → Bool
is_and and = true
is_and _ = false

unfoldable pub is_left : Token → Bool
is_left left_paren = true
is_left _ = false

unfoldable pub is_right : Token → Bool
is_right right_paren = true
is_right _ = false

unfoldable pub is_comma : Token → Bool
is_comma comma = true
is_comma _ = false

unfoldable pub is_end : Token → Bool
is_end end = true
is_end _ = false

-- match(kind): whether the current token is of a kind, and the parser behind it if it is
unfoldable pub match_token : (Token → Bool) → Parser → Bool × Parser
unfolding current advance
match_token kind p =
    if kind (current p.tokens) then (true, record p { tokens = advance p.tokens }) else (false, p)
