-- ===== src/Match/Like.antt =====
-- LIKE of internal/cache/query_match.go.
use thing.Prelude.{
  Str, Bool, not, has_prefix, has_suffix, contains_str, contains_any, trim, trim_prefix,
  trim_suffix, trim_space, str_eq, ◌&&◌, [], ◌∷◌, if◌then◌else◌,
}
use thing.Query.{like_not_text, underscore_pattern, Result, ok, err, ◌>>=◌}
use thing.Value.{Typ, Value}

-- matchLike, behind the trimming of the pattern; the byte 37 is '%'
unfoldable match_pattern : Str → Str → Bool
unfolding has_prefix has_suffix contains_str trim trim_prefix trim_suffix str_eq
match_pattern s pattern =
    let percent = 37 ∷ [] in
    if has_prefix pattern percent && has_suffix pattern percent
    then contains_str s (trim pattern percent)
    else if has_prefix pattern percent
    then has_suffix s (trim_prefix pattern percent)
    else if has_suffix pattern percent
    then has_prefix s (trim_suffix pattern percent)
    else str_eq s pattern

-- matchLike; the byte 95 is '_'
unfoldable match_like : Str → Str → Result Bool
unfolding contains_any trim_space match_pattern
match_like s pattern =
    if contains_any pattern (95 ∷ [])
    then err underscore_pattern
    else ok (match_pattern s (trim_space pattern))

-- stringValueForLike: no text, a nil pointer to a text, or a text
pub data LikeText : Type 0 where
  no_text null_text : LikeText
  text : Str → LikeText

unfoldable string_value_for_like : Value → LikeText
string_value_for_like (Value.text s) = text s
string_value_for_like (Value.pointer (Value.text s)) = text s
string_value_for_like (Value.null_pointer Typ.text) = null_text
string_value_for_like _ = no_text

-- The cases LIKE and NOT LIKE, without the negation.
unfoldable like_texts : LikeText → LikeText → (Bool → Bool) → Result Bool
unfolding match_like
like_texts no_text p sign = err like_not_text
like_texts m no_text sign = err like_not_text
like_texts null_text p sign = ok Bool.false
like_texts (text s) null_text sign = ok Bool.false
like_texts (text s) (text p) sign = match_like s p >>= λ met. ok (sign met)

unfoldable pub like : Value → Value → Result Bool
unfolding string_value_for_like like_texts
like field arg = like_texts (string_value_for_like field) (string_value_for_like arg) (λ b. b)

unfoldable pub not_like : Value → Value → Result Bool
unfolding string_value_for_like like_texts
not_like field arg = like_texts (string_value_for_like field) (string_value_for_like arg) not
