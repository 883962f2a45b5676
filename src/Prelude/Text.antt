-- ===== src/Prelude/Text.antt =====
-- Go strings: lists of bytes, and the functions of package strings that the program calls.
-- Letters outside ASCII have no case here, and white space is the ASCII one.
use Prim.Native.Nat.{ℕ, ◌-◌}
use Prim.Native.Char.{code}
use Prim.Native.String.{String}
use mathlib.Core.Path.{◌≡◌, refl}
use mathlib.Core.Logic.{◌↔◌}
use mathlib.Core.Bool.{Bool, true, false, ◌&&◌, ◌||◌}
use mathlib.Core.List.{List, [], ◌∷◌, map, reverse}
use native.Mathlib.Omega.{arith}
use thing.Prelude.Tests.{leb, ◌==◌, if◌then◌else◌}
use thing.Prelude.Lists.{any, is_empty}

abbrev pub Str : Type 0
Str = List ℕ

-- The bytes of a literal.
abbrev pub str : String → Str
str String.[] = []
str (String.◌∷◌ c s) = code c ∷ str s

unfoldable pub str_eq : Str → Str → Bool
str_eq [] [] = true
str_eq [] (d ∷ t) = false
str_eq (c ∷ s) [] = false
str_eq (c ∷ s) (d ∷ t) = (c == d) && str_eq s t

str_eq_sound : (s t : Str) → str_eq s t ≡ true → s ≡ t
unfolding str_eq
str_eq_sound [] [] h = refl
str_eq_sound [] (d ∷ t) h = absurd (ground arith)
str_eq_sound (c ∷ s) [] h = absurd (ground arith)
str_eq_sound (c ∷ s) (d ∷ t) h = ground (arith, str_eq_sound s t)

pub str_eq_refl : (s : Str) → str_eq s s ≡ true
unfolding str_eq
str_eq_refl [] = refl
str_eq_refl (c ∷ s) = ground (arith, str_eq_refl s)

pub str_eq_iff : (s t : Str) → (str_eq s t ≡ true) ↔ (s ≡ t)
str_eq_iff s t = (str_eq_sound s t, λ e. ground (arith, e, str_eq_refl s))

-- strings.HasPrefix
unfoldable pub has_prefix : Str → Str → Bool
has_prefix s [] = true
has_prefix [] (d ∷ p) = false
has_prefix (c ∷ s) (d ∷ p) = (c == d) && has_prefix s p

-- strings.HasSuffix
unfoldable pub has_suffix : Str → Str → Bool
unfolding has_prefix
has_suffix s p = has_prefix (reverse s) (reverse p)

-- strings.Contains
unfoldable pub contains_str : Str → Str → Bool
unfolding has_prefix
contains_str [] p = has_prefix [] p
contains_str (c ∷ s) p = has_prefix (c ∷ s) p || contains_str s p

-- A byte of a set, and strings.ContainsAny over it.
unfoldable pub member_of : ℕ → Str → Bool
member_of c set = any (λ d. c == d) set

unfoldable pub contains_any : Str → Str → Bool
unfolding member_of
contains_any s set = any (λ c. member_of c set) s

-- strings.TrimLeft and strings.Trim over a set of bytes.
unfoldable pub trim_left : Str → Str → Str
unfolding member_of
trim_left [] set = []
trim_left (c ∷ s) set = if member_of c set then trim_left s set else c ∷ s

unfoldable pub trim_right : Str → Str → Str
unfolding trim_left
trim_right s set = reverse (trim_left (reverse s) set)

unfoldable pub trim : Str → Str → Str
unfolding trim_right
trim s set = trim_right (trim_left s set) set

-- Space, \t, \n, \v, \f, \r.
abbrev pub white : Str
white = 32 ∷ 9 ∷ 10 ∷ 11 ∷ 12 ∷ 13 ∷ []

-- strings.TrimSpace
unfoldable pub trim_space : Str → Str
unfolding trim
trim_space s = trim s white

abbrev drop_bytes : Str → Str → Str
drop_bytes s [] = s
drop_bytes [] (d ∷ p) = []
drop_bytes (c ∷ s) (d ∷ p) = drop_bytes s p

-- strings.TrimPrefix and strings.TrimSuffix
unfoldable pub trim_prefix : Str → Str → Str
unfolding has_prefix
trim_prefix s p = if has_prefix s p then drop_bytes s p else s

unfoldable pub trim_suffix : Str → Str → Str
unfolding has_suffix
trim_suffix s p = if has_suffix s p then reverse (drop_bytes (reverse s) (reverse p)) else s

-- strings.ToUpper
unfoldable pub upper_byte : ℕ → ℕ
upper_byte c = if leb 97 c && leb c 122 then c - 32 else c

unfoldable pub to_upper : Str → Str
unfolding upper_byte
to_upper s = map upper_byte s

-- strings.EqualFold
unfoldable pub equal_fold : Str → Str → Bool
unfolding to_upper str_eq
equal_fold s t = str_eq (to_upper s) (to_upper t)

-- strings.Split at a byte: the pieces, of which there is at least one.
unfoldable split_acc : Str → ℕ → Str → List Str
split_acc acc sep [] = reverse acc ∷ []
split_acc acc sep (c ∷ s) =
    let cut = reverse acc ∷ split_acc [] sep s in
    let go = split_acc (c ∷ acc) sep s in if c == sep then cut else go

unfoldable pub split : Str → ℕ → List Str
unfolding split_acc
split s sep = split_acc [] sep s

-- parts[len(parts)-1], for a list that is not empty
unfoldable pub last_or : List Str → Str → Str
last_or [] d = d
last_or (x ∷ xs) d = last_or xs x

-- strings.Fields, and the hand-written loops like it: the words between bytes of a set.
unfoldable words_acc : Str → Str → Str → List Str
unfolding member_of
words_acc set acc [] = if is_empty acc then [] else reverse acc ∷ []
words_acc set acc (c ∷ s) =
    let stop = words_acc set [] s in
    let go = words_acc set (c ∷ acc) s in
    if member_of c set then (if is_empty acc then stop else reverse acc ∷ stop) else go

unfoldable pub words_by : Str → Str → List Str
unfolding words_acc
words_by set s = words_acc set [] s
