-- ===== src/Value/Convert.antt =====
-- Conversions between Go types: reflect.Type.ConvertibleTo and reflect.Value.Convert.
use thing.Prelude.{
  ℕ, ◌+◌, ◌/◌, ◌%◌, ◌^◌, ℤ, pos, negsuc, to_word, of_word, Str, Bool, true, false, ◌&&◌, ◌||◌,
  Option, none, some, [], ◌∷◌, map, ltb, leb, if◌then◌else◌,
}
use thing.Value.{
  IntKind, UintKind, FloatKind, Typ, Value, Runtime, type_of, typ_eq, to_list, of_list,
}

abbrev int_width : IntKind → ℕ
int_width IntKind.int = 64
int_width IntKind.int8 = 8
int_width IntKind.int16 = 16
int_width IntKind.int32 = 32
int_width IntKind.int64 = 64

abbrev uint_width : UintKind → ℕ
uint_width UintKind.uint = 64
uint_width UintKind.uint8 = 8
uint_width UintKind.uint16 = 16
uint_width UintKind.uint32 = 32
uint_width UintKind.uint64 = 64

unfoldable is_number : Typ → Bool
is_number (Typ.int k) = true
is_number (Typ.uint k) = true
is_number (Typ.float k) = true
is_number _ = false

unfoldable is_integer : Typ → Bool
is_integer (Typ.int k) = true
is_integer (Typ.uint k) = true
is_integer _ = false

unfoldable pub is_any : Typ → Bool
is_any Typ.any = true
is_any _ = false

unfoldable pub is_text : Typ → Bool
is_text Typ.text = true
is_text _ = false

unfoldable is_bytes : Typ → Bool
is_bytes (Typ.slice (Typ.uint UintKind.uint8)) = true
is_bytes _ = false

-- src.ConvertibleTo(dst)
unfoldable pub convertible : Typ → Typ → Bool
unfolding typ_eq is_number is_integer is_any is_text is_bytes
convertible src dst =
    typ_eq src dst
    || (is_number src && is_number dst)
    || (is_integer src && is_text dst)
    || (is_text src && is_bytes dst)
    || (is_bytes src && is_text dst)
    || is_any dst

-- string(rune): the UTF-8 bytes of a code point, those of U+FFFD for what is none.
unfoldable pub encode_rune : ℕ → Str
encode_rune c =
    if ltb c 0x80
    then c ∷ []
    else if ltb c 0x800
    then (0xc0 + c / 64) ∷ (0x80 + c % 64) ∷ []
    else if (leb 0xd800 c && leb c 0xdfff) || ltb 0x10ffff c
    then 0xef ∷ 0xbf ∷ 0xbd ∷ []
    else if ltb c 0x10000
    then (0xe0 + c / 4096) ∷ (0x80 + c / 64 % 64) ∷ (0x80 + c % 64) ∷ []
    else (0xf0 + c / 262144) ∷ (0x80 + c / 4096 % 64) ∷ (0x80 + c / 64 % 64) ∷ (0x80 + c % 64) ∷ []

unfoldable text_of_int : ℤ → Str
unfolding encode_rune
text_of_int (pos n) = encode_rune n
text_of_int (negsuc n) = 0xef ∷ 0xbf ∷ 0xbd ∷ []

unfoldable byte_of : Value → ℕ
byte_of (Value.uint k n) = n
byte_of _ = 0

unfoldable convert_int : Runtime → ℤ → Typ → Option Value
unfolding text_of_int
convert_int f n (Typ.int k) = some (Value.int k (of_word (int_width k) (to_word (int_width k) n)))
convert_int f n (Typ.uint k) = some (Value.uint k (to_word (uint_width k) n))
convert_int f n (Typ.float FloatKind.float32) =
    some (Value.float FloatKind.float32 (f.to_single (f.of_int n)))
convert_int f n (Typ.float FloatKind.float64) = some (Value.float FloatKind.float64 (f.of_int n))
convert_int f n Typ.text = some (Value.text (text_of_int n))
convert_int f n _ = none

unfoldable convert_float : Runtime → ℕ → Typ → Option Value
convert_float f b (Typ.int k) =
    some (Value.int k (of_word (int_width k) (to_word (int_width k) (f.to_int b))))
convert_float f b (Typ.uint k) = some (Value.uint k (f.to_uint b % 2 ^ uint_width k))
convert_float f b (Typ.float FloatKind.float32) =
    some (Value.float FloatKind.float32 (f.to_single b))
convert_float f b (Typ.float FloatKind.float64) = some (Value.float FloatKind.float64 b)
convert_float f b _ = none

-- v.Convert(dst) for a value of a concrete type; none is the panic
unfoldable pub convert : Runtime → Value → Typ → Option Value
unfolding convert_int convert_float typ_eq type_of to_list of_list byte_of is_bytes
convert f v Typ.any = some v
convert f (Value.int k n) t = convert_int f n t
convert f (Value.uint k n) t = convert_int f (pos n) t
convert f (Value.float k b) t = convert_float f b t
convert f (Value.text s) t =
    if typ_eq Typ.text t
    then some (Value.text s)
    else if is_bytes t
    then some (Value.slice (Typ.uint UintKind.uint8) (of_list (map (Value.uint UintKind.uint8) s)))
    else none
convert f (Value.slice t vs) u =
    if typ_eq (Typ.slice t) u
    then some (Value.slice t vs)
    else if is_bytes (Typ.slice t) && is_text u
    then some (Value.text (map byte_of (to_list vs)))
    else none
convert f (Value.null_slice t) u =
    if typ_eq (Typ.slice t) u
    then some (Value.null_slice t)
    else if is_bytes (Typ.slice t) && is_text u
    then some (Value.text [])
    else none
convert f v t = if typ_eq (type_of v) t then some v else none
