-- ===== src/Value.antt =====
-- The dynamic values that reach the query cache (Go's interface{} with package reflect): query
-- arguments, literals of a WHERE clause and fields of a model. Named types other than time.Time,
-- maps, functions, structs, interface-typed fields and []rune are outside of this universe.
pub mod Convert
pub mod Equality
use thing.Prelude.{
  ℕ, ℤ, Str, Bool, true, false, ◌&&◌, Option, none, some, List, [], ◌∷◌, map, eq_ℤ, str_eq, ◌==◌,
}

pub data IntKind : Type 0 where
  int int8 int16 int32 int64 : IntKind

pub data UintKind : Type 0 where
  uint uint8 uint16 uint32 uint64 : UintKind

pub data FloatKind : Type 0 where
  float32 float64 : FloatKind

-- Static types. `any` is interface{}, which occurs as the element type of a slice.
pub data Typ : Type 0 where
  untyped boolean text time any : Typ
  int : IntKind → Typ
  uint : UintKind → Typ
  float : FloatKind → Typ
  pointer slice : Typ → Typ

-- A float is given by the 64 bits of its value as a float64. A time.Time is an instant and the
-- rest of its representation (location and clock reading), which DeepEqual compares too.
mutual
  pub data Value : Type 0 where
    nil : Value
    boolean : Bool → Value
    int : IntKind → ℤ → Value
    uint : UintKind → ℕ → Value
    float : FloatKind → ℕ → Value
    text : Str → Value
    time : ℤ → ℕ → Value
    null_pointer : Typ → Value
    pointer : Value → Value
    null_slice : Typ → Value
    slice : Typ → Values → Value

  pub data Values : Type 0 where
    empty : Values
    cons : Value → Values → Values

unfoldable pub to_list : Values → List Value
to_list empty = []
to_list (cons v vs) = v ∷ to_list vs

unfoldable pub of_list : List Value → Values
of_list [] = empty
of_list (v ∷ vs) = cons v (of_list vs)

-- What the hardware and packages strconv and fmt do: `parse` is ParseFloat, `print` is the verb %g
-- on a float, and `format` the verb %v, or the String method, on a value of another type. Values have
-- no addresses here: the one that %v prints of a pointer is taken as a function of what it points to.
pub record Runtime : Type 0 where
  pub parse : Str → Option ℕ
  pub print : ℕ → Str
  pub format : Value → Str
  pub less : ℕ → ℕ → Bool
  pub same : ℕ → ℕ → Bool
  pub of_int : ℤ → ℕ
  pub to_int : ℕ → ℤ
  pub to_uint : ℕ → ℕ
  pub to_single : ℕ → ℕ

-- reflect.TypeOf
unfoldable pub type_of : Value → Typ
type_of nil = Typ.untyped
type_of (boolean b) = Typ.boolean
type_of (int k n) = Typ.int k
type_of (uint k n) = Typ.uint k
type_of (float k b) = Typ.float k
type_of (text s) = Typ.text
type_of (time t l) = Typ.time
type_of (null_pointer t) = Typ.pointer t
type_of (pointer v) = Typ.pointer (type_of v)
type_of (null_slice t) = Typ.slice t
type_of (slice t vs) = Typ.slice t

unfoldable pub int_kind_eq : IntKind → IntKind → Bool
int_kind_eq int int = true
int_kind_eq int8 int8 = true
int_kind_eq int16 int16 = true
int_kind_eq int32 int32 = true
int_kind_eq int64 int64 = true
int_kind_eq _ _ = false

unfoldable pub uint_kind_eq : UintKind → UintKind → Bool
uint_kind_eq uint uint = true
uint_kind_eq uint8 uint8 = true
uint_kind_eq uint16 uint16 = true
uint_kind_eq uint32 uint32 = true
uint_kind_eq uint64 uint64 = true
uint_kind_eq _ _ = false

unfoldable pub float_kind_eq : FloatKind → FloatKind → Bool
float_kind_eq float32 float32 = true
float_kind_eq float64 float64 = true
float_kind_eq _ _ = false

unfoldable pub typ_eq : Typ → Typ → Bool
unfolding int_kind_eq uint_kind_eq float_kind_eq
typ_eq untyped untyped = true
typ_eq boolean boolean = true
typ_eq text text = true
typ_eq time time = true
typ_eq any any = true
typ_eq (int k) (int l) = int_kind_eq k l
typ_eq (uint k) (uint l) = uint_kind_eq k l
typ_eq (float k) (float l) = float_kind_eq k l
typ_eq (pointer t) (pointer u) = typ_eq t u
typ_eq (slice t) (slice u) = typ_eq t u
typ_eq _ _ = false

unfoldable bool_eq : Bool → Bool → Bool
bool_eq true true = true
bool_eq false false = true
bool_eq _ _ = false

-- reflect.DeepEqual. (Two slices that share their memory are equal to Go without a look at their
-- elements, which shows for a NaN alone.)
unfoldable mutual
  unfolding typ_eq bool_eq str_eq

  pub deep_equal : Runtime → Value → Value → Bool
  deep_equal f nil nil = true
  deep_equal f (boolean a) (boolean b) = bool_eq a b
  deep_equal f (int k m) (int l n) = int_kind_eq k l && eq_ℤ m n
  deep_equal f (uint k m) (uint l n) = uint_kind_eq k l && (m == n)
  deep_equal f (float k a) (float l b) = float_kind_eq k l && f.same a b
  deep_equal f (text s) (text t) = str_eq s t
  deep_equal f (time t l) (time u m) = eq_ℤ t u && (l == m)
  deep_equal f (null_pointer t) (null_pointer u) = typ_eq t u
  deep_equal f (pointer v) (pointer w) = deep_equal f v w
  deep_equal f (null_slice t) (null_slice u) = typ_eq t u
  deep_equal f (slice t vs) (slice u ws) = typ_eq t u && deep_equal_all f vs ws
  deep_equal f _ _ = false

  pub deep_equal_all : Runtime → Values → Values → Bool
  deep_equal_all f empty empty = true
  deep_equal_all f (cons v vs) (cons w ws) = deep_equal f v w && deep_equal_all f vs ws
  deep_equal_all f _ _ = false

-- isArgNil, isFieldNil: the value is nil or holds a nil of a type that can
unfoldable pub is_nil : Value → Bool
is_nil nil = true
is_nil (null_pointer t) = true
is_nil (null_slice t) = true
is_nil _ = false
