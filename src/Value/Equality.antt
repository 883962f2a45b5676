-- ===== src/Value/Equality.antt =====
-- Equality by reflect.DeepEqual on values without floats.
use thing.Prelude.{
  eq_ℤ, eq_ℤ_iff, str_eq_iff, Bool, true, false, ◌&&◌, ◌||◌, ◌≡◌, arith, ◌==◌, ==_iff,
}
use thing.Value.{
  IntKind, UintKind, FloatKind, Typ, Value, Values, Runtime, deep_equal, deep_equal_all, typ_eq,
  int_kind_eq, uint_kind_eq, float_kind_eq,
}

int_kind_eq_sound : (k l : IntKind) → int_kind_eq k l ≡ true → k ≡ l
unfolding int_kind_eq
int_kind_eq_sound IntKind.int l h = ground arith
int_kind_eq_sound _ l h = ground arith

uint_kind_eq_sound : (k l : UintKind) → uint_kind_eq k l ≡ true → k ≡ l
unfolding uint_kind_eq
uint_kind_eq_sound UintKind.uint l h = ground arith
uint_kind_eq_sound _ l h = ground arith

float_kind_eq_sound : (k l : FloatKind) → float_kind_eq k l ≡ true → k ≡ l
unfolding float_kind_eq
float_kind_eq_sound FloatKind.float32 l h = ground arith
float_kind_eq_sound _ l h = ground arith

abbrev mutual
  pub has_float : Value → Bool
  has_float (Value.float k b) = true
  has_float (Value.pointer v) = has_float v
  has_float (Value.slice t vs) = have_float vs
  has_float _ = false

  have_float : Values → Bool
  have_float Values.empty = false
  have_float (Values.cons v vs) = has_float v || have_float vs

typ_eq_sound : (t u : Typ) → typ_eq t u ≡ true → t ≡ u
unfolding typ_eq
typ_eq_sound (Typ.int k) (Typ.int l) h = ground (arith, int_kind_eq_sound k l)
typ_eq_sound (Typ.uint k) (Typ.uint l) h = ground (arith, uint_kind_eq_sound k l)
typ_eq_sound (Typ.float k) (Typ.float l) h = ground (arith, float_kind_eq_sound k l)
typ_eq_sound (Typ.pointer t) (Typ.pointer u) h = ground (arith, typ_eq_sound t u)
typ_eq_sound (Typ.slice t) (Typ.slice u) h = ground (arith, typ_eq_sound t u)
typ_eq_sound _ _ h = ground arith

pub and_parts : (a b : Bool) → (a && b) ≡ true → (a ≡ true) × (b ≡ true)
and_parts a b h = ground arith

or_parts : (a b : Bool) → (a || b) ≡ false → (a ≡ false) × (b ≡ false)
or_parts a b h = ground arith

mutual
  unfolding deep_equal

  pub deep_equal_sound :
      (f : Runtime) (v w : Value) → has_float v ≡ false → deep_equal f v w ≡ true → v ≡ w
  deep_equal_sound f (Value.boolean a) (Value.boolean b) n h = ground arith
  deep_equal_sound f (Value.int k m) (Value.int l o) n h =
      let (same, equal) = and_parts (int_kind_eq k l) (eq_ℤ m o) h in
      cc (int_kind_eq_sound k l same, (eq_ℤ_iff m o).0 equal)
  deep_equal_sound f (Value.uint k m) (Value.uint l o) n h =
      let (same, equal) = and_parts (uint_kind_eq k l) (m == o) h in
      cc (uint_kind_eq_sound k l same, (==_iff m o).0 equal)
  deep_equal_sound f (Value.text s) (Value.text t) n h = ground (arith, str_eq_iff s t)
  deep_equal_sound f (Value.time t l) (Value.time u m) n h =
      let (same, equal) = and_parts (eq_ℤ t u) (l == m) h in
      cc ((eq_ℤ_iff t u).0 same, (==_iff l m).0 equal)
  deep_equal_sound f (Value.null_pointer t) (Value.null_pointer u) n h =
      ground (arith, typ_eq_sound t u)
  deep_equal_sound f (Value.pointer v) (Value.pointer w) n h =
      ground (arith, deep_equal_sound f v w)
  deep_equal_sound f (Value.null_slice t) (Value.null_slice u) n h =
      ground (arith, typ_eq_sound t u)
  deep_equal_sound f (Value.slice t vs) (Value.slice u ws) n h =
      let (same, equal) = and_parts (typ_eq t u) (deep_equal_all f vs ws) h in
      cc (typ_eq_sound t u same, deep_equal_all_sound f vs ws n equal)
  deep_equal_sound f _ _ n h = ground arith

  deep_equal_all_sound :
      (f : Runtime) (vs ws : Values)
      → have_float vs ≡ false
      → deep_equal_all f vs ws ≡ true
      → vs ≡ ws
  deep_equal_all_sound f (Values.cons v vs) (Values.cons w ws) n h =
      let (first, rest) = and_parts (deep_equal f v w) (deep_equal_all f vs ws) h in
      let (none_first, none_rest) = or_parts (has_float v) (have_float vs) n in
      cc (deep_equal_sound f v w none_first first, deep_equal_all_sound f vs ws none_rest rest)
  deep_equal_all_sound f _ _ n h = ground arith
