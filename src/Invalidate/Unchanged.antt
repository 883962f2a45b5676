-- ===== src/Invalidate/Unchanged.antt =====
-- Columns that changedModelColumns of cache.go does not report, and the conditions on them. Values
-- with floats are left out: DeepEqual takes 0 and -0 for equal.
use thing.Prelude.{
  Str, str_eq, str_eq_iff, Bool, true, false, not, ◌&&◌, ◌||◌, ◌≡◌, refl, Option, none, some, List,
  [], ◌∷◌, ap, ◌∙◌, sym, is_some, arith, Bool-cases, inl, inr, if◌then◌else◌,
}
use thing.Prelude.Dict.{Dict, get, put, get_or, keys, mem_str, mem_str-keys, get-put}
use thing.Value.{Value, Runtime, deep_equal}
use thing.Match.Condition.{Row, match_condition, field_name, field_value, apply_operator}
use thing.Invalidate.Columns.{
  Field, ModelInfo, add_changed, changed_model_columns, differs, add_value, field_values,
  all_columns,
}
use thing.Value.Equality.{and_parts, has_float, deep_equal_sound}

-- A field that takes part in the comparison, by its column and its Go name.
abbrev pub compares : List Field → Str → Str → Bool
compares [] column name = false
compares (field ∷ fields) column name =
    (not field.ignore_in_diff && (str_eq field.db_column column && str_eq field.go_name name))
    || compares fields column name

get_or-put-true :
    (c k : Str) (m : Dict Bool) → get_or c (put k true m) false ≡ (str_eq k c || get_or c m false)
unfolding get_or
get_or-put-true c k m = ground (arith, get-put k c true m)

add_changed_keeps :
    (f : Runtime) (a b : Row) (fields : List Field) (changed : Dict Bool) (c : Str)
    → get_or c changed false ≡ true
    → get_or c (add_changed f a b fields changed) false ≡ true
unfolding add_changed
add_changed_keeps f a b [] changed c h = h
add_changed_keeps f a b (field ∷ fields) changed c h =
    add_changed_keeps f a b fields _ c (ground (arith, get_or-put-true c field.db_column changed))

-- The round of the loop at the field of a column that differs reports the column.
reported :
    (f : Runtime) (a b : Row) (field : Field) (changed : Dict Bool) (c name : Str) (v w : Value)
    → (not field.ignore_in_diff && (str_eq field.db_column c && str_eq field.go_name name)) ≡ true
    → get name a ≡ some v
    → get name b ≡ some w
    → deep_equal f v w ≡ false
    → get_or c
        (if field.ignore_in_diff
          then changed
          else if differs f (get field.go_name a) (get field.go_name b)
          then put field.db_column true changed
          else changed)
        false
      ≡ true
unfolding differs
reported f a b field changed c name v w h ga gb d =
    let (used, rest) = and_parts (not field.ignore_in_diff) _ h in
    let (column, go) = and_parts (str_eq field.db_column c) (str_eq field.go_name name) rest in
    let same : field.go_name ≡ name = (str_eq_iff field.go_name name).0 go in
    let kept : field.ignore_in_diff ≡ false = ground arith in
    rw (kept, same, ga, gb, d) (get_or-put-true c field.db_column changed ∙ rw column refl)

-- A column that is not reported has values that DeepEqual takes for equal.
not_reported :
    (f : Runtime) (a b : Row) (fields : List Field) (changed : Dict Bool) (c name : Str)
    (v w : Value)
    → compares fields c name ≡ true
    → get name a ≡ some v
    → get name b ≡ some w
    → get_or c (add_changed f a b fields changed) false ≡ false
    → deep_equal f v w ≡ true
unfolding add_changed differs
not_reported f a b [] changed c name v w h ga gb n = absurd (ground arith)
not_reported f a b (field ∷ fields) changed c name v w h ga gb n =
    elim (Bool-cases (compares fields c name)) [
      | inl later ↦ not_reported f a b fields _ c name v w later ga gb n
      | inr now ↦ elim (Bool-cases (deep_equal f v w)) [
        | inl equal ↦ equal
        | inr different ↦ absurd (contradiction now different)
      ]
    ]
  where
    contradiction : compares fields c name ≡ false → deep_equal f v w ≡ false → ⊥
    contradiction now different = cc (
        add_changed_keeps f a b fields _ c
          (reported f a b field changed c name v w (ground arith) ga gb different))

-- What a column of a WHERE clause is to the model: a field that takes part in the comparison, with
-- a value in both rows, and no float in it.
pub record Tracked (info : ModelInfo) (a b : Row) (c : Str) : Type 0 where
  pub name : Str
  pub v : Value
  pub w : Value
  pub named : get c info.column_to_field ≡ some name
  pub compared : compares info.compare_fields c name ≡ true
  pub current : get name a ≡ some v
  pub original : get name b ≡ some w
  pub exact : has_float v ≡ false

condition_at :
    (f : Runtime) (columns : Dict Str) (row : Row) (c name operator : Str) (v arg : Value)
    → get c columns ≡ some name
    → get name row ≡ some v
    → match_condition f columns row c operator arg ≡ apply_operator f v operator arg
unfolding match_condition
condition_at f columns row c name operator v arg named current =
    rw (named, field_name) (rw (current, field_value))

-- A condition on a tracked column that is not reported as changed gives the same result on both
-- rows, whatever the operator and the argument.
pub condition_unchanged :
    (f : Runtime) (info : ModelInfo) (a b : Row) (c operator : Str) (arg : Value)
    → Tracked info a b c
    → get_or c (changed_model_columns f info a (some b)) false ≡ false
    → match_condition f info.column_to_field a c operator arg
      ≡ match_condition f info.column_to_field b c operator arg
unfolding changed_model_columns
condition_unchanged f info a b c operator arg t n =
    let equal =
      not_reported f a b info.compare_fields [] c t.name t.v t.w t.compared t.current t.original
        n in
    let same = deep_equal_sound f t.v t.w t.exact equal in
    condition_at f info.column_to_field a c t.name operator t.v arg t.named t.current
    ∙ (ap (λ (x : Value). apply_operator f x operator arg) same
        ∙ sym (condition_at f info.column_to_field b c t.name operator t.w arg t.named t.original))

add_value_keeps :
    (field : Field) (o : Option Value) (values : Dict Value) (c : Str)
    → is_some (get c values) ≡ true
    → is_some (get c (add_value field o values)) ≡ true
unfolding add_value
add_value_keeps field none values c h = h
add_value_keeps field (some v) values c h = ground (arith, get-put field.db_column c v values)

-- The values of a row include those of the fields that take part in the comparison.
field_values_keep :
    (row : Row) (fields : List Field) (values : Dict Value) (c : Str)
    → is_some (get c values) ≡ true
    → is_some (get c (field_values row fields values)) ≡ true
unfolding field_values
field_values_keep row [] values c h = h
field_values_keep row (field ∷ fields) values c h =
    field_values_keep row fields _ c (add_value_keeps field (get field.go_name row) values c h)

added :
    (field : Field) (values : Dict Value) (c name : Str) (v : Value)
    → (not field.ignore_in_diff && (str_eq field.db_column c && str_eq field.go_name name)) ≡ true
    → (row : Row) → get name row ≡ some v
    → is_some (get c (add_value field (get field.go_name row) values)) ≡ true
unfolding add_value
added field values c name v h row g =
    let (used, rest) = and_parts (not field.ignore_in_diff) _ h in
    let (column, go) = and_parts (str_eq field.db_column c) (str_eq field.go_name name) rest in
    let same : field.go_name ≡ name = (str_eq_iff field.go_name name).0 go in
    let kept : field.ignore_in_diff ≡ false = ground arith in
    rw (same, g, kept) (ground (arith, get-put field.db_column c v values))

pub get-field_values :
    (row : Row) (fields : List Field) (values : Dict Value) (c name : Str) (v : Value)
    → compares fields c name ≡ true
    → get name row ≡ some v
    → is_some (get c (field_values row fields values)) ≡ true
unfolding field_values
get-field_values row [] values c name v h g = absurd (ground arith)
get-field_values row (field ∷ fields) values c name v h g =
    elim (Bool-cases (compares fields c name)) [
      | inl later ↦ get-field_values row fields _ c name v later g
      | inr now ↦
          field_values_keep row fields _ c (added field values c name v (ground arith) row g)
    ]

pub mem_str-all_columns :
    (c : Str) (values : Dict Value) → mem_str c (keys (all_columns values)) ≡ is_some (get c values)
unfolding all_columns get mem_str keys
mem_str-all_columns c [] = refl
mem_str-all_columns c ((d, v) ∷ values) = ground (
  arith,
  mem_str-keys c (put d true (all_columns values)),
  get-put d c true (all_columns values),
  mem_str-keys c (all_columns values),
  mem_str-all_columns c values,
)
