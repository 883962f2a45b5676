-- ===== src/Invalidate/Columns.antt =====
-- The changed columns and the candidate columns of cache.go. A field that FieldByIndex cannot
-- reach is one that the row lacks.
use thing.Prelude.{
  Str, Bool, true, false, not, ◌&&◌, ◌||◌, Option, none, some, List, [], ◌∷◌, if◌then◌else◌,
}
use thing.Prelude.Dict.{Dict, get, put, get_or}
use thing.Value.{Value, Runtime, deep_equal}
use thing.Match.Condition.{Row}

-- The part of ComparableFieldInfo (internal/schema/metadata.go) that cache.go reads.
pub record Field : Type 0 where
  pub go_name : Str
  pub db_column : Str
  pub ignore_in_diff : Bool

-- The part of ModelInfo (internal/schema/metadata.go) that cache.go reads.
pub record ModelInfo : Type 0 where
  pub table_name : Str
  pub column_to_field : Dict Str
  pub compare_fields : List Field

-- Whether a column of both rows differs; a field that one row lacks is skipped.
unfoldable pub differs : Runtime → Option Value → Option Value → Bool
unfolding deep_equal
differs f (some v) (some w) = not (deep_equal f v w)
differs f _ _ = false

-- The loop of changedModelColumns over two rows.
unfoldable pub add_changed : Runtime → Row → Row → List Field → Dict Bool → Dict Bool
unfolding differs get put
add_changed f current original [] changed = changed
add_changed f current original (field ∷ fields) changed =
    let skip = field.ignore_in_diff in
    let different = differs f (get field.go_name current) (get field.go_name original) in
    add_changed f current original fields
      (if skip then changed else if different then put field.db_column true changed else changed)

-- The loop for an original model that is nil.
unfoldable add_compared : List Field → Dict Bool → Dict Bool
unfolding put
add_compared [] changed = changed
add_compared (field ∷ fields) changed =
    add_compared fields (if field.ignore_in_diff then changed else put field.db_column true changed)

-- changedModelColumns
unfoldable pub changed_model_columns : Runtime → ModelInfo → Row → Option Row → Dict Bool
unfolding add_changed add_compared
changed_model_columns f info current none = add_compared info.compare_fields []
changed_model_columns f info current (some original) =
    add_changed f current original info.compare_fields []

unfoldable pub add_value : Field → Option Value → Dict Value → Dict Value
unfolding put
add_value field none values = values
add_value field (some v) values =
    if field.ignore_in_diff then values else put field.db_column v values

-- fieldValues of invalidateAffectedQueryCaches
unfoldable pub field_values : Row → List Field → Dict Value → Dict Value
unfolding get add_value
field_values row [] values = values
field_values row (field ∷ fields) values =
    field_values row fields (add_value field (get field.go_name row) values)

unfoldable pub all_columns : Dict Value → Dict Bool
unfolding put
all_columns [] = []
all_columns ((column, v) ∷ values) = put column true (all_columns values)

-- cacheCandidateColumns
unfoldable pub cache_candidate_columns : Dict Value → Dict Bool → Bool → Bool → Bool → Dict Bool
unfolding all_columns
cache_candidate_columns values changed is_create is_delete force_all =
    if not is_create && (not is_delete && not force_all) then changed else all_columns values

-- keepItemFieldChanged, over what KeepItemFields returns
unfoldable pub keep_item_field_changed : List Str → Dict Bool → Bool
unfolding get_or
keep_item_field_changed [] changed = false
keep_item_field_changed (column ∷ columns) changed =
    get_or column changed false || keep_item_field_changed columns changed
