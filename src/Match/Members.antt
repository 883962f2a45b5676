-- ===== src/Match/Members.antt =====
-- The operator IN of internal/cache/query_match.go on a slice.
use thing.Prelude.{
  Bool, true, false, not, ◌||◌, ◌&&◌, Option, none, some, List, [], ◌∷◌, is_empty, if◌then◌else◌,
}
use thing.Query.{in_not_slice, in_incompatible, in_conversion, Result, ok, err}
use thing.Value.{Typ, Value, Runtime, type_of, typ_eq, deep_equal, to_list}
use thing.Value.Convert.{convertible, convert, is_any}

-- reflect.Type.Comparable
unfoldable comparable : Typ → Bool
comparable (Typ.slice t) = false
comparable _ = true

-- One element in the loop: found, not found, or a conversion that panicked. The elements of an
-- []interface{} have the interface type, from which no value converts to a concrete type.
pub data Found : Type 0 where
  found missed failed : Found

unfoldable try_convert : Runtime → Value → Option Value → Found
unfolding deep_equal
try_convert f field none = failed
try_convert f field (some v) = if deep_equal f field v then found else missed

unfoldable check_element : Runtime → Value → Typ → Value → Found
unfolding deep_equal try_convert typ_eq type_of is_any convert convertible
check_element f field elem v =
    if deep_equal f field v
    then found
    else if convertible (type_of field) elem && not (typ_eq (type_of field) elem)
    then try_convert f field (if is_any elem then none else convert f v (type_of field))
    else missed

-- The loop; `errors` tells whether a conversion has failed.
unfoldable check_elements : Runtime → Value → Typ → Bool → List Value → Result Bool
unfolding check_element
check_elements f field elem errors [] = if errors then err in_conversion else ok false
check_elements f field elem errors (v ∷ vs) =
    let on_missed = check_elements f field elem errors vs in
    let on_failed = check_elements f field elem true vs in
    elim (check_element f field elem v) [
      | found ↦ ok true
      | missed ↦ on_missed
      | failed ↦ on_failed
    ]

unfoldable check_slice : Runtime → Value → Typ → List Value → Result Bool
unfolding typ_eq type_of comparable convertible check_elements
check_slice f field elem vs =
    if is_empty vs
    then ok false
    else if (comparable (type_of field) && (comparable elem && typ_eq (type_of field) elem))
        || convertible (type_of field) elem
    then check_elements f field elem false vs
    else err in_incompatible

-- checkInOperator
unfoldable pub check_in_operator : Runtime → Value → Value → Result Bool
unfolding check_slice to_list
check_in_operator f field (Value.slice t vs) = check_slice f field t (to_list vs)
check_in_operator f field (Value.null_slice t) = ok false
check_in_operator f field _ = err in_not_slice
