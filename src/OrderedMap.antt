-- ===== src/OrderedMap.antt =====
-- internal/utils/orderedmap.go. The function Marshal of encoding/json is given by what it returns.
pub mod Order
use thing.Prelude.{
  Str, str, Bool, true, false, not, Option, none, some, List, [], ◌∷◌, ◌++◌, is_empty, is_some,
  if◌then◌else◌,
}
use thing.Prelude.Dict.{Dict, get, put}

pub record OrderedMap (V : Type 0) : Type 0 where
  pub key_order : List Str
  pub value_map : Dict V

-- A comma stands before every key but the first.
unfoldable put_comma : List Str → Str → Str
put_comma keys text = if is_empty keys then text else 44 ∷ text

module _ {V : Type 0} where
  -- NewOrderedMap
  abbrev new_ordered_map : OrderedMap V
  new_ordered_map = record { key_order = []; value_map = [] }

  -- Set
  unfoldable pub set_value : Str → V → OrderedMap V → OrderedMap V
  unfolding get put
  set_value key v m = record {
    key_order = if is_some (get key m.value_map) then m.key_order else m.key_order ++ (key ∷ []);
    value_map = put key v m.value_map;
  }

  -- Get
  unfoldable pub get_value : Str → OrderedMap V → Option V
  unfolding get
  get_value key m = get key m.value_map

  -- The loop of MarshalJSON over the keys; an error of Marshal is none.
  unfoldable marshal_keys :
      (Str → Option Str) → (Option V → Option Str) → OrderedMap V → List Str → Option Str
  unfolding get_value put_comma
  marshal_keys marshal_key marshal m [] = some (str "}")
  marshal_keys marshal_key marshal m (k ∷ keys) = elim (marshal_key k) [
    | none ↦ none
    | some name ↦ elim (marshal (get_value k m)) [
      | none ↦ none
      | some text ↦ elim (marshal_keys marshal_key marshal m keys) [
        | none ↦ none
        | some rest ↦ some (name ++ (58 ∷ (text ++ put_comma keys rest)))
      ]
    ]
  ]

  -- MarshalJSON
  unfoldable pub marshal_json :
      (Str → Option Str) → (Option V → Option Str) → OrderedMap V → Option Str
  unfolding marshal_keys
  marshal_json marshal_key marshal m = elim (marshal_keys marshal_key marshal m m.key_order) [
    | none ↦ none
    | some text ↦ some (123 ∷ text)
  ]
