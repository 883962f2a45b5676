-- ===== src/Tests/Ordered.antt =====
-- An ordered map of numbers.
use thing.Prelude.{
  ℕ, Str, str, str_eq, some, [], ◌∷◌, ◌++◌, is_some, if◌then◌else◌, ◌≡◌, refl, arith,
}
use thing.Prelude.Dict.{mem_str, get}
use thing.OrderedMap.{OrderedMap, set_value, get_value, marshal_json}
use thing.OrderedMap.Order.{IsOrdered, set_value-IsOrdered}

abbrev ages : OrderedMap ℕ
ages = record { key_order = str "b" ∷ []; value_map = (str "b", 3) ∷ [] }

ages-IsOrdered : IsOrdered ages
unfolding mem_str get_value get str_eq
ages-IsOrdered = ((refl, tt), λ k. ground arith)

set_value-IsOrdered_example :
    IsOrdered (set_value (str "a") 5 ages)
    × (((j : Str)
          → get_value j (set_value (str "a") 5 ages)
            ≡ (if str_eq (str "a") j then some 5 else get_value j ages))
        × ((set_value (str "a") 5 ages).key_order ≡ (
            if is_some (get_value (str "a") ages)
            then ages.key_order
            else ages.key_order ++ (str "a" ∷ []))))
set_value-IsOrdered_example = set_value-IsOrdered (str "a") 5 ages ages-IsOrdered

marshal_ages :
    marshal_json (λ k. some k) (λ v. some (str "1")) (set_value (str "a") 5 ages)
    ≡ some (str "{b:1,a:1}")
unfolding marshal_json set_value str_eq
marshal_ages = refl
