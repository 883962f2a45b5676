-- ===== src/OrderedMap/Order.antt =====
-- The keys and the values of internal/utils/orderedmap.go.
use thing.Prelude.{
  Str, str_eq, str_eq_iff, true, false, ◌||◌, some, List, [], ◌∷◌, ◌++◌, is_some, if◌then◌else◌,
  ◌≡◌, refl, sym, ap, subst, ◌∙◌, arith, Bool-cases, inl, inr,
}
use thing.Prelude.Dict.{get-put, mem_str, mem_str-append}
use thing.OrderedMap.{OrderedMap, set_value, get_value}

-- Different keys.
abbrev DifferentKeys : List Str → Type 0
DifferentKeys [] = Unit
DifferentKeys (k ∷ keys) = (mem_str k keys ≡ false) × DifferentKeys keys

mem_str_one : (k j : Str) → mem_str j (k ∷ []) ≡ str_eq k j
unfolding mem_str
mem_str_one k j = ground arith

DifferentKeys-append :
    (keys : List Str) (k : Str)
    → mem_str k keys ≡ false
    → DifferentKeys keys
    → DifferentKeys (keys ++ (k ∷ []))
unfolding mem_str
DifferentKeys-append [] k h d = (refl, tt)
DifferentKeys-append (j ∷ keys) k h d = (
  ground (
    arith,
    mem_str-append j keys (k ∷ []),
    mem_str_one k j,
    h,
    d.0,
    str_eq_iff k j,
    str_eq_iff j k,
  ),
  DifferentKeys-append keys k (ground (arith, h)) d.1,
)

module _ {V : Type 0} where
  -- The keys are different, and they are those of the values.
  abbrev pub IsOrdered : OrderedMap V → Type 0
  IsOrdered m =
      DifferentKeys m.key_order × ((k : Str) → mem_str k m.key_order ≡ is_some (get_value k m))

  order_of_set :
      (k : Str) (v : V) (m : OrderedMap V)
      → is_some (get_value k m) ≡ true
      → (set_value k v m).key_order ≡ m.key_order
  unfolding set_value get_value
  order_of_set k v m h = rw (set_value, h) refl

  order_of_new :
      (k : Str) (v : V) (m : OrderedMap V)
      → is_some (get_value k m) ≡ false
      → (set_value k v m).key_order ≡ m.key_order ++ (k ∷ [])
  unfolding set_value get_value
  order_of_new k v m h = rw (set_value, h) refl

  get_value-set_value :
      (k j : Str) (v : V) (m : OrderedMap V)
      → get_value j (set_value k v m) ≡ (if str_eq k j then some v else get_value j m)
  unfolding get_value set_value
  get_value-set_value k j v m = get-put k j v m.value_map

  known_key :
      (k j : Str) (m : OrderedMap V)
      → is_some (get_value k m) ≡ true
      → str_eq k j ≡ true
      → is_some (get_value j m) ≡ true
  known_key k j m e f = subst (λ x. is_some (get_value x m) ≡ true) ((str_eq_iff k j).0 f) e

  is_some_set :
      (k j : Str) (v : V) (m : OrderedMap V)
      → is_some (get_value j (set_value k v m)) ≡ (str_eq k j || is_some (get_value j m))
  is_some_set k j v m = elim (Bool-cases (str_eq k j)) [
    | inl f ↦ rw (get_value-set_value k j v m, f) refl
    | inr f ↦ rw (get_value-set_value k j v m, f) refl
  ]

  same_keys :
      (k j : Str) (v : V) (m : OrderedMap V)
      → is_some (get_value k m) ≡ true
      → mem_str j m.key_order ≡ is_some (get_value j m)
      → mem_str j m.key_order ≡ is_some (get_value j (set_value k v m))
  same_keys k j v m e h = elim (Bool-cases (str_eq k j)) [
    | inl f ↦
        let known = known_key k j m e f in
        let set = is_some_set k j v m in ground (arith, h, known, set, f)
    | inr f ↦ let set = is_some_set k j v m in ground (arith, h, set, f)
  ]

  more_keys :
      (k j : Str) (v : V) (m : OrderedMap V)
      → mem_str j m.key_order ≡ is_some (get_value j m)
      → mem_str j (m.key_order ++ (k ∷ [])) ≡ is_some (get_value j (set_value k v m))
  more_keys k j v m h =
      let set = is_some_set k j v m in
      let parts = mem_str-append j m.key_order (k ∷ []) in
      let one = mem_str_one k j in ground (arith, h, set, parts, one)

  -- After Set of a key in a map whose keys are different and are those of the values, this is so
  -- again, Get returns the value for the key and what it returned for every other key, and the
  -- keys are as they were, with the key at their end where it is new.
  pub set_value-IsOrdered :
      (k : Str) (v : V) (m : OrderedMap V)
      → IsOrdered m
      → IsOrdered (set_value k v m)
        × (((j : Str)
              → get_value j (set_value k v m) ≡ (if str_eq k j then some v else get_value j m))
            × ((set_value k v m).key_order
                ≡ (if is_some (get_value k m) then m.key_order else m.key_order ++ (k ∷ []))))
  set_value-IsOrdered k v m h = elim (Bool-cases (is_some (get_value k m))) [
    | inl e ↦
        let order = order_of_set k v m e in
        (
          (
            subst DifferentKeys (sym order) h.0,
            λ j. ap (mem_str j) order ∙ same_keys k j v m e (h.1 j),
          ),
          (λ j. get_value-set_value k j v m, rw e order),
        )
    | inr e ↦
        let order = order_of_new k v m e in
        let absent = h.1 k ∙ e in
        (
          (
            subst DifferentKeys (sym order) (DifferentKeys-append m.key_order k absent h.0),
            λ j. ap (mem_str j) order ∙ more_keys k j v m (h.1 j),
          ),
          (λ j. get_value-set_value k j v m, rw e order),
        )
  ]
