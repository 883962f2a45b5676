-- ===== src/Prelude/Dict.antt =====
-- Go maps with string keys as association lists. The order of the entries stands for the order
-- in which `range` visits them, which Go leaves open.
use mathlib.Core.Path.{◌≡◌, refl}
use mathlib.Core.Bool.{Bool, ◌||◌}
use mathlib.Core.List.{List, [], ◌∷◌, ◌++◌}
use mathlib.Core.Option.{Option, none, some}
use native.Mathlib.Omega.{arith}
use thing.Prelude.Tests.{if◌then◌else◌, is_some}
use thing.Prelude.Lists.{any, any-append}
use thing.Prelude.Text.{Str, str_eq, str_eq_iff}

abbrev pub Dict {ℓ} : Type ℓ → Type ℓ
Dict V = List (Str × V)

module _ {ℓ} {V : Type ℓ} where
  -- v, ok := m[k]
  unfoldable pub get : Str → Dict V → Option V
  get k [] = none
  get k ((j, v) ∷ m) = if str_eq j k then some v else get k m

  -- m[k] = v
  unfoldable pub put : Str → V → Dict V → Dict V
  put k v [] = (k, v) ∷ []
  put k v ((j, w) ∷ m) = if str_eq j k then (k, v) ∷ m else (j, w) ∷ put k v m

  -- delete(m, k)
  unfoldable pub remove : Str → Dict V → Dict V
  remove k [] = []
  remove k ((j, w) ∷ m) = let rest = remove k m in if str_eq j k then rest else (j, w) ∷ rest

  unfoldable pub get_or : Str → Dict V → V → V
  unfolding get
  get_or k m d = elim (get k m) [ none ↦ d | some v ↦ v ]

  pub get-put :
      (k j : Str) (v : V) (m : Dict V)
      → get j (put k v m) ≡ (if str_eq k j then some v else get j m)
  unfolding get put
  get-put k j v [] = ground arith
  get-put k j v ((i, w) ∷ m) =
      ground (arith, str_eq_iff k j, str_eq_iff i k, str_eq_iff i j, get-put k j v m)

  pub get-remove :
      (k j : Str) (m : Dict V) → get j (remove k m) ≡ (if str_eq k j then none else get j m)
  unfolding get remove
  get-remove k j [] = ground arith
  get-remove k j ((i, w) ∷ m) =
      ground (arith, str_eq_iff k j, str_eq_iff i k, str_eq_iff i j, get-remove k j m)

  -- The keys that `range` visits.
  unfoldable pub keys : Dict V → List Str
  keys [] = []
  keys ((k, v) ∷ m) = k ∷ keys m

pub ruleset dict_laws = (get-put, get-remove)

-- A list that holds a string.
unfoldable pub mem_str : Str → List Str → Bool
mem_str k xs = any (λ x. str_eq x k) xs

pub mem_str-keys {ℓ} : {V : Type ℓ} (k : Str) (m : Dict V) → mem_str k (keys m) ≡ is_some (get k m)
unfolding mem_str keys get
mem_str-keys k [] = refl
mem_str-keys k ((j, v) ∷ m) = ground (arith, mem_str-keys k m)

pub mem_str-append :
    (k : Str) (xs ys : List Str) → mem_str k (xs ++ ys) ≡ (mem_str k xs || mem_str k ys)
unfolding mem_str
mem_str-append k xs ys = any-append (λ x. str_eq x k) xs ys

pub get_or-known {ℓ} :
    {V : Type ℓ} (k : Str) (m : Dict V) (v d : V) → get k m ≡ some v → get_or k m d ≡ v
unfolding get_or
get_or-known k m v d h = rw (h, get_or) refl
