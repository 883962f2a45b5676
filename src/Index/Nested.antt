-- ===== src/Index/Nested.antt =====
-- Maps of maps of sets, as internal/cache/index.go keeps them: a set is a map[string]bool.
use thing.Prelude.{
  Str, str_eq, str_eq_iff, Bool, true, ◌||◌, ◌&&◌, ◌≡◌, [], ◌∷◌, is_some, is_empty, arith,
  if◌then◌else◌,
}
use thing.Prelude.Dict.{Dict, get, put, remove, get_or, get-put}

abbrev pub Sets : Type 0
Sets = Dict (Dict Bool)

abbrev pub Sets2 : Type 0
Sets2 = Dict Sets

abbrev pub Sets3 : Type 0
Sets3 = Dict Sets2

-- m[a][key] = true, with the maps made where they are missing; and so for deeper maps
unfoldable pub add1 : Str → Str → Sets → Sets
unfolding put get_or
add1 a key m = put a (put key true (get_or a m [])) m

unfoldable pub add2 : Str → Str → Str → Sets2 → Sets2
unfolding add1 put get_or
add2 a b key m = put a (add1 b key (get_or a m [])) m

unfoldable pub add3 : Str → Str → Str → Str → Sets3 → Sets3
unfolding add2 put get_or
add3 a b c key m = put a (add2 b c key (get_or a m [])) m

-- The set at a place holds a key.
unfoldable pub in0 : Str → Dict Bool → Bool
unfolding get
in0 key m = is_some (get key m)

unfoldable pub in1 : Str → Str → Sets → Bool
unfolding in0 get_or
in1 a key m = in0 key (get_or a m [])

unfoldable pub in2 : Str → Str → Str → Sets2 → Bool
unfolding in1 get_or
in2 a b key m = in1 b key (get_or a m [])

unfoldable pub in3 : Str → Str → Str → Str → Sets3 → Bool
unfolding in2 get_or
in3 a b c key m = in2 b c key (get_or a m [])

-- Applies a deletion to every value, and deletes the entries that it leaves empty.
unfoldable pub prune {ℓ} : {V : Type ℓ} → (Dict V → Dict V) → Dict (Dict V) → Dict (Dict V)
prune f [] = []
prune f ((k, v) ∷ m) = let rest = prune f m in if is_empty (f v) then rest else (k, f v) ∷ rest

unfoldable pub remove1 : Str → Sets → Sets
unfolding prune remove
remove1 key m = prune (remove key) m

unfoldable pub remove2 : Str → Sets2 → Sets2
unfolding prune remove1
remove2 key m = prune (remove1 key) m

unfoldable pub remove3 : Str → Sets3 → Sets3
unfolding prune remove2
remove3 key m = prune (remove2 key) m

get_or-put {ℓ} :
    {V : Type ℓ} (k j : Str) (v d : V) (m : Dict V)
    → get_or j (put k v m) d ≡ (if str_eq k j then v else get_or j m d)
unfolding get_or
get_or-put k j v d m = ground (arith, get-put k j v m)

pub in1-add1 :
    (a b k j : Str) (m : Sets) → in1 b j (add1 a k m) ≡ ((str_eq a b && str_eq k j) || in1 b j m)
unfolding in1 add1
in1-add1 a b k j m = ground (
  arith,
  str_eq_iff a b,
  get-put k j true (get_or a m []),
  get_or-put a b (put k true (get_or a m [])) [] m,
)

pub in2-add2 :
    (a b c d k j : Str) (m : Sets2)
    → in2 b d j (add2 a c k m) ≡ ((str_eq a b && (str_eq c d && str_eq k j)) || in2 b d j m)
unfolding in2 add2
in2-add2 a b c d k j m = ground (
  arith,
  str_eq_iff a b,
  in1-add1 c d k j (get_or a m []),
  get_or-put a b (add1 c k (get_or a m [])) [] m,
)

pub in3-add3 :
    (a b c d e g k j : Str) (m : Sets3)
    → in3 b d g j (add3 a c e k m)
      ≡ ((str_eq a b && (str_eq c d && (str_eq e g && str_eq k j))) || in3 b d g j m)
unfolding in3 add3
in3-add3 a b c d e g k j m = ground (
  arith,
  str_eq_iff a b,
  in2-add2 c d e g k j (get_or a m []),
  get_or-put a b (add2 c e k (get_or a m [])) [] m,
)

-- valueIndex[table][field], made where it is missing
unfoldable pub ensure_field : Str → Str → Sets3 → Sets3
unfolding put get_or
ensure_field table field m =
    let fields = get_or table m [] in put table (put field (get_or field fields []) fields) m

pub in3-ensure_field :
    (a b c d g j : Str) (m : Sets3) → in3 b d g j (ensure_field a c m) ≡ in3 b d g j m
unfolding in3 in2 ensure_field
in3-ensure_field a b c d g j m =
    let fields = get_or a m [] in
    ground (
      arith,
      str_eq_iff a b,
      str_eq_iff c d,
      get_or-put a b (put c (get_or c fields []) fields) [] m,
      get_or-put c d (get_or c fields []) [] fields,
    )
