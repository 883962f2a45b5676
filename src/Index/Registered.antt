-- ===== src/Index/Registered.antt =====
-- What RegisterQuery and GetInvalidationContext of internal/cache/index.go put into sets of keys.
use thing.Prelude.{
  Str, str_eq, str_eq_iff, Bool, true, false, ◌&&◌, ◌||◌, ◌≡◌, List, [], ◌∷◌, arith, if◌then◌else◌,
}
use thing.Prelude.Dict.{Dict, put, get_or, keys, mem_str, mem_str-keys, get-put}
use thing.Value.{Value, Runtime}
use thing.Index.Nested.{Sets, Sets2, add2, in0, in1, in2, in2-add2}
use thing.Index.State.{CacheIndex, put_all, add_fields, to_index_value_string, uncertain_field}
use thing.Index.Lookup.{collect, collect_values, affected_keys}

pub in0-put_all :
    (j : Str) (ks : List Str) (m : Dict Bool) → in0 j (put_all ks m) ≡ (in0 j m || mem_str j ks)
unfolding in0 put_all mem_str
in0-put_all j [] m = ground arith
in0-put_all j (k ∷ ks) m =
    ground (arith, in0-put_all j ks (put k true m), get-put k j true m, str_eq_iff k j)

pub in2-add_fields :
    (t b j : Str) (table : Str) (fields : List Str) (key : Str) (m : Sets2)
    → in2 t b j (add_fields table fields key m)
      ≡ ((str_eq table t && (str_eq key j && mem_str b fields)) || in2 t b j m)
unfolding add_fields mem_str
in2-add_fields t b j table [] key m = ground arith
in2-add_fields t b j table (field ∷ fields) key m = ground (
  arith,
  in2-add_fields t b j table fields key (add2 table field key m),
  in2-add2 table t field b key j m,
)

-- A key is collected if a map has it under one of the fields.
abbrev pub under : Str → Sets → List Str → Bool
under j sets [] = false
under j sets (field ∷ fields) = in1 field j sets || under j sets fields

in0-collect :
    (j : Str) (sets : Sets) (fields : List Str) (found : Dict Bool)
    → in0 j (collect sets fields found) ≡ (in0 j found || under j sets fields)
unfolding collect in1
in0-collect j sets [] found = ground arith
in0-collect j sets (field ∷ fields) found = ground (
  arith,
  in0-collect j sets fields (put_all (keys (get_or field sets [])) found),
  in0-put_all j (keys (get_or field sets [])) found,
  mem_str-keys j (get_or field sets []),
)

-- The keys that the value index has for the values of candidate columns.
abbrev pub by_value : Runtime → Str → Sets2 → Dict Bool → Dict Value → Bool
by_value f j tables candidates [] = false
by_value f j tables candidates ((column, v) ∷ rest) =
    (get_or column candidates false && in2 column (to_index_value_string f v) j tables)
    || by_value f j tables candidates rest

in0-collect_values :
    (f : Runtime) (j : Str) (tables : Sets2) (candidates : Dict Bool) (values : Dict Value)
    (found : Dict Bool)
    → in0 j (collect_values f tables candidates values found)
      ≡ (in0 j found || by_value f j tables candidates values)
unfolding collect_values in2 in1
in0-collect_values f j tables candidates [] found = ground arith
in0-collect_values f j tables candidates ((column, v) ∷ rest) found =
    let hits = get_or (to_index_value_string f v) (get_or column tables []) [] in
    ground (
      arith,
      in0-collect_values f j tables candidates rest
          (if get_or column candidates false then put_all (keys hits) found else found),
      in0-put_all j (keys hits) found,
      mem_str-keys j hits,
    )

-- The five ways in which a key may be affected by a change of a table.
abbrev pub affected : Runtime → Str → Str → Dict Value → Dict Bool → CacheIndex → Bool
affected f j table values candidates idx =
    by_value f j (get_or table idx.value_index []) candidates values
    || under j (get_or table idx.field_index []) (keys candidates)
    || in1 table j idx.full_table_list_keys
    || in1 table j idx.full_table_count_keys
    || under j (get_or table idx.dependency_index []) (keys candidates)
    || in1 uncertain_field j (get_or table idx.dependency_index [])

pub in0-affected_keys :
    (f : Runtime) (j table : Str) (values : Dict Value) (candidates : Dict Bool) (idx : CacheIndex)
    → in0 j (affected_keys f table values candidates idx) ≡ affected f j table values candidates idx
unfolding affected_keys in1
in0-affected_keys f j table values candidates idx =
    let columns = keys candidates in
    let s1 = collect_values f (get_or table idx.value_index []) candidates values [] in
    let s2 = collect (get_or table idx.field_index []) columns s1 in
    let lists = get_or table idx.full_table_list_keys [] in
    let counts = get_or table idx.full_table_count_keys [] in
    let s3 = put_all (keys lists) s2 in
    let s4 = put_all (keys counts) s3 in
    let deps = get_or table idx.dependency_index [] in
    ground (
      arith,
      in0-collect_values f j (get_or table idx.value_index []) candidates values [],
      in0-collect j (get_or table idx.field_index []) columns s1,
      in0-put_all j (keys lists) s2,
      mem_str-keys j lists,
      in0-put_all j (keys counts) s3,
      mem_str-keys j counts,
      in0-collect j deps columns s4,
      in0-collect j deps (uncertain_field ∷ []) (collect deps columns s4),
    )
