-- ===== src/Index/Depends.antt =====
-- Which queries of internal/cache/index.go a change of some columns concerns, and what RegisterQuery
-- adds to the dependencies.
use thing.Prelude.{
  Str, str_eq, str_eq_iff, Bool, true, false, not, ◌&&◌, ◌||◌, ◌≡◌, refl, ◌∙◌, List, [], ◌∷◌,
  is_empty, arith, if◌then◌else◌,
}
use thing.Prelude.Dict.{Dict, get, put, keys, mem_str, mem_str-keys, mem_str-append, get-put}
use thing.Query.{QueryParams, Error, err}
use thing.Value.{Runtime}
use thing.Predicate.Parser.{parse_query_predicate}
use thing.Index.Nested.{Sets, Sets2, in0, in1, in2, in2-add2}
use thing.Index.Order.{parse_order_fields}
use thing.Index.State.{
  put_all, add_dependency, add_dependencies, all_dependencies, build_query_dependencies,
  parse_query_for_index, is_list_key, is_count_key, uncertain_field,
}
use thing.Index.Registered.{in0-put_all, under}

-- The query of a key depends on the candidate columns.
pub data Depends (f : Runtime) (key : Str) (params : QueryParams) (candidates : Dict Bool)
    : Type 0 where
  on_where :
      (c : Str)
      → mem_str c (keys candidates) ≡ true
      → mem_str c (parse_query_for_index f params).fields ≡ true
      → Depends f key params candidates
  on_order :
      (c : Str)
      → mem_str c (keys candidates) ≡ true
      → is_list_key key ≡ true
      → is_empty c ≡ false
      → mem_str c (parse_order_fields params.order).0 ≡ true
      → Depends f key params candidates
  on_unparsed :
      (e : Error) → parse_query_predicate f params ≡ err e → Depends f key params candidates
  on_unparsed_order :
      is_list_key key ≡ true
      → (parse_order_fields params.order).1 ≡ true
      → Depends f key params candidates
  on_table :
      is_empty params.where_clause ≡ true
      → (is_list_key key || is_count_key key) ≡ true
      → Depends f key params candidates

pub in2-add_dependencies :
    (t b j : Str) (table : Str) (fields : List Str) (key : Str) (m : Sets2)
    → in2 t b j (add_dependencies table fields key m) ≡ (
        (str_eq table t && (str_eq key j && (not (is_empty b) && mem_str b fields))) || in2 t b j m)
unfolding add_dependencies mem_str
in2-add_dependencies t b j table [] key m = ground arith
in2-add_dependencies t b j table (field ∷ fields) key m = ground (
  arith,
  in2-add_dependencies t b j table fields key (add_dependency table field key m),
  in2-add2 table t field b key j m,
  str_eq_iff field b,
)

mem_str-put_all : (b : Str) (ks : List Str) → mem_str b (keys (put_all ks [])) ≡ mem_str b ks
unfolding in0 get
mem_str-put_all b ks = mem_str-keys b (put_all ks []) ∙ in0-put_all b ks []

pub under-hit :
    (j : Str) (sets : Sets) (c : Str) (fields : List Str)
    → mem_str c fields ≡ true
    → in1 c j sets ≡ true
    → under j sets fields ≡ true
unfolding mem_str
under-hit j sets c [] m h = absurd (ground arith)
under-hit j sets c (field ∷ fields) m h =
    ground (arith, str_eq_iff field c, under-hit j sets c fields)

parse_order_fields-empty : parse_order_fields [] ≡ ([], false)
unfolding parse_order_fields
parse_order_fields-empty = refl

mem_str-uncertain :
    (b : Str) (fields : List Str) (uncertain : Bool)
    → mem_str b (
        keys
          (if uncertain then put uncertain_field true (put_all fields []) else put_all fields []))
      ≡ (mem_str b fields || (uncertain && str_eq uncertain_field b))
mem_str-uncertain b fields true = ground (
  arith,
  mem_str-keys b (put uncertain_field true (put_all fields [])),
  get-put uncertain_field b true (put_all fields []),
  mem_str-keys b (put_all fields []),
  mem_str-put_all b fields,
)
mem_str-uncertain b fields false = ground (arith, mem_str-put_all b fields)

-- The set of one field, if there is one.
mem_str-marked :
    (b : Str) (marked : Bool)
    → mem_str b (if marked then uncertain_field ∷ [] else []) ≡ (marked && str_eq uncertain_field b)
unfolding mem_str
mem_str-marked b marked = ground arith

mem_str-ordered :
    (b order : Str) (is_list : Bool)
    → let used = is_list && not (is_empty order) in
      (mem_str b (keys (if used then put_all (parse_order_fields order).0 [] else []))
        || mem_str b (
            if (if used then (parse_order_fields order).1 else false)
            then uncertain_field ∷ []
            else []))
      ≡ (is_list
          && (mem_str b (parse_order_fields order).0
              || ((parse_order_fields order).1 && str_eq uncertain_field b)))
unfolding mem_str keys
mem_str-ordered b [] is_list = ground (arith, parse_order_fields-empty)
mem_str-ordered b (c ∷ order) is_list =
    let parsed = parse_order_fields (c ∷ order) in
    ground (arith, mem_str-put_all b parsed.0, mem_str-marked b parsed.1)

-- What the dependencies of a query name.
pub mem_str-all_dependencies :
    (b : Str) (fields : List Str) (uncertain : Bool) (order : Str) (is_list : Bool)
    → mem_str b (all_dependencies (build_query_dependencies fields uncertain order is_list)) ≡ (
        (mem_str b fields || (uncertain && str_eq uncertain_field b))
        || (is_list
            && (mem_str b (parse_order_fields order).0
                || ((parse_order_fields order).1 && str_eq uncertain_field b))))
unfolding all_dependencies build_query_dependencies
mem_str-all_dependencies b fields uncertain order is_list =
    simp (mem_str-append, mem_str-uncertain, mem_str-ordered)
