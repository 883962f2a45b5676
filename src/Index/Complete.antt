-- ===== src/Index/Complete.antt =====
-- RegisterQuery and GetInvalidationContext of internal/cache/index.go together.
use thing.Prelude.{
  Str, str_eq_refl, Bool, true, false, ◌||◌, ◌≡◌, refl, sym, ◌∙◌, List, [], is_empty, arith,
  Bool-cases, inl, inr,
}
use thing.Prelude.Dict.{Dict, get_or, keys, mem_str, mem_str-keys}
use thing.Query.{QueryParams, Error, err}
use thing.Value.{Value, Runtime}
use thing.Predicate.Parser.{parse_query_predicate}
use thing.Index.Nested.{in0, in2, in3, in1-add1}
use thing.Index.Order.{parse_order_fields}
use thing.Index.State.{
  CacheIndex, add_dependencies, add_fields, add_exact, all_dependencies, build_query_dependencies,
  parse_query_for_index, is_list_key, register_named, register_query, uncertain_field,
}
use thing.Index.Lookup.{affected_keys, get_invalidation_context}
use thing.Index.Registered.{in2-add_fields, affected, in0-affected_keys}
use thing.Index.Depends.{
  Depends, on_where, on_order, on_unparsed, on_unparsed_order, on_table, in2-add_dependencies,
  under-hit, mem_str-all_dependencies,
}
use thing.Index.Monotone.{add_exact_mono, under_mono, by_value_mono, add1_mono, or_mono}

module _ (f : Runtime) (t key : Str) (params : QueryParams) (idx : CacheIndex) where
  after : CacheIndex
  after = register_named f t key params idx

  dependencies : List Str
  dependencies =
      let parsed = parse_query_for_index f params in
      all_dependencies
        (build_query_dependencies parsed.fields parsed.uncertain params.order (is_list_key key))

  -- Registering a query takes nothing from what is affected.
  affected-register_named :
      (j table : Str) (values : Dict Value) (candidates : Dict Bool)
      → affected f j table values candidates idx ≡ true
      → affected f j table values candidates (register_named f t key params idx) ≡ true
  unfolding register_named in2 in3 dependencies
  affected-register_named j table values candidates h =
      let parsed = parse_query_for_index f params in
      or_mono _ _ _ _ _ _ _ _ _ _ _ _
        (by_value_mono f j (get_or table idx.value_index [])
          (get_or table (add_exact f t parsed.exact key idx.value_index) []) candidates values
          λ c s. add_exact_mono f table c s j t parsed.exact key idx.value_index)
        (under_mono j (get_or table idx.field_index [])
          (get_or table (add_fields t parsed.fields key idx.field_index) []) (keys candidates)
          λ c k. ground (arith, in2-add_fields table c j t parsed.fields key idx.field_index))
        (add1_mono table j t key idx.full_table_list_keys _)
        (add1_mono table j t key idx.full_table_count_keys _)
        (under_mono j (get_or table idx.dependency_index [])
          (get_or table (add_dependencies t dependencies key idx.dependency_index) [])
          (keys candidates)
          λ c k.
            ground (arith, in2-add_dependencies table c j t dependencies key idx.dependency_index))
        (λ k. ground (
          arith,
          in2-add_dependencies table uncertain_field j t dependencies key idx.dependency_index,
        ))
        h

  dependency_hit :
      (b : Str)
      → is_empty b ≡ false
      → mem_str b dependencies ≡ true
      → in2 t b key (add_dependencies t dependencies key idx.dependency_index) ≡ true
  dependency_hit b filled named = ground (
    arith,
    in2-add_dependencies t b key t dependencies key idx.dependency_index,
    str_eq_refl t,
    str_eq_refl key,
  )

  -- The two ways in which the order of a list makes a dependency, and the one for a clause that
  -- cannot be parsed.
  order_named :
      (c : Str)
      → is_list_key key ≡ true
      → mem_str c (parse_order_fields params.order).0 ≡ true
      → mem_str c dependencies ≡ true
  unfolding dependencies
  order_named c listed named =
      let parsed = parse_query_for_index f params in
      ground (
        arith,
        mem_str-all_dependencies c parsed.fields parsed.uncertain params.order (is_list_key key),
      )

  order_uncertain :
      is_list_key key ≡ true
      → (parse_order_fields params.order).1 ≡ true
      → mem_str uncertain_field dependencies ≡ true
  unfolding dependencies
  order_uncertain listed uncertain =
      let parsed = parse_query_for_index f params in
      ground (
        arith,
        str_eq_refl uncertain_field,
        mem_str-all_dependencies uncertain_field parsed.fields parsed.uncertain params.order
            (is_list_key key),
      )

  where_uncertain :
      (e : Error)
      → parse_query_predicate f params ≡ err e
      → mem_str uncertain_field dependencies ≡ true
  unfolding dependencies
  where_uncertain e failed =
      let parsed = parse_query_for_index f params in
      let u : parsed.uncertain ≡ true = unfold parse_query_for_index in rw failed in
      ground (
        arith,
        str_eq_refl uncertain_field,
        mem_str-all_dependencies uncertain_field parsed.fields parsed.uncertain params.order
            (is_list_key key),
      )

  -- A registered query is affected by every change that it depends on.
  affected_self :
      (values : Dict Value) (candidates : Dict Bool)
      → Depends f key params candidates
      → affected f key t values candidates (register_named f t key params idx) ≡ true
  unfolding register_named in2 dependencies
  affected_self values candidates (on_where c cand named) =
      let fields = (parse_query_for_index f params).fields in
      ground (
        arith,
        under-hit key (get_or t (add_fields t fields key idx.field_index) []) c (keys candidates)
            cand
            (ground (
              arith,
              in2-add_fields t c key t fields key idx.field_index,
              str_eq_refl t,
              str_eq_refl key,
            )),
      )
  affected_self values candidates (on_order c cand listed filled named) = ground (
    arith,
    under-hit key (get_or t (add_dependencies t dependencies key idx.dependency_index) []) c
        (keys candidates) cand (dependency_hit c filled (order_named c listed named)),
  )
  affected_self values candidates (on_unparsed e failed) =
      ground (arith, dependency_hit uncertain_field refl (where_uncertain e failed))
  affected_self values candidates (on_unparsed_order listed uncertain) =
      ground (arith, dependency_hit uncertain_field refl (order_uncertain listed uncertain))
  affected_self values candidates (on_table whole kind) = ground (
    arith,
    in1-add1 t t key key idx.full_table_list_keys,
    str_eq_refl t,
    str_eq_refl key,
    in1-add1 t t key key idx.full_table_count_keys,
  )

-- The keys that GetInvalidationContext lists are exactly the affected ones: those that the value
-- index, the field index, a full table or the dependencies of the table name for the candidates.
pub mem_str-cache_keys :
    (f : Runtime) (j table : Str) (values : Dict Value) (candidates : Dict Bool) (idx : CacheIndex)
    → mem_str j (get_invalidation_context f table values candidates idx).cache_keys
      ≡ affected f j table values candidates idx
unfolding get_invalidation_context in0
mem_str-cache_keys f j table values candidates idx =
    mem_str-keys j (affected_keys f table values candidates idx)
    ∙ in0-affected_keys f j table values candidates idx

-- After RegisterQuery of a query for a named table and key, GetInvalidationContext for the table
-- lists the key for every set of candidate columns on which the query depends, whatever the values.
pub register_query-Depends :
    (f : Runtime) (table key : Str) (params : QueryParams) (idx : CacheIndex) (values : Dict Value)
    (candidates : Dict Bool)
    → is_empty table ≡ false
    → is_empty key ≡ false
    → Depends f key params candidates
    → mem_str key
        (get_invalidation_context f table values candidates
          (register_query f table key params idx)).cache_keys
      ≡ true
unfolding register_query
register_query-Depends f table key params idx values candidates t k d =
    mem_str-cache_keys f key table values candidates (register_query f table key params idx)
    ∙ rw (t, k) (affected_self f table key params idx values candidates d)

-- RegisterQuery takes no key from any context: what GetInvalidationContext listed before, it lists
-- after.
pub register_query-keeps :
    (f : Runtime) (t k : Str) (params : QueryParams) (idx : CacheIndex) (j table : Str)
    (values : Dict Value) (candidates : Dict Bool)
    → mem_str j (get_invalidation_context f table values candidates idx).cache_keys ≡ true
    → mem_str j
        (get_invalidation_context f table values candidates
          (register_query f t k params idx)).cache_keys
      ≡ true
unfolding register_query
register_query-keeps f t k params idx j table values candidates h =
    elim (Bool-cases (is_empty t || is_empty k)) [
      | inl ignored ↦ rw ignored h
      | inr named ↦ rw named (
          mem_str-cache_keys f j table values candidates (register_named f t k params idx)
          ∙ affected-register_named f t k params idx j table values candidates
              (sym (mem_str-cache_keys f j table values candidates idx) ∙ h))
    ]
