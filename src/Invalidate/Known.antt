-- ===== src/Invalidate/Known.antt =====
-- What CacheIndex of internal/cache/index.go knows of a registered query, through the operations of
-- other queries.
use thing.Prelude.{
  Str, str_eq, str_eq_refl, Bool, true, false, ◌||◌, ◌≡◌, refl, ◌∙◌, none, some, List, [], ◌∷◌, All,
  is_empty, arith, Bool-cases, inl, inr,
}
use thing.Prelude.Dict.{Dict, get, get_or, mem_str, get-put, get-remove}
use thing.Query.{QueryParams, ok}
use thing.Value.{Value, Runtime}
use thing.Predicate.Node.{Predicate}
use thing.Predicate.Parser.{parse_query_predicate}
use thing.Index.State.{
  CacheIndex, register_query, register_named, deregister_query, deregister_named, predicate_of,
}
use thing.Index.Complete.{register_query-Depends, register_query-keeps}
use thing.Index.Deregister.{deregister_query-keeps}
use thing.Index.Lookup.{get_invalidation_context}
use thing.Index.Depends.{Depends}

-- A key whose query the index knows: its parameters, its predicate, and that every change on which
-- the query depends lists it.
pub record Registered (f : Runtime) (table key : Str) (params : QueryParams) (p : Predicate)
    (idx : CacheIndex) : Type 0 where
  pub parsed : parse_query_predicate f params ≡ ok p
  pub params_known : get key idx.key_to_params ≡ some params
  pub predicate_known : get_or key idx.key_to_predicate none ≡ some p
  pub listed :
      (values : Dict Value) (candidates : Dict Bool)
      → Depends f key params candidates
      → mem_str key (get_invalidation_context f table values candidates idx).cache_keys ≡ true

-- Registering a query for a named table and key, with a WHERE clause that parses to p, makes it
-- Registered with the predicate p.
pub register_query-Registered :
    (f : Runtime) (table key : Str) (params : QueryParams) (p : Predicate) (idx : CacheIndex)
    → is_empty table ≡ false
    → is_empty key ≡ false
    → parse_query_predicate f params ≡ ok p
    → Registered f table key params p (register_query f table key params idx)
unfolding register_query register_named predicate_of get_or
register_query-Registered f table key params p idx t k h = record {
  parsed = h;
  params_known =
      rw (t, k) (ground (arith, get-put key key params idx.key_to_params, str_eq_refl key));
  predicate_known =
      rw (t, k, h) (ground (arith, get-put key key (some p) idx.key_to_predicate, str_eq_refl key));
  listed =
      λ values candidates d. register_query-Depends f table key params idx values candidates t k d;
}

-- One operation on the index: a query that is registered, or a key that is deregistered.
pub data IndexStep : Type 0 where
  register : Str → Str → QueryParams → IndexStep
  deregister : Str → IndexStep

abbrev key_of : IndexStep → Str
key_of (register table key params) = key
key_of (deregister key) = key

unfoldable run_step : Runtime → CacheIndex → IndexStep → CacheIndex
unfolding register_query deregister_query
run_step f idx (register table key params) = register_query f table key params idx
run_step f idx (deregister key) = deregister_query key idx

unfoldable pub run_steps : Runtime → CacheIndex → List IndexStep → CacheIndex
unfolding run_step
run_steps f idx [] = idx
run_steps f idx (s ∷ steps) = run_steps f (run_step f idx s) steps

get-register_query :
    (f : Runtime) (table k j : Str) (params : QueryParams) (idx : CacheIndex)
    → str_eq k j ≡ false
    → (get j (register_query f table k params idx).key_to_params ≡ get j idx.key_to_params)
      × (get_or j (register_query f table k params idx).key_to_predicate none
          ≡ get_or j idx.key_to_predicate none)
unfolding register_query register_named get_or
get-register_query f table k j params idx other = elim (Bool-cases (is_empty table || is_empty k)) [
  | inl ignored ↦ rw ignored (refl, refl)
  | inr named ↦
      let pred = predicate_of (parse_query_predicate f params) in
      rw named (
        ground (arith, get-put k j params idx.key_to_params),
        ground (arith, get-put k j pred idx.key_to_predicate),
      )
]

get-deregister_query :
    (k j : Str) (idx : CacheIndex)
    → str_eq k j ≡ false
    → (get j (deregister_query k idx).key_to_params ≡ get j idx.key_to_params)
      × (get_or j (deregister_query k idx).key_to_predicate none
          ≡ get_or j idx.key_to_predicate none)
unfolding deregister_query deregister_named get_or
get-deregister_query k j idx other = elim (Bool-cases (is_empty k)) [
  | inl ignored ↦ rw ignored (refl, refl)
  | inr named ↦ rw named (
    ground (arith, get-remove k j idx.key_to_params),
    ground (arith, get-remove k j idx.key_to_predicate),
  )
]

run_step-Registered :
    (f : Runtime) (table key : Str) (params : QueryParams) (p : Predicate) (idx : CacheIndex)
    (s : IndexStep)
    → str_eq (key_of s) key ≡ false
    → Registered f table key params p idx
    → Registered f table key params p (run_step f idx s)
unfolding run_step
run_step-Registered f table key params p idx (register t k q) other r =
    let kept = get-register_query f t k key q idx other in
    record {
      parsed = r.parsed;
      params_known = kept.0 ∙ r.params_known;
      predicate_known = kept.1 ∙ r.predicate_known;
      listed = λ values candidates d.
          register_query-keeps f t k q idx key table values candidates
            (r.listed values candidates d);
    }
run_step-Registered f table key params p idx (deregister k) other r =
    let kept = get-deregister_query k key idx other in
    record {
      parsed = r.parsed;
      params_known = kept.0 ∙ r.params_known;
      predicate_known = kept.1 ∙ r.predicate_known;
      listed = λ values candidates d.
          (deregister_query-keeps f k key idx table values candidates other
            (r.listed values candidates d)).0;
    }

-- A key stays Registered through any sequence of RegisterQuery and DeregisterQuery for other keys.
pub run_steps-Registered :
    (f : Runtime) (table key : Str) (params : QueryParams) (p : Predicate) (idx : CacheIndex)
    (steps : List IndexStep)
    → All (λ s. str_eq (key_of s) key ≡ false) steps
    → Registered f table key params p idx
    → Registered f table key params p (run_steps f idx steps)
unfolding run_steps
run_steps-Registered f table key params p idx [] others r = r
run_steps-Registered f table key params p idx (s ∷ steps) others r =
    run_steps-Registered f table key params p (run_step f idx s) steps others.1
      (run_step-Registered f table key params p idx s others.0 r)
