-- ===== src/Index/Context.antt =====
-- The metadata that GetInvalidationContext of internal/cache/index.go gives for each key it lists.
use thing.Prelude.{
  Str, str_eq_iff, Bool, true, ◌≡◌, refl, Option, none, some, List, [], ◌∷◌, arith, inl, inr,
  Option-cases, if◌then◌else◌,
}
use thing.Prelude.Dict.{Dict, get, put, get_or, mem_str, get-put}
use thing.Query.{QueryParams}
use thing.Value.{Value, Runtime}
use thing.Predicate.Node.{Predicate}
use thing.Index.State.{CacheIndex, QueryDependencies}
use thing.Index.Lookup.{restrict, restrict_predicates, get_invalidation_context}

get-restrict {ℓ} :
    {A : Type ℓ} (j : Str) (m : Dict A) (ks : List Str) (out : Dict A) (v : A)
    → get j m ≡ some v
    → get j (restrict m ks out) ≡ (if mem_str j ks then some v else get j out)
unfolding restrict mem_str
get-restrict {A} j m [] out v h = refl
get-restrict {A} j m (k ∷ ks) out v h = elim (Option-cases (get k m)) [
  | inl e ↦ rw (e, restrict) (ground (arith, get-restrict j m ks out v h, str_eq_iff k j))
  | inr (w, e) ↦
      rw (e, restrict)
        (ground (arith, get-restrict j m ks (put k w out) v h, str_eq_iff k j, get-put k j w out))
]

get-restrict_unknown {ℓ} :
    {A : Type ℓ} (j : Str) (m : Dict A) (ks : List Str) (out : Dict A)
    → get j m ≡ none
    → get j (restrict m ks out) ≡ get j out
unfolding restrict
get-restrict_unknown {A} j m [] out h = refl
get-restrict_unknown {A} j m (k ∷ ks) out h = elim (Option-cases (get k m)) [
  | inl e ↦ rw (e, restrict) (get-restrict_unknown j m ks out h)
  | inr (w, e) ↦
      rw (e, restrict)
        (ground
          (arith, get-restrict_unknown j m ks (put k w out) h, str_eq_iff k j, get-put k j w out))
]

get-restrict_predicates :
    (j : Str) (m : Dict (Option Predicate)) (ks : List Str) (out : Dict (Option Predicate))
    → get j (restrict_predicates m ks out)
      ≡ (if mem_str j ks then some (get_or j m none) else get j out)
unfolding restrict_predicates mem_str
get-restrict_predicates j m [] out = refl
get-restrict_predicates j m (k ∷ ks) out = ground (
  arith,
  get-restrict_predicates j m ks (put k (get_or k m none) out),
  str_eq_iff k j,
  get-put k j (get_or k m none) out,
)

module _ (f : Runtime) (table : Str) (values : Dict Value) (candidates : Dict Bool)
    (idx : CacheIndex) (j : Str)
    (listed : mem_str j (get_invalidation_context f table values candidates idx).cache_keys
      ≡ true) where
  pub context_params :
      (params : QueryParams)
      → get j idx.key_to_params ≡ some params
      → get j (get_invalidation_context f table values candidates idx).key_to_params ≡ some params
  unfolding get_invalidation_context
  context_params params h =
      let found = (get_invalidation_context f table values candidates idx).cache_keys in
      ground (arith, get-restrict j idx.key_to_params found [] params h)

  -- A key has no other parameters in the context than in the index.
  pub params_context :
      (params : QueryParams)
      → get j (get_invalidation_context f table values candidates idx).key_to_params ≡ some params
      → get j idx.key_to_params ≡ some params
  unfolding get_invalidation_context
  params_context params h =
      let found = (get_invalidation_context f table values candidates idx).cache_keys in
      elim (Option-cases (get j idx.key_to_params)) [
        | inl e ↦ absurd (ground (arith, h, get-restrict_unknown j idx.key_to_params found [] e))
        | inr (w, e) ↦ ground (arith, h, e, context_params w e)
      ]

  pub context_predicate :
      get j (get_invalidation_context f table values candidates idx).key_to_predicate
      ≡ some (get_or j idx.key_to_predicate none)
  unfolding get_invalidation_context
  context_predicate =
      let found = (get_invalidation_context f table values candidates idx).cache_keys in
      ground (arith, get-restrict_predicates j idx.key_to_predicate found [])

  pub context_deps :
      (deps : QueryDependencies)
      → get j idx.key_to_dependencies ≡ some deps
      → get j (get_invalidation_context f table values candidates idx).key_to_deps ≡ some deps
  unfolding get_invalidation_context
  context_deps deps h =
      let found = (get_invalidation_context f table values candidates idx).cache_keys in
      ground (arith, get-restrict j idx.key_to_dependencies found [] deps h)
