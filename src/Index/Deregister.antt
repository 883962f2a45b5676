-- ===== src/Index/Deregister.antt =====
-- DeregisterQuery of internal/cache/index.go, for the key itself and for other keys.
use thing.Prelude.{
  Str, str_eq, str_eq_refl, Bool, true, false, ◌≡◌, refl, sym, ◌∙◌, none, List, [], ◌∷◌, is_empty,
  arith, Bool-cases, inl, inr,
}
use thing.Prelude.Dict.{Dict, get, remove, get_or, keys, mem_str, get-remove}
use thing.Value.{Value, Runtime}
use thing.Index.Nested.{Sets, Sets2, Sets3, in0, in1, in2, in3, prune, remove1, remove2, remove3}
use thing.Index.State.{
  CacheIndex, deregister_named, deregister_query, uncertain_field, to_index_value_string,
}
use thing.Index.Lookup.{get_invalidation_context, get_query_params_for_key, get_cached_predicate}
use thing.Index.Registered.{under, by_value, affected}
use thing.Index.Complete.{mem_str-cache_keys}
use thing.Index.Monotone.{under_mono, by_value_mono, or_mono}

empty_nil {ℓ} : {A : Type ℓ} (xs : List A) → is_empty xs ≡ true → xs ≡ []
empty_nil [] h = refl
empty_nil (x ∷ xs) h = absurd (ground arith)

module _ {ℓ} {V : Type ℓ} (holds : Dict V → Bool) (f : Dict V → Dict V)
    (at_empty : holds [] ≡ false) where
  -- What holds of no pruned value holds nowhere in a pruned map.
  prune_none :
      (a : Str) (m : Dict (Dict V))
      → ((v : Dict V) → holds (f v) ≡ false)
      → holds (get_or a (prune f m) []) ≡ false
  unfolding prune get_or get
  prune_none a [] h = at_empty
  prune_none a ((k, v) ∷ m) h = ground (arith, h v, prune_none a m h, at_empty)

  -- What pruning keeps of a value it keeps in the map.
  prune_mono :
      (a : Str) (m : Dict (Dict V))
      → ((v : Dict V) → holds v ≡ true → holds (f v) ≡ true)
      → holds (get_or a m []) ≡ true
      → holds (get_or a (prune f m) []) ≡ true
  unfolding prune get_or get
  prune_mono a [] h k = k
  prune_mono a ((b, v) ∷ m) h k = ground (arith, h v, at_empty, empty_nil (f v), prune_mono a m h)

in0-remove_self : (k : Str) (m : Dict Bool) → in0 k (remove k m) ≡ false
unfolding in0
in0-remove_self k m = ground (arith, get-remove k k m, str_eq_refl k)

in0-remove_ne : (k j : Str) (m : Dict Bool) → str_eq k j ≡ false → in0 j (remove k m) ≡ in0 j m
unfolding in0
in0-remove_ne k j m h = ground (arith, get-remove k j m)

-- At each depth: the key that is removed is nowhere, and another key stays where it was.
in1-remove1_self : (k a : Str) (m : Sets) → in1 a k (remove1 k m) ≡ false
unfolding in1 remove1 in0 get
in1-remove1_self k a m = prune_none (in0 k) (remove k) refl a m (in0-remove_self k)

in2-remove2_self : (k a b : Str) (m : Sets2) → in2 a b k (remove2 k m) ≡ false
unfolding in2 remove2 in1 in0 get_or get
in2-remove2_self k a b m = prune_none (in1 b k) (remove1 k) refl a m (in1-remove1_self k b)

in3-remove3_self : (k a b c : Str) (m : Sets3) → in3 a b c k (remove3 k m) ≡ false
unfolding in3 remove3 in2 in1 in0 get_or get
in3-remove3_self k a b c m = prune_none (in2 b c k) (remove2 k) refl a m (in2-remove2_self k b c)

module _ (k j : Str) (other : str_eq k j ≡ false) where
  in1-remove1_ne : (a : Str) (m : Sets) → in1 a j m ≡ true → in1 a j (remove1 k m) ≡ true
  unfolding in1 remove1 in0 get
  in1-remove1_ne a m = prune_mono (in0 j) (remove k) refl a m λ v h. in0-remove_ne k j v other ∙ h

  in2-remove2_ne : (a b : Str) (m : Sets2) → in2 a b j m ≡ true → in2 a b j (remove2 k m) ≡ true
  unfolding in2 remove2 in1 in0 get_or get
  in2-remove2_ne a b m = prune_mono (in1 b j) (remove1 k) refl a m λ v. in1-remove1_ne b v

  in3-remove3_ne :
      (a b c : Str) (m : Sets3) → in3 a b c j m ≡ true → in3 a b c j (remove3 k m) ≡ true
  unfolding in3 remove3 in2 in1 in0 get_or get
  in3-remove3_ne a b c m = prune_mono (in2 b c j) (remove2 k) refl a m λ v. in2-remove2_ne b c v

  affected-deregister :
      (f : Runtime) (table : Str) (values : Dict Value) (candidates : Dict Bool) (idx : CacheIndex)
      → affected f j table values candidates idx ≡ true
      → affected f j table values candidates (deregister_named k idx) ≡ true
  unfolding deregister_named in2 in3
  affected-deregister f table values candidates idx h =
      or_mono _ _ _ _ _ _ _ _ _ _ _ _
        (by_value_mono f j (get_or table idx.value_index [])
          (get_or table (remove3 k idx.value_index) []) candidates values
          λ c s. in3-remove3_ne table c s idx.value_index)
        (under_mono j (get_or table idx.field_index [])
          (get_or table (remove2 k idx.field_index) []) (keys candidates)
          λ c. in2-remove2_ne table c idx.field_index)
        (in1-remove1_ne table idx.full_table_list_keys)
        (in1-remove1_ne table idx.full_table_count_keys)
        (under_mono j (get_or table idx.dependency_index [])
          (get_or table (remove2 k idx.dependency_index) []) (keys candidates)
          λ c. in2-remove2_ne table c idx.dependency_index)
        (in2-remove2_ne table uncertain_field idx.dependency_index) h

under-none :
    (j : Str) (sets : Sets) (fields : List Str)
    → ((c : Str) → in1 c j sets ≡ false)
    → under j sets fields ≡ false
under-none j sets [] h = refl
under-none j sets (c ∷ fields) h = ground (arith, h c, under-none j sets fields h)

by_value-none :
    (f : Runtime) (j : Str) (tables : Sets2) (candidates : Dict Bool) (values : Dict Value)
    → ((c text : Str) → in2 c text j tables ≡ false)
    → by_value f j tables candidates values ≡ false
by_value-none f j tables candidates [] h = refl
by_value-none f j tables candidates ((c, v) ∷ rest) h =
    ground (arith, h c (to_index_value_string f v), by_value-none f j tables candidates rest h)

-- The key that is deregistered is affected by nothing.
affected-deregister_self :
    (f : Runtime) (k table : Str) (values : Dict Value) (candidates : Dict Bool) (idx : CacheIndex)
    → affected f k table values candidates (deregister_named k idx) ≡ false
unfolding deregister_named in2 in3
affected-deregister_self f k table values candidates idx = ground (
  arith,
  by_value-none f k (get_or table (remove3 k idx.value_index) []) candidates values
      (λ c s. in3-remove3_self k table c s idx.value_index),
  under-none k (get_or table (remove2 k idx.field_index) []) (keys candidates)
      (λ c. in2-remove2_self k table c idx.field_index),
  in1-remove1_self k table idx.full_table_list_keys,
  in1-remove1_self k table idx.full_table_count_keys,
  under-none k (get_or table (remove2 k idx.dependency_index) []) (keys candidates)
      (λ c. in2-remove2_self k table c idx.dependency_index),
  in2-remove2_self k table uncertain_field idx.dependency_index,
)

-- After DeregisterQuery of a key that is not empty, GetInvalidationContext lists the key for no
-- table, values and candidate columns, and GetQueryParamsForKey and GetCachedPredicate have nothing
-- for it.
pub deregister_query_self :
    (f : Runtime) (k : Str) (idx : CacheIndex) (table : Str) (values : Dict Value)
    (candidates : Dict Bool)
    → is_empty k ≡ false
    → (mem_str k
          (get_invalidation_context f table values candidates (deregister_query k idx)).cache_keys
        ≡ false)
      × (get_query_params_for_key k (deregister_query k idx) ≡ none)
      × (get_cached_predicate k (deregister_query k idx) ≡ none)
unfolding deregister_query get_query_params_for_key get_cached_predicate
deregister_query_self f k idx table values candidates named = (
  mem_str-cache_keys f k table values candidates (deregister_query k idx)
      ∙ rw named (affected-deregister_self f k table values candidates idx),
  rw named
      (unfold deregister_named in ground (arith, get-remove k k idx.key_to_params, str_eq_refl k)),
  rw named (
      unfold deregister_named in
      ground (arith, get-remove k k idx.key_to_predicate, str_eq_refl k)),
)

-- DeregisterQuery of one key keeps another: the other key stays in every context that listed it,
-- and GetQueryParamsForKey gives what it gave.
pub deregister_query-keeps :
    (f : Runtime) (k j : Str) (idx : CacheIndex) (table : Str) (values : Dict Value)
    (candidates : Dict Bool)
    → str_eq k j ≡ false
    → mem_str j (get_invalidation_context f table values candidates idx).cache_keys ≡ true
    → (mem_str j
          (get_invalidation_context f table values candidates (deregister_query k idx)).cache_keys
        ≡ true)
      × (get_query_params_for_key j (deregister_query k idx) ≡ get_query_params_for_key j idx)
unfolding deregister_query get_query_params_for_key
deregister_query-keeps f k j idx table values candidates other h = elim (Bool-cases (is_empty k)) [
  | inl ignored ↦ rw ignored (h, refl)
  | inr named ↦ rw named (
    mem_str-cache_keys f j table values candidates (deregister_named k idx)
        ∙ affected-deregister k j other f table values candidates idx
            (sym (mem_str-cache_keys f j table values candidates idx) ∙ h),
    (unfold deregister_named in ground (arith, get-remove k j idx.key_to_params)),
  )
]
