-- ===== src/Invalidate/Changed.antt =====
-- The columns of changedModelColumns in cache.go and the fields of a predicate of
-- internal/cache/query_predicate.go whose match they change.
use thing.Prelude.{
  Str, str_eq_iff, str_eq_refl, Bool, true, false, not, ◌≡◌, ◌≢◌, refl, sym, ◌∙◌, Option, none,
  some, List, [], ◌∷◌, is_some, arith, Bool-cases, inl, inr,
}
use thing.Prelude.Dict.{Dict, get, get_or, keys, mem_str, mem_str-keys}
use thing.Query.{QueryParams, ok}
use thing.Value.{Runtime}
use thing.Predicate.Node.{Predicate, match_predicate, predicate_fields}
use thing.Predicate.Fields.{match_predicate_agree}
use thing.Predicate.Parser.{parse_query_predicate}
use thing.Match.Condition.{Row, match_condition}
use thing.Index.State.{parse_query_for_index, indexed_of}
use thing.Invalidate.Columns.{
  ModelInfo, changed_model_columns, field_values, cache_candidate_columns,
}
use thing.Invalidate.Tasks.{any_changed}
use thing.Invalidate.Unchanged.{Tracked, condition_unchanged, get-field_values, mem_str-all_columns}

any_changed-none :
    (fields : List Str) (changed : Dict Bool) (c : Str)
    → any_changed fields changed ≡ false
    → mem_str c fields ≡ true
    → get_or c changed false ≡ false
unfolding any_changed mem_str
any_changed-none [] changed c n m = absurd (ground arith)
any_changed-none (field ∷ fields) changed c n m =
    ground (arith, any_changed-none fields changed c, str_eq_iff field c)

pub any_changed-some :
    (fields : List Str) (changed : Dict Bool)
    → any_changed fields changed ≡ true
    → (c : Str) × (mem_str c fields ≡ true) × (get_or c changed false ≡ true)
unfolding any_changed mem_str
any_changed-some [] changed h = absurd (ground arith)
any_changed-some (field ∷ fields) changed h = elim (Bool-cases (get_or field changed false)) [
  | inl here ↦ (field, ground (arith, str_eq_refl field), here)
  | inr there ↦
      let found = any_changed-some fields changed (ground (arith, h)) in
      (found.0, ground (arith, found.1), found.2)
]

get_or-is_some : (c : Str) (m : Dict Bool) → get_or c m false ≡ true → is_some (get c m) ≡ true
unfolding get_or
get_or-is_some c m h = by_entry (get c m) h
  where
    by_entry : (o : Option Bool) → (elim o [ none ↦ false | some v ↦ v ]) ≡ true → is_some o ≡ true
    by_entry none h = absurd (ground arith)
    by_entry (some v) h = refl

pub parse_query_for_index_lem :
    (f : Runtime) (params : QueryParams) (p : Predicate)
    → parse_query_predicate f params ≡ ok p
    → (parse_query_for_index f params).fields ≡ predicate_fields p
unfolding parse_query_for_index indexed_of
parse_query_for_index_lem f params p h = rw h refl

ok_differ : (a : Bool) → ok a ≢ ok (not a)
ok_differ true e = ground arith
ok_differ false e = ground arith

-- A row whose match changes has a changed column among those of the predicate.
pub match_changed :
    (f : Runtime) (info : ModelInfo) (now before : Row) (p : Predicate) (a : Bool)
    → ((c : Str) → mem_str c (predicate_fields p) ≡ true → Tracked info now before c)
    → match_predicate (match_condition f info.column_to_field now) p ≡ ok a
    → match_predicate (match_condition f info.column_to_field before) p ≡ ok (not a)
    → any_changed (predicate_fields p) (changed_model_columns f info now (some before)) ≡ true
unfolding changed_model_columns
match_changed f info now before p a t m n =
    let changed = changed_model_columns f info now (some before) in
    elim (Bool-cases (any_changed (predicate_fields p) changed)) [
      | inl h ↦ h
      | inr u ↦
          let same =
            match_predicate_agree (match_condition f info.column_to_field now)
              (match_condition f info.column_to_field before) p
              (λ c o op v.
                condition_unchanged f info now before c op v (t c o)
                  (any_changed-none (predicate_fields p) changed c u o)) in
          absurd (ok_differ a (sym m ∙ (same ∙ n)))
    ]

-- A changed column of a predicate is a candidate, also where all columns are.
pub candidate :
    (f : Runtime) (info : ModelInfo) (now before : Row) (c : Str) (forced : Bool)
    → Tracked info now before c
    → get_or c (changed_model_columns f info now (some before)) false ≡ true
    → mem_str c (
        keys (
          cache_candidate_columns
            (field_values now info.compare_fields [])
            (changed_model_columns f info now (some before))
            false
            false
            forced))
      ≡ true
unfolding cache_candidate_columns
candidate f info now before c true t h =
    mem_str-all_columns c (field_values now info.compare_fields [])
    ∙ get-field_values now info.compare_fields [] c t.name t.v t.compared t.current
candidate f info now before c false t h =
    let changed = changed_model_columns f info now (some before) in
    mem_str-keys c changed ∙ get_or-is_some c changed h
